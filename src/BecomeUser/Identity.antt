-- ===== src/BecomeUser/Identity.antt =====
-- What a switch that returns has achieved, for a kernel of which nothing is known.
use tsi.Base.{
  ◌≡◌, ◌≢◌, refl, sym, ap, subst, ◌∙◌, Bool, true, false, not, Option, none, some, List, ◌∷◌, arith,
}
use tsi.Base.{◌==◌, int_eq}
use tsi.Base.Int.{ℤ, pos, minus_one, int_beq_iff}
use tsi.Base.Exec.{Error, ok, runtime_error, unknown_user, root_requested, Exec, >>=-ok}
use tsi.Base.Text.{Text}
use tsi.UserCache.{UserCache, Os, get_uid_4user, get_home_4user}
use tsi.BecomeUser.{
  Config, Process, Kernel, Session, cached, require, same_set, choose_groups, change_identity,
  verify_identity, set_environment, finish_switch, switch_to, become_user,
}

-- The process runs as the user: real and effective ids, the set of its groups, its environment.
pub record RunsAs (user : Text) (uid gid : ℤ) (gids : List ℤ) (p : Process) : Type 0 where
  pub ruid : p.ruid ≡ uid
  pub euid : p.euid ≡ uid
  pub rgid : p.rgid ≡ gid
  pub egid : p.egid ≡ gid
  pub groups : same_set p.groups gids ≡ true
  pub env_user : p.env_user ≡ user
  pub env_logname : p.env_logname ≡ user

require-ok :
    (b : Bool) (e : Error) {s t : Session} → require b e s ≡ (ok tt, t) → (b ≡ true) × (t ≡ s)
unfolding require
require-ok true e h = (refl, sym (ap (λ r. r.1) h))
require-ok false e h = absurd (cc)

differs : (a b : ℤ) → not (a == b) ≡ true → a ≢ b
differs a b h = ground (arith, int_beq_iff a b)

cached-ok {ℓ} :
    {A : Type ℓ} (m : Exec UserCache A) {s t : Session} {a : A}
    → cached m s ≡ (ok a, t)
    → ((m s.cache).0 ≡ ok a) × (t ≡ record s { cache = (m s.cache).1 })
cached-ok m h = (ap (λ r. r.0) h, sym (ap (λ r. r.1) h))

abbrev with_environment : Text → Text → Process → Process
with_environment user home p = record p { env_home = home; env_user = user; env_logname = user }

module _ (user : Text) (uid gid : ℤ) (gids : List ℤ) where
  -- The ids, before the environment is set.
  record Verified (p : Process) : Type 0 where
    ruid : p.ruid ≡ uid
    euid : p.euid ≡ uid
    rgid : p.rgid ≡ gid
    egid : p.egid ≡ gid
    groups : same_set p.groups gids ≡ true

  RunsAs-of_Verified :
      (home : Text) (p : Process)
      → Verified p
      → RunsAs user uid gid gids (with_environment user home p)
  RunsAs-of_Verified home p v = record {
    ruid = v.ruid;
    euid = v.euid;
    rgid = v.rgid;
    egid = v.egid;
    groups = v.groups;
    env_user = refl;
    env_logname = refl;
  }

  module _ (os : Os) (config : Config) (kernel : Kernel) where
    verify_identity-ok :
        (s t : Session)
        → verify_identity os config kernel user uid gid gids s ≡ (ok tt, t)
        → (t ≡ s) × Verified s.process
    unfolding verify_identity require
    verify_identity-ok s t h = ground (
      arith,
      int_beq_iff s.process.ruid uid,
      int_beq_iff s.process.euid uid,
      int_beq_iff s.process.rgid gid,
      int_beq_iff s.process.egid gid,
    )

    set_environment-ok :
        (home : Option Text) (s t : Session)
        → set_environment os config kernel user home s ≡ (ok tt, t)
        → (h : Text) × (t.process ≡ with_environment user h s.process)
    unfolding set_environment
    set_environment-ok none s t h = absurd (cc)
    set_environment-ok (some home) s t h = (home, sym (ap (λ r. r.1.process) h))

    finish_switch-RunsAs :
        (s t : Session) (b : Bool)
        → finish_switch os config kernel user uid gid gids s ≡ (ok b, t)
        → RunsAs user uid gid gids t.process
    unfolding finish_switch
    finish_switch-RunsAs s t b h =
        let (_, s1, checked, h1) =
          >>=-ok (verify_identity os config kernel user uid gid gids) _ h in
        let (home, s2, looked_up, h2) = >>=-ok (cached (get_home_4user os user)) _ h1 in
        let (_, s3, set, h3) = >>=-ok (set_environment os config kernel user home) _ h2 in
        let (same, v) = verify_identity-ok s s1 checked in
        let (text, e) = set_environment-ok home s2 s3 set in
        let p : t.process ≡ with_environment user text s.process =
          cc (same, e, h3, (cached-ok (get_home_4user os user) looked_up).1) in
        subst (RunsAs user uid gid gids) (sym p) (RunsAs-of_Verified text s.process v)

-- What a successful switch knows of the uid and the groups that it chose.
pub record Switched (os : Os) (config : Config) (user primary : Text) (rest : List Text)
    (s t : Session) : Type 0 where
  pub uid : ℤ
  pub gid : ℤ
  pub gids : List ℤ
  pub answered : (get_uid_4user os user s.cache).0 ≡ ok uid
  pub is_known : uid ≢ minus_one
  pub not_root : uid ≢ pos 0
  pub chosen :
      (choose_groups os config user primary (primary ∷ rest) (get_uid_4user os user s.cache).1).0
      ≡ ok (gid, gids)
  pub runs_as : RunsAs user uid gid gids t.process

module _ (os : Os) (config : Config) (kernel : Kernel) (user primary : Text)
    (rest : List Text) where
  switch_to-Switched :
      (s t : Session) (b : Bool)
      → switch_to os config kernel user primary (primary ∷ rest) s ≡ (ok b, t)
      → Switched os config user primary rest s t
  unfolding switch_to
  switch_to-Switched s t b h =
      let (uid, s1, asked, h1) = >>=-ok (cached (get_uid_4user os user)) _ h in
      let (_, s2, known, h2) =
        >>=-ok (require (not (uid == minus_one)) (runtime_error (unknown_user user))) _ h1 in
      let (_, s3, no_root, h3) =
        >>=-ok (require (not (uid == pos 0)) (runtime_error (root_requested user))) _ h2 in
      let (groups, s4, chose, h4) =
        >>=-ok (cached (choose_groups os config user primary (primary ∷ rest))) _ h3 in
      let (_, s5, changed, h5) =
        >>=-ok (change_identity os config kernel uid groups.0 groups.1) _ h4 in
      let (answer, left) = cached-ok (get_uid_4user os user) asked in
      record {
        uid = uid;
        gid = groups.0;
        gids = groups.1;
        answered = answer;
        is_known = differs uid minus_one (require-ok _ _ known).0;
        not_root = differs uid (pos 0) (require-ok _ _ no_root).0;
        chosen =
            subst (λ c. (choose_groups os config user primary (primary ∷ rest) c).0 ≡ ok groups)
              (ap (λ (r : Session). r.cache)
                ((require-ok _ _ no_root).1 ∙ (require-ok _ _ known).1 ∙ left))
              (cached-ok (choose_groups os config user primary (primary ∷ rest)) chose).0;
        runs_as = finish_switch-RunsAs user uid groups.0 groups.1 os config kernel s5 t b h5;
      }

  pub become_user-switching :
      (s : Session)
      → config.switch_uid ≡ true
      → become_user os config kernel user (primary ∷ rest) s
        ≡ switch_to os config kernel user primary (primary ∷ rest) s
  unfolding become_user
  become_user-switching s on = ground arith

-- If switching is on and the switch returns, then whatever the system calls did, the process has
-- the uid that the cache gave for the user, as real and effective uid, and that is neither 0 nor -1;
-- it has the chosen gid as real and effective gid; the set of its groups is the set of the chosen
-- ones; and `USER` and `LOGNAME` name the user.
pub become_user-Switched :
    (os : Os) (config : Config) (kernel : Kernel) (user primary : Text) (rest : List Text)
    (s t : Session) (b : Bool)
    → config.switch_uid ≡ true
    → become_user os config kernel user (primary ∷ rest) s ≡ (ok b, t)
    → Switched os config user primary rest s t
become_user-Switched os config kernel user primary rest s t b on h =
    switch_to-Switched os config kernel user primary rest s t b
      (sym (become_user-switching os config kernel user primary rest s on) ∙ h)
