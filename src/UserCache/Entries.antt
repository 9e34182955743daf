-- ===== src/UserCache/Entries.antt =====
-- The entries of one user, and what an update leaves alone.
use tsi.Base.{◌≡◌, ◌≢◌, refl, ◌∙◌, Option, none, some, Bool, true, false}
use tsi.Base.{ℕ, List, arith, ◌==◌, text_beq, text_beq_iff, text_eq, if◌then◌else◌}
use tsi.Base.Int.{ℤ}
use tsi.Base.Dict.{Dict, insert, lookup-insert}
use tsi.Base.Exec.{Result, ok, err, continue, gets}
use tsi.Base.Text.{Text}
use tsi.UserCache.{
  UserCache, Os, Passwd, get, update_user_info, forget_user, store_passwd, store_groups, store_user,
  prepare_users, refresh_user, update_group_info, prepare_groups, get_uid_4user, get_gid_4user,
  get_gids_4user, get_home_4user, get_gid_4group, id_or_minus_one, gids_or_empty,
}

pub get-insert {ℓ} :
    {V : Type ℓ} (k j : Text) (v : Option V) (d : Dict Text (Option V))
    → get j (insert k v d) ≡ (if k == j then v else get j d)
unfolding get
get-insert k j v d = ground (arith, lookup-insert k j v d)

-- The two caches hold the same of the user.
pub record SameUser (user : Text) (c d : UserCache) : Type 0 where
  pub uid : get user d.uids ≡ get user c.uids
  pub gid : get user d.gids ≡ get user c.gids
  pub home : get user d.homes ≡ get user c.homes
  pub gids : get user d.all_groups ≡ get user c.all_groups
  pub timestamp : get user d.users_timestamps ≡ get user c.users_timestamps

pub SameUser-refl : (user : Text) (c : UserCache) → SameUser user c c
SameUser-refl user c = record { uid = refl; gid = refl; home = refl; gids = refl; timestamp = refl }

pub SameUser-trans :
    {user : Text} {c d e : UserCache} → SameUser user c d → SameUser user d e → SameUser user c e
SameUser-trans p q = record {
  uid = q.uid ∙ p.uid;
  gid = q.gid ∙ p.gid;
  home = q.home ∙ p.home;
  gids = q.gids ∙ p.gids;
  timestamp = q.timestamp ∙ p.timestamp;
}

-- The lookup of another key passes an insertion.
get-insert_other {ℓ} :
    {V : Type ℓ} (k j : Text) (v : Option V) (d : Dict Text (Option V))
    → text_beq k j ≡ false
    → get j (insert k v d) ≡ get j d
get-insert_other k j v d ne = get-insert k j v d ∙ rw ne

pub get-insert_self {ℓ} :
    {V : Type ℓ} (k : Text) (v : Option V) (d : Dict Text (Option V)) → get k (insert k v d) ≡ v
get-insert_self k v d = get-insert k k v d ∙ rw ((text_beq_iff k k).1 refl)

module _ (user other : Text) (ne : text_beq user other ≡ false) where
  forget_user-SameUser : (c : UserCache) → SameUser other c (forget_user user c)
  unfolding forget_user
  forget_user-SameUser c = record {
    uid = get-insert_other user other none c.uids ne;
    gid = get-insert_other user other none c.gids ne;
    home = get-insert_other user other none c.homes ne;
    gids = get-insert_other user other none c.all_groups ne;
    timestamp = get-insert_other user other none c.users_timestamps ne;
  }

  store_passwd-SameUser : (p : Passwd) (c : UserCache) → SameUser other c (store_passwd user p c)
  unfolding store_passwd
  store_passwd-SameUser p c = record {
    uid = get-insert_other user other (some p.uid) c.uids ne;
    gid = get-insert_other user other (some p.gid) c.gids ne;
    home = get-insert_other user other (some p.home) c.homes ne;
    gids = refl;
    timestamp = refl;
  }

  store_groups-SameUser :
      (r : Result (List ℤ)) (now : ℕ) (c : UserCache)
      → SameUser other c (store_groups user r now c).1
  unfolding store_groups
  store_groups-SameUser (err e) now c = SameUser-refl other c
  store_groups-SameUser (ok gs) now c = record {
    uid = refl;
    gid = refl;
    home = refl;
    gids = get-insert_other user other (some gs) c.all_groups ne;
    timestamp = get-insert_other user other (some now) c.users_timestamps ne;
  }

  store_user-SameUser :
      (os : Os) (found : Option Passwd) (c : UserCache)
      → SameUser other c (store_user os user found c).1
  unfolding store_user
  store_user-SameUser os none c = SameUser-refl other c
  store_user-SameUser os (some p) c =
      SameUser-trans (store_passwd-SameUser p c) (store_groups-SameUser _ os.now _)

  update_user_info-SameUser :
      (os : Os) (c : UserCache) → SameUser other c (update_user_info os user c).1
  unfolding update_user_info
  update_user_info-SameUser os c =
      SameUser-trans (forget_user-SameUser c) (store_user-SameUser os (os.getpwnam user) _)

  refresh_user-SameUser :
      (os : Os) (r : Result Bool) (c : UserCache) → SameUser other c (refresh_user os user r c).1
  unfolding refresh_user
  refresh_user-SameUser os (ok true) c = update_user_info-SameUser os c
  refresh_user-SameUser os (ok false) c = SameUser-refl other c
  refresh_user-SameUser os (err e) c = SameUser-refl other c

-- Preparing one user changes nothing of another, whether the update succeeds or raises.
pub prepare_users-SameUser :
    (os : Os) (user other : Text) (c : UserCache)
    → user ≢ other
    → SameUser other c (prepare_users os user c).1
unfolding prepare_users
prepare_users-SameUser os user other c ne =
    refresh_user-SameUser user other (ground (arith, text_beq_iff user other)) os _ c

-- Group lookups change nothing of any user.
pub prepare_groups-SameUser :
    (os : Os) (group user : Text) (c : UserCache) → SameUser user c (prepare_groups os group c).1
unfolding prepare_groups update_group_info
prepare_groups-SameUser os group user c = record {
  uid = ground arith;
  gid = ground arith;
  home = ground arith;
  gids = ground arith;
  timestamp = ground arith;
}

-- Whatever the result, a getter leaves the cache that its preparation left.
after_getter {ℓ} :
    {A : Type ℓ} (r : Result (Unit {0})) (f : UserCache → A) (c : UserCache)
    → (continue r (λ _. gets f) c).1 ≡ c
after_getter (ok a) f c = refl
after_getter (err e) f c = refl

-- A getter that did not raise read what its preparation left.
pub getter-ok {ℓ} :
    {A : Type ℓ} (r : Result (Unit {0})) (f : UserCache → A) (c : UserCache) (a : A)
    → (continue r (λ _. gets f) c).0 ≡ ok a
    → (r ≡ ok tt) × (f c ≡ a)
getter-ok (ok tt) f c a h = (refl, cc)
getter-ok (err e) f c a h = cc

module _ (os : Os) (name : Text) (c : UserCache) where
  pub uid_4user-state : (get_uid_4user os name c).1 ≡ (prepare_users os name c).1
  unfolding get_uid_4user
  uid_4user-state =
      after_getter (prepare_users os name c).0 (λ d. id_or_minus_one (get name d.uids)) _

  pub gid_4user-state : (get_gid_4user os name c).1 ≡ (prepare_users os name c).1
  unfolding get_gid_4user
  gid_4user-state =
      after_getter (prepare_users os name c).0 (λ d. id_or_minus_one (get name d.gids)) _

  pub gids_4user-state : (get_gids_4user os name c).1 ≡ (prepare_users os name c).1
  unfolding get_gids_4user
  gids_4user-state =
      after_getter (prepare_users os name c).0 (λ d. gids_or_empty (get name d.all_groups)) _

  pub home_4user-state : (get_home_4user os name c).1 ≡ (prepare_users os name c).1
  unfolding get_home_4user
  home_4user-state = after_getter (prepare_users os name c).0 (λ d. get name d.homes) _

  pub gid_4group-state : (get_gid_4group os name c).1 ≡ (prepare_groups os name c).1
  unfolding get_gid_4group
  gid_4group-state =
      after_getter (prepare_groups os name c).0 (λ d. id_or_minus_one (get name d.groups)) _

  pub uid_4user-ok :
      (u : ℤ)
      → (get_uid_4user os name c).0 ≡ ok u
      → ((prepare_users os name c).0 ≡ ok tt)
        × (id_or_minus_one (get name (prepare_users os name c).1.uids) ≡ u)
  unfolding get_uid_4user
  uid_4user-ok = getter-ok (prepare_users os name c).0 (λ d. id_or_minus_one (get name d.uids)) _
