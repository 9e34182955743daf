-- ===== src/BecomeUser.antt =====
-- lib/BecomeUser.py: the switch of the process to the identity of a user, and back.
pub mod Identity
pub mod Membership
mod Good
pub mod Lenient
pub mod Posix
pub mod Return
pub mod Restore
mod Tests
use tsi.Base.{
  ◌≡◌, ◌++◌, ◌&&◌, Option, none, some, Bool, true, false, not, List, [], ◌∷◌, if◌then◌else◌,
}
use tsi.Base.{◌==◌, contains, text_eq, int_eq}
use tsi.Base.Int.{ℤ, pos, minus_one}
use tsi.Base.Dict.{Dict, insert, keys}
use tsi.Base.Exec.{
  Error, Result, ok, err, Exec, pure, throw, gets, ◌>>=◌, ◌>>◌, runtime_error, type_error,
  index_error, os_error, root_without_switching, unknown_user, root_requested,
  unknown_primary_group, unknown_supplementary_group, not_a_member, uid_not_set, gid_not_set,
  groups_not_set,
}
use tsi.Base.Text.{Text, txt}
use tsi.UserCache.{
  UserCache, Os, get_gids_4user, get_gid_4group, get_gid_4user, get_uid_4user, get_home_4user,
}

-- The settings that this module reads; `initialize` sets the first three.
pub record Config : Type 0 where
  pub switch_uid : Bool
  pub effective_uid : ℤ
  pub effective_gid : ℤ
  pub enforce_os_gids : Bool
  pub fail_on_invalid_gids : Bool

-- The process: its real, effective and saved ids, its supplementary groups, and the three
-- variables of its environment that are set here.
pub record Process : Type 0 where
  pub ruid : ℤ
  pub euid : ℤ
  pub suid : ℤ
  pub rgid : ℤ
  pub egid : ℤ
  pub sgid : ℤ
  pub groups : List ℤ
  pub env_home : Text
  pub env_user : Text
  pub env_logname : Text

-- The system calls, of which nothing is assumed here. `none` is an `OSError`.
pub record Kernel : Type 0 where
  pub setgid : ℤ → Process → Option Process
  pub setegid : ℤ → Process → Option Process
  pub setgroups : List ℤ → Process → Option Process
  pub setresuid : ℤ → ℤ → ℤ → Process → Option Process

pub record Session : Type 0 where
  pub cache : UserCache
  pub process : Process

-- `initialize`, of the settings: the ids to come back to, and whether to switch at all.
pub initialize : ℤ → ℤ → Config → Config
initialize euid egid config = record config {
  switch_uid = if config.switch_uid then true else euid == pos 0;
  effective_uid = euid;
  effective_gid = egid;
}

abbrev pub default_gid : Text
default_gid = txt "DEFAULT_GID"

-- `for d in default_gids: sup_gids[d] = True`
add_gids : List ℤ → Dict ℤ Bool → Dict ℤ Bool
add_gids [] sup = sup
add_gids (d ∷ ds) sup = add_gids ds (insert d true sup)

-- The gids that are marked, in the order of insertion.
true_keys : Dict ℤ Bool → List ℤ
true_keys [] = []
true_keys ((g, b) ∷ d) = let rest = true_keys d in if b then g ∷ rest else rest

module _ (os : Os) (config : Config) where
  unfoldable pub check_membership : ℤ → Text → Exec UserCache Bool
  check_membership group_gid user =
      if config.enforce_os_gids
      then (do
        primary ← get_gid_4user os user
        if group_gid == primary
            then pure true
            else (do user_gids ← get_gids_4user os user; pure (contains user_gids group_gid)))
      else pure true

  -- The requested group, or the default where it is unknown and that is allowed.
  known_group : Text → Text → ℤ → Exec UserCache ℤ
  known_group primary user new_gid =
      if new_gid == minus_one
      then if config.fail_on_invalid_gids
        then throw (runtime_error (unknown_primary_group primary))
        else get_gid_4user os user
      else pure new_gid

  -- The group, or the default where the user is no member and that is allowed.
  member_group : Text → Text → ℤ → Exec UserCache ℤ
  member_group primary user new_gid = do
    member ← check_membership new_gid user
    if member
        then pure new_gid
        else if config.fail_on_invalid_gids
        then throw (runtime_error (not_a_member user primary))
        else get_gid_4user os user

  pub get_primary_group : Text → Text → Exec UserCache ℤ
  get_primary_group primary user = if primary == default_gid then get_gid_4user os user else (do
    found ← get_gid_4group os primary
    new_gid ← known_group primary user found
    member_group primary user new_gid)

  -- A named group of the request. A user who is no member gets it all the same, unless that is
  -- to fail.
  add_named : Text → Text → Dict ℤ Bool → ℤ → Exec UserCache (Dict ℤ Bool)
  add_named user g sup tmp =
      if tmp == minus_one
      then if config.fail_on_invalid_gids
        then throw (runtime_error (unknown_supplementary_group g))
        else pure sup
      else (do
        member ← check_membership tmp user
        if not member && config.fail_on_invalid_gids
            then throw (runtime_error (not_a_member user g))
            else pure (insert tmp true sup))

  -- One round of the loop over the requested groups.
  add_requested : Text → Text → Bool × Dict ℤ Bool → Exec UserCache (Bool × Dict ℤ Bool)
  add_requested user g (added_default, sup) =
      if g == default_gid
      then if added_default
        then pure (true, sup)
        else (do default_gids ← get_gids_4user os user; pure (true, add_gids default_gids sup))
      else (do
        tmp ← get_gid_4group os g
        sup' ← add_named user g sup tmp
        pure (added_default, sup'))

  add_all : Text → List Text → Bool × Dict ℤ Bool → Exec UserCache (Bool × Dict ℤ Bool)
  add_all user [] acc = pure acc
  add_all user (g ∷ gs) acc = do acc' ← add_requested user g acc; add_all user gs acc'

  pub get_supplementary_groups : List Text → ℤ → Text → Exec UserCache (List ℤ)
  get_supplementary_groups requested_groups primary user = do
    acc ← add_all user requested_groups (false, (primary, true) ∷ [])
    pure (true_keys acc.1)

-- A call on the cache of the session.
abbrev pub cached {ℓ} : {A : Type ℓ} → Exec UserCache A → Exec Session A
cached m s = let r = m s.cache in (r.0, record s { cache = r.1 })

-- A system call on its process.
abbrev pub system_call : (Process → Option Process) → Exec Session (Unit {0})
system_call f s = elim (f s.process) [
  | none ↦ (err os_error, s)
  | some p ↦ (ok tt, record s { process = p })
]

all_in : List ℤ → List ℤ → Bool
all_in [] ys = true
all_in (x ∷ xs) ys = contains ys x && all_in xs ys

-- `set(xs) == set(ys)`
unfoldable pub same_set : List ℤ → List ℤ → Bool
unfolding all_in
same_set xs ys = all_in xs ys && all_in ys xs

pub require : Bool → Error → Exec Session (Unit {0})
require true e s = (ok tt, s)
require false e s = (err e, s)

abbrev pub none_requested : Text
none_requested = txt "NONE"

module _ (os : Os) (config : Config) where
  -- The gid and the gids that the request maps to.
  pub choose_groups : Text → Text → List Text → Exec UserCache (ℤ × List ℤ)
  choose_groups user primary requested_groups =
      if primary == none_requested
      then (do
        new_gid ← get_gid_4user os user
        new_gids ← get_gids_4user os user
        pure (new_gid, new_gids))
      else (do
        new_gid ← get_primary_group os config primary user
        new_gids ← get_supplementary_groups os config requested_groups new_gid user
        pure (new_gid, new_gids))

  module _ (kernel : Kernel) where
    -- The four system calls, in this order.
    change_identity : ℤ → ℤ → List ℤ → Exec Session (Unit {0})
    change_identity new_uid new_gid new_gids = do
      system_call (kernel.setgid new_gid)
      system_call (kernel.setgroups new_gids)
      system_call (kernel.setegid new_gid)
      system_call (kernel.setresuid new_uid new_uid config.effective_uid)

    -- The process is looked at again, whatever the calls returned.
    verify_identity : Text → ℤ → ℤ → List ℤ → Exec Session (Unit {0})
    verify_identity user new_uid new_gid new_gids = do
      p ← gets (λ s. s.process)
      require (p.ruid == new_uid && p.euid == new_uid) (runtime_error (uid_not_set user new_uid))
      require (p.rgid == new_gid && p.egid == new_gid) (runtime_error (gid_not_set user new_gid))
      require (same_set p.groups new_gids) (runtime_error (groups_not_set user new_gids p.groups))

    -- Assigning `None` to `os.environ['HOME']` raises a `TypeError`.
    set_environment : Text → Option Text → Exec Session (Unit {0})
    set_environment user none s = (err type_error, s)
    set_environment user (some home) s = (
      ok tt,
      record s {
        process = record s.process { env_home = home; env_user = user; env_logname = user };
      },
    )

    -- What follows the system calls.
    finish_switch : Text → ℤ → ℤ → List ℤ → Exec Session Bool
    finish_switch user new_uid new_gid new_gids = do
      verify_identity user new_uid new_gid new_gids
      home ← cached (get_home_4user os user)
      set_environment user home
      pure true

    pub switch_to : Text → Text → List Text → Exec Session Bool
    switch_to user primary requested_groups = do
      new_uid ← cached (get_uid_4user os user)
      require (not (new_uid == minus_one)) (runtime_error (unknown_user user))
      require (not (new_uid == pos 0)) (runtime_error (root_requested user))
      chosen ← cached (choose_groups user primary requested_groups)
      change_identity new_uid chosen.0 chosen.1
      finish_switch user new_uid chosen.0 chosen.1

    pub become_user : Text → List Text → Exec Session Bool
    become_user user requested_groups =
        if not config.switch_uid
        then if config.effective_uid == pos 0
          then throw (runtime_error root_without_switching)
          else pure true
        else elim requested_groups [
          | [] ↦ throw index_error
          | primary ∷ rest ↦ switch_to user primary (primary ∷ rest)
        ]

    -- The uids first: the later calls need the privileges that they bring back.
    restore_calls : Exec Session (Unit {0})
    restore_calls = do
      system_call (kernel.setresuid config.effective_uid config.effective_uid config.effective_uid)
      system_call (kernel.setgid config.effective_gid)
      system_call (kernel.setgroups (config.effective_gid ∷ []))
      system_call (kernel.setegid config.effective_gid)
      λ s. (
        ok tt,
        record s {
          process = record s.process {
            env_home = txt "/tmp";
            env_user = txt "nobody";
            env_logname = txt "nobody";
          };
        },
      )

    pub restore_id : Exec Session (Unit {0})
    restore_id = if config.switch_uid then restore_calls else pure tt
