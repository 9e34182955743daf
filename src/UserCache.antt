-- ===== src/UserCache.antt =====
-- lib/UserCache.py: what the server knows of users and groups, kept for `cache_ttl` seconds.
pub mod Entries
mod Backing
pub mod Staleness
pub mod TextualTtl
pub mod Fresh
mod Tests
use tsi.Base.{
  ℕ, ◌+◌, ◌++◌, Option, none, some, Bool, true, false, List, [], ◌∷◌, ltb, if◌then◌else◌,
}
use tsi.Base.{◌==◌, contains, text_eq, int_eq}
use tsi.Base.Int.{ℤ, minus_one}
use tsi.Base.Dict.{Dict, lookup, insert}
use tsi.Base.Exec.{Error, Result, ok, err, Exec, pure, gets, ◌>>=◌, ◌>>◌}
use tsi.Base.Exec.{value_error, type_error}
use tsi.Base.Text.{Text, txt, split, parse_int}

pub record Passwd : Type 0 where
  pub uid : ℤ
  pub gid : ℤ
  pub home : Text

pub record Group : Type 0 where
  pub gid : ℤ
  pub members : List Text

-- What the operating system answers: the clock, the `pwd` and `grp` databases (`none` is the
-- `KeyError`), and `Utils.run_command` as its success flag and output. One value stands for the
-- answers during one call.
pub record Os : Type 0 where
  pub now : ℕ
  pub getpwnam : Text → Option Passwd
  pub getgrnam : Text → Option ℤ
  pub getgrall : List Group
  pub run_command : Text → Bool × Text

-- A number if it is the default; a value from the configuration file stays a text.
pub data Ttl : Type 0 where
  seconds : ℕ → Ttl
  textual : Text → Ttl

pub record UserCache : Type 0 where
  pub cache_ttl : Ttl
  pub all_groups : Dict Text (Option (List ℤ))
  pub uids : Dict Text (Option ℤ)
  pub gids : Dict Text (Option ℤ)
  pub homes : Dict Text (Option Text)
  pub groups : Dict Text (Option ℤ)
  pub users_timestamps : Dict Text (Option ℕ)
  pub groups_timestamps : Dict Text (Option ℕ)
  pub use_id_to_resolve_groups : Bool

abbrev pub empty_cache : Ttl → Bool → UserCache
empty_cache ttl use_id = record {
  cache_ttl = ttl;
  all_groups = [];
  uids = [];
  gids = [];
  homes = [];
  groups = [];
  users_timestamps = [];
  groups_timestamps = [];
  use_id_to_resolve_groups = use_id;
}

-- `d.get(k)`: a missing key and a stored `None` give the same.
unfoldable pub get {ℓ} : {V : Type ℓ} → Text → Dict Text (Option V) → Option V
get k d = elim (lookup k d) [ none ↦ none | some v ↦ v ]

-- `timestamp + ttl` raises if the ttl is a text.
unfoldable pub expired : UserCache → Os → Option ℕ → Result Bool
expired c os none = ok true
expired c os (some t) = elim c.cache_ttl [
  | seconds n ↦ ok (ltb (t + n) os.now)
  | textual _ ↦ err type_error
]

listed_gids : Text → List Group → List ℤ
listed_gids user [] = []
listed_gids user (g ∷ gs) =
    let rest = listed_gids user gs in if contains g.members user then g.gid ∷ rest else rest

unfoldable pub get_gids_4user_via_getgrall : Os → Text → ℤ → List ℤ
unfolding listed_gids
get_gids_4user_via_getgrall os user gid = listed_gids user os.getgrall ++ gid ∷ []

-- `[int(g) for g in pieces]`
parse_gids : List Text → Result (List ℤ)
parse_gids [] = ok []
parse_gids (p ∷ ps) = elim (parse_int p) [
  | none ↦ err value_error
  | some g ↦ elim (parse_gids ps) [ ok gs ↦ ok (g ∷ gs) | err e ↦ err e ]
]

with_primary : ℤ → List ℤ → List ℤ
with_primary gid gids = if contains gids gid then gids else gids ++ gid ∷ []

unfoldable pub get_gids_4user_via_id : Os → Text → ℤ → Result (List ℤ)
unfolding parse_gids with_primary
get_gids_4user_via_id os user gid =
    let (success, out) = os.run_command (txt "id -G " ++ user) in
    if success
    then elim (parse_gids (split b' ' out)) [ ok gs ↦ ok (with_primary gid gs) | err e ↦ err e ]
    else ok []

unfoldable pub get_gids_4user_nc : Os → Bool → Text → ℤ → Result (List ℤ)
get_gids_4user_nc os use_id user gid =
    if use_id
    then get_gids_4user_via_id os user gid
    else ok (get_gids_4user_via_getgrall os user gid)

unfoldable pub update_group_info : Os → Text → UserCache → UserCache
update_group_info os group c =
    let cleared = record c {
      groups = insert group none c.groups;
      groups_timestamps = insert group none c.groups_timestamps;
    } in
    elim (os.getgrnam group) [
      | none ↦ cleared
      | some g ↦ record cleared {
        groups = insert group (some g) cleared.groups;
        groups_timestamps = insert group (some os.now) cleared.groups_timestamps;
      }
    ]

-- The assignments before the lookup in the password database.
forget_user : Text → UserCache → UserCache
forget_user user c = record c {
  uids = insert user none c.uids;
  gids = insert user none c.gids;
  homes = insert user none c.homes;
  all_groups = insert user none c.all_groups;
  users_timestamps = insert user none c.users_timestamps;
}

-- The assignments up to the one that resolves the groups, which may raise.
store_passwd : Text → Passwd → UserCache → UserCache
store_passwd user p c = record c {
  uids = insert user (some p.uid) c.uids;
  gids = insert user (some p.gid) c.gids;
  homes = insert user (some p.home) c.homes;
}

store_groups : Text → Result (List ℤ) → ℕ → Exec UserCache (Unit {0})
store_groups user (err e) now c = (err e, c)
store_groups user (ok gs) now c = (
  ok tt,
  record c {
    all_groups = insert user (some gs) c.all_groups;
    users_timestamps = insert user (some now) c.users_timestamps;
  },
)

store_user : Os → Text → Option Passwd → Exec UserCache (Unit {0})
unfolding store_passwd store_groups
store_user os user none c = (ok tt, c)
store_user os user (some p) c =
    store_groups user (get_gids_4user_nc os c.use_id_to_resolve_groups user p.gid) os.now
      (store_passwd user p c)

unfoldable pub update_user_info : Os → Text → Exec UserCache (Unit {0})
unfolding forget_user store_user
update_user_info os user c = store_user os user (os.getpwnam user) (forget_user user c)

refresh_user : Os → Text → Result Bool → Exec UserCache (Unit {0})
refresh_user os user (ok true) c = update_user_info os user c
refresh_user os user (ok false) c = (ok tt, c)
refresh_user os user (err e) c = (err e, c)

unfoldable pub prepare_users : Os → Text → Exec UserCache (Unit {0})
unfolding refresh_user
prepare_users os user c = refresh_user os user (expired c os (get user c.users_timestamps)) c

unfoldable pub prepare_groups : Os → Text → Exec UserCache (Unit {0})
prepare_groups os group c = elim (expired c os (get group c.groups_timestamps)) [
  | ok stale ↦ (ok tt, if stale then update_group_info os group c else c)
  | err e ↦ (err e, c)
]

abbrev pub id_or_minus_one : Option ℤ → ℤ
id_or_minus_one none = minus_one
id_or_minus_one (some n) = n

abbrev pub gids_or_empty : Option (List ℤ) → List ℤ
gids_or_empty none = []
gids_or_empty (some gs) = gs

unfoldable pub get_gids_4user : Os → Text → Exec UserCache (List ℤ)
get_gids_4user os user = do prepare_users os user; gets (λ c. gids_or_empty (get user c.all_groups))

unfoldable pub get_gid_4group : Os → Text → Exec UserCache ℤ
get_gid_4group os group = do
  prepare_groups os group
  gets (λ c. id_or_minus_one (get group c.groups))

unfoldable pub get_gid_4user : Os → Text → Exec UserCache ℤ
get_gid_4user os user = do prepare_users os user; gets (λ c. id_or_minus_one (get user c.gids))

unfoldable pub get_uid_4user : Os → Text → Exec UserCache ℤ
get_uid_4user os user = do prepare_users os user; gets (λ c. id_or_minus_one (get user c.uids))

unfoldable pub get_home_4user : Os → Text → Exec UserCache (Option Text)
get_home_4user os user = do prepare_users os user; gets (λ c. get user c.homes)
