-- ===== src/UserCache/Backing.antt =====
-- Every entry of the cache is an answer that the system gave. A history lists what the system answered at each earlier
-- call, the latest first.
use tsi.Base.{◌≡◌, refl, sym, subst, ◌∙◌, ℕ, inl, inr, Bool, true, false, Bool-cases}
use tsi.Base.{List, [], ◌∷◌, Option, none, some, arith, Any, Any-map}
use tsi.Base.{text_beq, text_beq_iff}
use tsi.Base.Int.{ℤ}
use tsi.Base.Exec.{Result, ok, err}
use tsi.Base.Dict.{lookup}
use tsi.Base.Text.{Text}
use tsi.UserCache.{
  UserCache, Os, Passwd, seconds, empty_cache, get, update_user_info, forget_user, store_passwd,
  store_groups, store_user, prepare_users, refresh_user, prepare_groups, update_group_info,
  get_gids_4user_nc, get_uid_4user, get_gid_4user, get_gids_4user, get_home_4user, get_gid_4group,
}
use tsi.UserCache.Entries.{
  SameUser, prepare_users-SameUser, prepare_groups-SameUser, get-insert_self, uid_4user-state,
  gid_4user-state, gids_4user-state, home_4user-state, gid_4group-state,
}

-- What the cache holds of the user is what the system answered in `past`.
pub record Backs (use_id : Bool) (user : Text) (c : UserCache) (past : Os) : Type 0 where
  pub entry : Passwd
  pub gids : List ℤ
  pub known : past.getpwnam user ≡ some entry
  pub resolved : get_gids_4user_nc past use_id user entry.gid ≡ ok gids
  pub held_uid : get user c.uids ≡ some entry.uid
  pub held_gid : get user c.gids ≡ some entry.gid
  pub held_home : get user c.homes ≡ some entry.home
  pub held_gids : get user c.all_groups ≡ some gids

abbrev pub BackedAt : Bool → List Os → Text → UserCache → ℕ → Type 0
BackedAt use_id h user c t = Any (λ past. (past.now ≡ t) × Backs use_id user c past) h

abbrev pub EntryBacked : Bool → List Os → UserCache → Text → Type 0
EntryBacked use_id h c user =
    (t : ℕ) → get user c.users_timestamps ≡ some t → BackedAt use_id h user c t

module _ (use_id : Bool) {user : Text} {c d : UserCache} (same : SameUser user c d) where
  Backs-same : (past : Os) → Backs use_id user c past → Backs use_id user d past
  Backs-same past b = record {
    entry = b.entry;
    gids = b.gids;
    known = b.known;
    resolved = b.resolved;
    held_uid = same.uid ∙ b.held_uid;
    held_gid = same.gid ∙ b.held_gid;
    held_home = same.home ∙ b.held_home;
    held_gids = same.gids ∙ b.held_gids;
  }

  EntryBacked-same : (h : List Os) → EntryBacked use_id h c user → EntryBacked use_id h d user
  EntryBacked-same h b t e =
      Any-map _ _ h (λ past p. (p.0, Backs-same past p.1)) (b t (sym same.timestamp ∙ e))

module _ (os : Os) (h : List Os) (user : Text) where
  -- An entry whose timestamp is cleared backs nothing.
  EntryBacked-cleared :
      (use_id : Bool) (c : UserCache)
      → get user c.users_timestamps ≡ none
      → EntryBacked use_id h c user
  EntryBacked-cleared use_id c e t e' = cc

  store_groups-EntryBacked :
      (use_id : Bool) (p : Passwd) (r : Result (List ℤ)) (c : UserCache)
      → os.getpwnam user ≡ some p
      → get_gids_4user_nc os use_id user p.gid ≡ r
      → get user c.users_timestamps ≡ none
      → EntryBacked use_id (os ∷ h) (store_groups user r os.now (store_passwd user p c)).1 user
  unfolding store_groups store_passwd
  store_groups-EntryBacked use_id p (err x) c known resolved cleared t e = cc
  store_groups-EntryBacked use_id p (ok gs) c known resolved cleared t e = inl (
    cc (get-insert_self user (some os.now) c.users_timestamps),
    record {
      entry = p;
      gids = gs;
      known = known;
      resolved = resolved;
      held_uid = get-insert_self user (some p.uid) c.uids;
      held_gid = get-insert_self user (some p.gid) c.gids;
      held_home = get-insert_self user (some p.home) c.homes;
      held_gids = get-insert_self user (some gs) c.all_groups;
    },
  )

  store_user-EntryBacked :
      (found : Option Passwd) (c : UserCache)
      → os.getpwnam user ≡ found
      → get user c.users_timestamps ≡ none
      → EntryBacked c.use_id_to_resolve_groups (os ∷ h) (store_user os user found c).1 user
  unfolding store_user
  store_user-EntryBacked none c known cleared = λ t e. cc
  store_user-EntryBacked (some p) c known cleared =
      store_groups-EntryBacked c.use_id_to_resolve_groups p _ c known refl cleared

  update_user_info-EntryBacked :
      (c : UserCache)
      → EntryBacked c.use_id_to_resolve_groups (os ∷ h) (update_user_info os user c).1 user
  unfolding update_user_info forget_user
  update_user_info-EntryBacked c =
      store_user-EntryBacked (os.getpwnam user) _ refl
        (get-insert_self user none c.users_timestamps)

module _ (use_id : Bool) (os : Os) (h : List Os) where
  -- One more snapshot in the history takes nothing away.
  EntryBacked-later :
      {c : UserCache} {user : Text}
      → EntryBacked use_id h c user
      → EntryBacked use_id (os ∷ h) c user
  EntryBacked-later b t e = inr (b t e)

  refresh_user-EntryBacked :
      (user : Text) (r : Result Bool) (c : UserCache)
      → c.use_id_to_resolve_groups ≡ use_id
      → EntryBacked use_id h c user
      → EntryBacked use_id (os ∷ h) (refresh_user os user r c).1 user
  unfolding refresh_user
  refresh_user-EntryBacked user (ok true) c set b =
      subst (λ u. EntryBacked u (os ∷ h) (update_user_info os user c).1 user) set
        (update_user_info-EntryBacked os h user c)
  refresh_user-EntryBacked user (ok false) c set b = λ t e. inr (b t e)
  refresh_user-EntryBacked user (err e) c set b = λ t e'. inr (b t e')

-- The settings, and every entry backed by an answer of the history.
pub record IsBacked (ttl : ℕ) (use_id : Bool) (h : List Os) (c : UserCache) : Type 0 where
  pub ttl_set : c.cache_ttl ≡ seconds ttl
  pub use_id_set : c.use_id_to_resolve_groups ≡ use_id
  pub entries : (user : Text) → EntryBacked use_id h c user

abbrev pub SameSettings : UserCache → UserCache → Type 0
SameSettings c d =
    (d.cache_ttl ≡ c.cache_ttl) × (d.use_id_to_resolve_groups ≡ c.use_id_to_resolve_groups)

store_user-SameSettings :
    (os : Os) (user : Text) (found : Option Passwd) (c : UserCache)
    → SameSettings c (store_user os user found c).1
unfolding store_user store_groups
store_user-SameSettings os user none c = (refl, refl)
store_user-SameSettings os user (some p) c = (ground arith, ground arith)

pub prepare_users-SameSettings :
    (os : Os) (user : Text) (c : UserCache) → SameSettings c (prepare_users os user c).1
unfolding prepare_users refresh_user update_user_info
prepare_users-SameSettings os user c =
    ground (arith, store_user-SameSettings os user (os.getpwnam user) (forget_user user c))

pub prepare_users-IsBacked :
    (ttl : ℕ) (use_id : Bool) (os : Os) (h : List Os) (user : Text) (c : UserCache)
    → IsBacked ttl use_id h c
    → IsBacked ttl use_id (os ∷ h) (prepare_users os user c).1
prepare_users-IsBacked ttl use_id os h user c b = record {
  ttl_set = (prepare_users-SameSettings os user c).0 ∙ b.ttl_set;
  use_id_set = (prepare_users-SameSettings os user c).1 ∙ b.use_id_set;
  entries = λ other. elim (Bool-cases (text_beq user other)) [
    | inl same ↦
        subst (EntryBacked use_id (os ∷ h) (prepare_users os user c).1)
          ((text_beq_iff user other).0 same)
          (unfold prepare_users in
            refresh_user-EntryBacked use_id os h user _ c b.use_id_set (b.entries user))
    | inr differs ↦ λ t e. inr (
        EntryBacked-same use_id
          (prepare_users-SameUser os user other c (ground (arith, text_beq_iff user other))) h
          (b.entries other) t e)
  ];
}

prepare_groups-IsBacked :
    (ttl : ℕ) (use_id : Bool) (os : Os) (h : List Os) (group : Text) (c : UserCache)
    → IsBacked ttl use_id h c
    → IsBacked ttl use_id (os ∷ h) (prepare_groups os group c).1
prepare_groups-IsBacked ttl use_id os h group c b = record {
  ttl_set = unfold prepare_groups update_group_info in ground arith;
  use_id_set = unfold prepare_groups update_group_info in ground arith;
  entries = λ user t e.
      inr
        (EntryBacked-same use_id (prepare_groups-SameUser os group user c) h (b.entries user) t e);
}

-- The calls that the rest of the server makes.
pub data Call : Type 0 where
  uid_4user gid_4user gids_4user home_4user gid_4group : Text → Call

unfoldable pub perform : Os → Call → UserCache → UserCache
perform os (uid_4user user) c = (get_uid_4user os user c).1
perform os (gid_4user user) c = (get_gid_4user os user c).1
perform os (gids_4user user) c = (get_gids_4user os user c).1
perform os (home_4user user) c = (get_home_4user os user c).1
perform os (gid_4group group) c = (get_gid_4group os group c).1

-- The caches that calls lead to, with the answers of the system on the way.
pub data Reach (ttl : ℕ) (use_id : Bool) : List Os → UserCache → Type 0 where
  start : Reach ttl use_id [] (empty_cache (seconds ttl) use_id)
  call :
      {h : List Os} {c : UserCache} (os : Os) (k : Call)
      → Reach ttl use_id h c
      → Reach ttl use_id (os ∷ h) (perform os k c)

perform-IsBacked :
    (ttl : ℕ) (use_id : Bool) (os : Os) (h : List Os) (k : Call) (c : UserCache)
    → IsBacked ttl use_id h c
    → IsBacked ttl use_id (os ∷ h) (perform os k c)
unfolding perform
perform-IsBacked ttl use_id os h (uid_4user user) c b =
    rw uid_4user-state (prepare_users-IsBacked ttl use_id os h user c b)
perform-IsBacked ttl use_id os h (gid_4user user) c b =
    rw gid_4user-state (prepare_users-IsBacked ttl use_id os h user c b)
perform-IsBacked ttl use_id os h (gids_4user user) c b =
    rw gids_4user-state (prepare_users-IsBacked ttl use_id os h user c b)
perform-IsBacked ttl use_id os h (home_4user user) c b =
    rw home_4user-state (prepare_users-IsBacked ttl use_id os h user c b)
perform-IsBacked ttl use_id os h (gid_4group group) c b =
    rw gid_4group-state (prepare_groups-IsBacked ttl use_id os h group c b)

pub Reach-IsBacked :
    {ttl : ℕ} {use_id : Bool} {h : List Os} {c : UserCache}
    → Reach ttl use_id h c
    → IsBacked ttl use_id h c
Reach-IsBacked start = record {
  ttl_set = refl;
  use_id_set = refl;
  entries = λ user t e. unfold get lookup in cc e;
}
Reach-IsBacked {ttl} {use_id} (call {h = h} {c = c} os k r) =
    perform-IsBacked ttl use_id os h k c (Reach-IsBacked r)
