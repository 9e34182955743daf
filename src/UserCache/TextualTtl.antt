-- ===== src/UserCache/TextualTtl.antt =====
-- A `tsi.userCacheTtl` from the configuration file is a text, and a timestamp cannot be added to it.
use tsi.Base.{
  ◌≡◌, ◌≢◌, sym, ◌∙◌, ℕ, Option, none, some, List, [], ◌∷◌, arith, refl, subst, inl, inr,
  Bool-cases, text_beq, text_beq_iff,
}
use tsi.Base.Int.{ℤ, minus_one}
use tsi.Base.Exec.{Result, ok, err, type_error}
use tsi.Base.Text.{Text}
use tsi.UserCache.{
  UserCache, Os, Passwd, textual, get, expired, update_user_info, forget_user, store_groups,
  store_user, prepare_users, refresh_user, get_uid_4user, id_or_minus_one, get_gid_4user,
  get_gids_4user, get_home_4user, prepare_groups, update_group_info,
}
use tsi.UserCache.Entries.{
  get-insert_self, uid_4user-ok, uid_4user-state, gid_4user-state, gids_4user-state,
  home_4user-state, gid_4group-state, prepare_users-SameUser, prepare_groups-SameUser,
}
use tsi.UserCache.Backing.{
  prepare_users-SameSettings, Call, uid_4user, gid_4user, gids_4user, home_4user, gid_4group,
  perform,
}

-- The user is not held, or has a timestamp.
data Stamped (user : Text) (c : UserCache) : Type 0 where
  absent : get user c.uids ≡ none → Stamped user c
  stamped : (t : ℕ) → get user c.users_timestamps ≡ some t → Stamped user c

module _ (s : Text) (os : Os) (user : Text) where
  store_groups-Stamped :
      (r : Result (List ℤ)) (c : UserCache)
      → (store_groups user r os.now c).0 ≡ ok tt
      → Stamped user (store_groups user r os.now c).1
  unfolding store_groups
  store_groups-Stamped (err e) c h = cc
  store_groups-Stamped (ok gs) c h =
      stamped os.now (get-insert_self user (some os.now) c.users_timestamps)

  store_user-Stamped :
      (found : Option Passwd) (c : UserCache)
      → get user c.uids ≡ none
      → (store_user os user found c).0 ≡ ok tt
      → Stamped user (store_user os user found c).1
  unfolding store_user
  store_user-Stamped none c no_uid h = absent no_uid
  store_user-Stamped (some p) c no_uid h = store_groups-Stamped _ _ h

  refresh_user-Stamped :
      (o : Option ℕ) (c : UserCache)
      → c.cache_ttl ≡ textual s
      → (refresh_user os user (expired c os o) c).0 ≡ ok tt
      → Stamped user (refresh_user os user (expired c os o) c).1
  unfolding refresh_user expired update_user_info forget_user
  refresh_user-Stamped none c set h =
      store_user-Stamped (os.getpwnam user) _ (get-insert_self user none c.uids) h
  refresh_user-Stamped (some t) c set h = absurd (ground arith)

  prepare_users-Stamped :
      (c : UserCache)
      → c.cache_ttl ≡ textual s
      → (prepare_users os user c).0 ≡ ok tt
      → Stamped user (prepare_users os user c).1
  unfolding prepare_users
  prepare_users-Stamped c = refresh_user-Stamped (get user c.users_timestamps) c

Stamped-uid :
    (user : Text) (c : UserCache)
    → Stamped user c
    → id_or_minus_one (get user c.uids) ≢ minus_one
    → (t : ℕ) × (get user c.users_timestamps ≡ some t)
Stamped-uid user c (absent e) ne = absurd (ground arith)
Stamped-uid user c (stamped t e) ne = (t, e)

-- The four getters of a user raise a `TypeError`.
pub record Raises (os : Os) (user : Text) (c : UserCache) : Type 0 where
  pub uid : (get_uid_4user os user c).0 ≡ err type_error
  pub gid : (get_gid_4user os user c).0 ≡ err type_error
  pub gids : (get_gids_4user os user c).0 ≡ err type_error
  pub home : (get_home_4user os user c).0 ≡ err type_error

-- The time to live is a text, and the user has a timestamp.
abbrev Stuck : Text → UserCache → Type 0
Stuck user c =
    ((s : Text) × (c.cache_ttl ≡ textual s)) × ((t : ℕ) × (get user c.users_timestamps ≡ some t))

module _ (os : Os) (user : Text) where
  prepare_users-Stuck :
      (c : UserCache) → Stuck user c → prepare_users os user c ≡ (err type_error, c)
  unfolding prepare_users refresh_user expired
  prepare_users-Stuck c ((s, set), (t, e)) = ground arith

  Raises-of_Stuck : (c : UserCache) → Stuck user c → Raises os user c
  unfolding get_uid_4user get_gid_4user get_gids_4user get_home_4user
  Raises-of_Stuck c h =
      let e = prepare_users-Stuck c h in
      record { uid = rw e refl; gid = rw e refl; gids = rw e refl; home = rw e refl }

  prepared-Stuck :
      (other : Text) (c : UserCache) → Stuck user c → Stuck user (prepare_users os other c).1
  prepared-Stuck other c ((s, set), (t, e)) = elim (Bool-cases (text_beq other user)) [
    | inl same ↦
        subst (λ (o : Text). Stuck user (prepare_users os o c).1)
          (sym ((text_beq_iff other user).0 same))
          (rw (prepare_users-Stuck c ((s, set), (t, e))) ((s, set), (t, e)))
    | inr differs ↦ (
      (s, (prepare_users-SameSettings os other c).0 ∙ set),
      (
        t,
        (prepare_users-SameUser os other user c (ground (arith, text_beq_iff other user))).timestamp
            ∙ e,
      ),
    )
  ]

  groups-Stuck :
      (group : Text) (c : UserCache) → Stuck user c → Stuck user (prepare_groups os group c).1
  groups-Stuck group c ((s, set), (t, e)) = (
    (s, unfold prepare_groups update_group_info in ground arith),
    (t, (prepare_groups-SameUser os group user c).timestamp ∙ e),
  )

  perform-Stuck : (k : Call) (c : UserCache) → Stuck user c → Stuck user (perform os k c)
  unfolding perform
  perform-Stuck (uid_4user name) c h = rw uid_4user-state (prepared-Stuck name c h)
  perform-Stuck (gid_4user name) c h = rw gid_4user-state (prepared-Stuck name c h)
  perform-Stuck (gids_4user name) c h = rw gids_4user-state (prepared-Stuck name c h)
  perform-Stuck (home_4user name) c h = rw home_4user-state (prepared-Stuck name c h)
  perform-Stuck (gid_4group name) c h = rw gid_4group-state (groups-Stuck name c h)

-- Any calls, the first one first, each with what the system answers at its time.
unfoldable pub perform_all : List (Os × Call) → UserCache → UserCache
perform_all [] c = c
perform_all ((os, k) ∷ ks) c = perform_all ks (perform os k c)

perform_all-Stuck :
    (user : Text) (calls : List (Os × Call)) (c : UserCache)
    → Stuck user c
    → Stuck user (perform_all calls c)
unfolding perform_all
perform_all-Stuck user [] c h = h
perform_all-Stuck user ((os, k) ∷ ks) c h =
    perform_all-Stuck user ks (perform os k c) (perform-Stuck os user k c h)

-- With a time to live that is a text, once the cache has returned a uid other than -1 for a user, every later
-- request for the uid, the gid, the gids or the home of this user raises a `TypeError`, whatever calls are made in
-- between, for this user or for others, and whatever the system answers.
pub get_uid_4user-textual_ttl :
    (s : Text) (os later : Os) (user : Text) (c : UserCache) (u : ℤ) (calls : List (Os × Call))
    → c.cache_ttl ≡ textual s
    → (get_uid_4user os user c).0 ≡ ok u
    → u ≢ minus_one
    → Raises later user (perform_all calls (get_uid_4user os user c).1)
get_uid_4user-textual_ttl s os later user c u calls set e ne =
    let (done, value) = uid_4user-ok os user c u e in
    let found =
      Stamped-uid user _ (prepare_users-Stamped s os user c set done) (λ q. ne (sym value ∙ q)) in
    Raises-of_Stuck later user _ (
      perform_all-Stuck user calls _
        (rw uid_4user-state ((s, (prepare_users-SameSettings os user c).0 ∙ set), found)))
