-- ===== src/UserCache/Staleness.antt =====
-- How old an answer of the cache can be, and what it is when the user is unknown.
use tsi.Base.{◌≡◌, refl, subst, [], ℕ, ◌+◌, ◌≤◌, ◌⊎◌, inl, inr, Bool, true, false}
use tsi.Base.{List, ◌∷◌, Option, none, some, arith, Any, Any-map}
use tsi.Base.Int.{ℤ, minus_one}
use tsi.Base.Exec.{Result, ok, err}
use tsi.Base.Text.{Text}
use tsi.UserCache.{
  UserCache, Os, Passwd, seconds, get, expired, update_user_info, forget_user, store_groups,
  store_user, prepare_users, refresh_user, get_gids_4user_nc, get_uid_4user, get_gids_4user,
  gids_or_empty, id_or_minus_one,
}
use tsi.UserCache.Entries.{get-insert_self, getter-ok}
use tsi.UserCache.Backing.{IsBacked, prepare_users-IsBacked, Reach, Reach-IsBacked}

-- After a preparation that did not raise, the user is unknown now, or the entry is in its time.
data Prepared (ttl : ℕ) (os : Os) (user : Text) (c : UserCache) : Type 0 where
  unknown :
      os.getpwnam user ≡ none
      → get user c.uids ≡ none
      → get user c.all_groups ≡ none
      → Prepared ttl os user c
  timely :
      (t : ℕ) → get user c.users_timestamps ≡ some t → os.now ≤ t + ttl → Prepared ttl os user c

module _ (ttl : ℕ) (os : Os) (user : Text) where
  store_groups-Prepared :
      (r : Result (List ℤ)) (c : UserCache)
      → (store_groups user r os.now c).0 ≡ ok tt
      → Prepared ttl os user (store_groups user r os.now c).1
  unfolding store_groups
  store_groups-Prepared (err e) c h = cc
  store_groups-Prepared (ok gs) c h =
      timely os.now (get-insert_self user (some os.now) c.users_timestamps) (omega arith)

  store_user-Prepared :
      (found : Option Passwd) (c : UserCache)
      → os.getpwnam user ≡ found
      → get user c.uids ≡ none
      → get user c.all_groups ≡ none
      → (store_user os user found c).0 ≡ ok tt
      → Prepared ttl os user (store_user os user found c).1
  unfolding store_user
  store_user-Prepared none c known no_uid no_groups h = unknown known no_uid no_groups
  store_user-Prepared (some p) c known no_uid no_groups h = store_groups-Prepared _ _ h

  update_user_info-Prepared :
      (c : UserCache)
      → (update_user_info os user c).0 ≡ ok tt
      → Prepared ttl os user (update_user_info os user c).1
  unfolding update_user_info forget_user
  update_user_info-Prepared c =
      store_user-Prepared (os.getpwnam user) _ refl (get-insert_self user none c.uids)
        (get-insert_self user none c.all_groups)

  expired-false :
      (c : UserCache) (o : Option ℕ)
      → c.cache_ttl ≡ seconds ttl
      → expired c os o ≡ ok false
      → (t : ℕ) × (o ≡ some t) × (os.now ≤ t + ttl)
  unfolding expired
  expired-false c none set h = absurd (cc)
  expired-false c (some t) set h = (t, refl, ground arith)

  refresh_user-Prepared :
      (c : UserCache) (r : Result Bool)
      → c.cache_ttl ≡ seconds ttl
      → expired c os (get user c.users_timestamps) ≡ r
      → (refresh_user os user r c).0 ≡ ok tt
      → Prepared ttl os user (refresh_user os user r c).1
  unfolding refresh_user
  refresh_user-Prepared c (ok true) set e h = update_user_info-Prepared c h
  refresh_user-Prepared c (ok false) set e h =
      let (t, found, timely_t) = expired-false c _ set e in timely t found timely_t
  refresh_user-Prepared c (err x) set e h = cc

  prepare_users-Prepared :
      (c : UserCache)
      → c.cache_ttl ≡ seconds ttl
      → (prepare_users os user c).0 ≡ ok tt
      → Prepared ttl os user (prepare_users os user c).1
  unfolding prepare_users
  prepare_users-Prepared c set h = refresh_user-Prepared c _ set refl h

-- A former answer of the system that is at most `ttl` seconds old.
abbrev pub Recent : ℕ → Os → Text → (Os → Passwd → Type 0) → Os → Type 0
Recent ttl os user P past =
    (os.now ≤ past.now + ttl) × ((p : Passwd) × (past.getpwnam user ≡ some p) × P past p)

module _ (ttl : ℕ) (use_id : Bool) (os : Os) (h : List Os) (user : Text) (d : UserCache) where
  uid-Prepared :
      IsBacked ttl use_id h d
      → Prepared ttl os user d
      → ((os.getpwnam user ≡ none) × (id_or_minus_one (get user d.uids) ≡ minus_one))
        ⊎ Any (Recent ttl os user (λ past p. id_or_minus_one (get user d.uids) ≡ p.uid)) h
  uid-Prepared b (unknown u no_uid no_groups) = inl (u, rw no_uid)
  uid-Prepared b (timely t e fits) = inr (
      Any-map _ _ h (λ past q. (omega (arith, q.0), (q.1.entry, q.1.known, rw q.1.held_uid)))
        (b.entries user t e))

  gids-Prepared :
      IsBacked ttl use_id h d
      → Prepared ttl os user d
      → ((os.getpwnam user ≡ none) × (gids_or_empty (get user d.all_groups) ≡ []))
        ⊎ Any
            (Recent ttl os user (λ past p.
              get_gids_4user_nc past use_id user p.gid
              ≡ ok (gids_or_empty (get user d.all_groups))))
            h
  gids-Prepared b (unknown u no_uid no_groups) = inl (u, rw no_groups)
  gids-Prepared b (timely t e fits) = inr (
      Any-map _ _ h
        (λ past q. (omega (arith, q.0), (q.1.entry, q.1.known, rw q.1.held_gids q.1.resolved)))
        (b.entries user t e))

module _ {ttl : ℕ} {use_id : Bool} {h : List Os} {c : UserCache} (r : Reach ttl use_id h c)
    (os : Os) (user : Text) where
  -- Whatever calls were made before, a uid that is returned is -1 for a user whom the system does
  -- not know at this moment, or the uid that the system gave in a call, this one or an earlier one, whose
  -- clock is at most `ttl` behind.
  pub get_uid_4user-staleness :
      (u : ℤ)
      → (get_uid_4user os user c).0 ≡ ok u
      → ((os.getpwnam user ≡ none) × (u ≡ minus_one))
        ⊎ Any (Recent ttl os user (λ past p. u ≡ p.uid)) (os ∷ h)
  unfolding get_uid_4user
  get_uid_4user-staleness u e =
      let (done, value) =
        getter-ok (prepare_users os user c).0 (λ d. id_or_minus_one (get user d.uids)) _ u e in
      subst
        (λ (v : ℤ).
          ((os.getpwnam user ≡ none) × (v ≡ minus_one))
          ⊎ Any (Recent ttl os user (λ past p. v ≡ p.uid)) (os ∷ h))
        value
        (uid-Prepared ttl use_id os (os ∷ h) user _
          (prepare_users-IsBacked ttl use_id os h user c (Reach-IsBacked r))
          (prepare_users-Prepared ttl os user c (Reach-IsBacked r).ttl_set done))

  -- Whatever calls were made before, the gids that are returned are none for a user whom the system
  -- does not know at this moment, or what resolving the groups of the user gave with the answers of a
  -- call, this one or an earlier one, whose clock is at most `ttl` behind.
  pub get_gids_4user-staleness :
      (gs : List ℤ)
      → (get_gids_4user os user c).0 ≡ ok gs
      → ((os.getpwnam user ≡ none) × (gs ≡ []))
        ⊎ Any
            (Recent ttl os user (λ past p. get_gids_4user_nc past use_id user p.gid ≡ ok gs))
            (os ∷ h)
  unfolding get_gids_4user
  get_gids_4user-staleness gs e =
      let (done, value) =
        getter-ok (prepare_users os user c).0 (λ d. gids_or_empty (get user d.all_groups)) _ gs e in
      subst
        (λ (v : List ℤ).
          ((os.getpwnam user ≡ none) × (v ≡ []))
          ⊎ Any (Recent ttl os user (λ past p. get_gids_4user_nc past use_id user p.gid ≡ ok v))
              (os ∷ h))
        value
        (gids-Prepared ttl use_id os (os ∷ h) user _
          (prepare_users-IsBacked ttl use_id os h user c (Reach-IsBacked r))
          (prepare_users-Prepared ttl os user c (Reach-IsBacked r).ttl_set done))
