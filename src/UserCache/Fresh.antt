-- ===== src/UserCache/Fresh.antt =====
-- A user whose entry is in its time: the calls about the user read the entry and change nothing.
use tsi.Base.{◌≡◌, refl, ◌∙◌, ℕ, ◌+◌, ◌≤◌, false, some, arith}
use tsi.Base.Int.{ℤ}
use tsi.Base.Exec.{ok}
use tsi.Base.Text.{Text}
use tsi.UserCache.{
  UserCache, Os, seconds, get, expired, prepare_users, refresh_user, prepare_groups,
  update_group_info, get_gid_4user, get_gids_4user, get_gid_4group, id_or_minus_one, gids_or_empty,
}
use tsi.UserCache.Entries.{SameUser, prepare_groups-SameUser, gid_4group-state}

pub record Fresh (os : Os) (user : Text) (c : UserCache) : Type 0 where
  pub ttl : ℕ
  pub stamp : ℕ
  pub ttl_set : c.cache_ttl ≡ seconds ttl
  pub stamped : get user c.users_timestamps ≡ some stamp
  pub fits : os.now ≤ stamp + ttl

module _ {os : Os} {user : Text} {c : UserCache} (f : Fresh os user c) where
  expired-fresh : expired c os (get user c.users_timestamps) ≡ ok false
  unfolding expired
  expired-fresh = rw f.stamped (ground (arith, f.ttl_set, f.fits))

  pub prepare_users-fresh : prepare_users os user c ≡ (ok tt, c)
  unfolding prepare_users
  prepare_users-fresh = rw expired-fresh (unfold refresh_user in refl)

  pub gid_4user-fresh : get_gid_4user os user c ≡ (ok (id_or_minus_one (get user c.gids)), c)
  unfolding get_gid_4user
  gid_4user-fresh = rw prepare_users-fresh

  pub gids_4user-fresh : get_gids_4user os user c ≡ (ok (gids_or_empty (get user c.all_groups)), c)
  unfolding get_gids_4user
  gids_4user-fresh = rw prepare_users-fresh

  -- A group lookup does not raise and keeps the user fresh.
  prepare_groups-ok : (group : Text) → (prepare_groups os group c).0 ≡ ok tt
  unfolding prepare_groups expired
  prepare_groups-ok group = ground (arith, f.ttl_set)

  prepare_groups-ttl : (group : Text) → (prepare_groups os group c).1.cache_ttl ≡ c.cache_ttl
  unfolding prepare_groups update_group_info
  prepare_groups-ttl group = ground arith

  prepare_groups-Fresh : (group : Text) → Fresh os user (prepare_groups os group c).1
  prepare_groups-Fresh group = record {
    ttl = f.ttl;
    stamp = f.stamp;
    ttl_set = prepare_groups-ttl group ∙ f.ttl_set;
    stamped = (prepare_groups-SameUser os group user c).timestamp ∙ f.stamped;
    fits = f.fits;
  }

  pub gid_4group-ok : (group : Text) → (x : ℤ) × ((get_gid_4group os group c).0 ≡ ok x)
  unfolding get_gid_4group
  gid_4group-ok group = (
    id_or_minus_one (get group (prepare_groups os group c).1.groups),
    rw (prepare_groups-ok group),
  )

  pub gid_4group-Fresh : (group : Text) → Fresh os user (get_gid_4group os group c).1
  gid_4group-Fresh group = rw gid_4group-state (prepare_groups-Fresh group)

pub gid_4group-SameUser :
    (os : Os) (group user : Text) (c : UserCache) → SameUser user c (get_gid_4group os group c).1
gid_4group-SameUser os group user c = rw gid_4group-state (prepare_groups-SameUser os group user c)
