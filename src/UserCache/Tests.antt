-- ===== src/UserCache/Tests.antt =====
-- The cache, run on a small system.
use tsi.Base.{◌≡◌, ◌⊎◌, refl, none, [], ◌∷◌, false, text_beq, int_eq, Any}
use tsi.Base.Int.{pos, minus_one}
use tsi.Base.Dict.{lookup, insert}
use tsi.Base.Exec.{ok}
use tsi.Base.Text.{txt}
use tsi.UserCache.{
  UserCache, textual, empty_cache, get, expired, get_gids_4user_via_getgrall, get_gids_4user_nc,
  update_user_info, prepare_users, get_gids_4user, get_uid_4user, listed_gids, forget_user,
  store_user, store_passwd, store_groups, refresh_user,
}
use tsi.UserCache.Entries.{SameUser, prepare_users-SameUser}
use tsi.UserCache.Backing.{start, gid_4group, home_4user}
use tsi.UserCache.Staleness.{Recent, get_uid_4user-staleness, get_gids_4user-staleness}
use tsi.UserCache.TextualTtl.{Raises, perform_all, get_uid_4user-textual_ttl}
use tsi.World.{alice, world, cache}

get_uid_4user-staleness_example :
    ((world.getpwnam alice ≡ none) × (pos 7 ≡ minus_one))
    ⊎ Any (Recent 60 world alice (λ past p. pos 7 ≡ p.uid)) (world ∷ [])
unfolding get_uid_4user get_gids_4user prepare_users expired get lookup update_user_info text_beq
    get_gids_4user_nc insert get_gids_4user_via_getgrall listed_gids forget_user store_user
    store_passwd store_groups refresh_user
get_uid_4user-staleness_example =
    get_uid_4user-staleness {ttl = 60} {use_id = false} start world alice (pos 7) refl

get_gids_4user-staleness_example :
    ((world.getpwnam alice ≡ none) × ((pos 9 ∷ []) ≡ []))
    ⊎ Any
        (Recent 60 world alice
          (λ past p. get_gids_4user_nc past false alice p.gid ≡ ok (pos 9 ∷ [])))
        (world ∷ [])
unfolding get_uid_4user get_gids_4user prepare_users expired get lookup update_user_info text_beq
    get_gids_4user_nc insert get_gids_4user_via_getgrall listed_gids forget_user store_user
    store_passwd store_groups refresh_user
get_gids_4user-staleness_example =
    get_gids_4user-staleness {ttl = 60} {use_id = false} start world alice (pos 9 ∷ []) refl

prepare_users-SameUser_example : SameUser [] cache (prepare_users world alice cache).1
unfolding text_beq
prepare_users-SameUser_example = prepare_users-SameUser world alice [] cache (λ e. cc)

abbrev textual_cache : UserCache
textual_cache = empty_cache (textual (txt "600")) false

get_uid_4user-textual_ttl_example : Raises world alice (
    perform_all
      ((world, gid_4group (txt "s")) ∷ (world, home_4user alice) ∷ [])
      (get_uid_4user world alice textual_cache).1)
unfolding get_uid_4user get_gids_4user prepare_users expired get lookup update_user_info text_beq
    get_gids_4user_nc insert get_gids_4user_via_getgrall listed_gids forget_user store_user
    store_passwd store_groups refresh_user
get_uid_4user-textual_ttl_example =
    get_uid_4user-textual_ttl (txt "600") world world alice textual_cache (pos 7)
      ((world, gid_4group (txt "s")) ∷ (world, home_4user alice) ∷ []) refl refl (λ e. cc)
