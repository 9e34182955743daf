-- ===== src/BecomeUser/Tests.antt =====
-- The switch of identity, run on a small system.
use tsi.Base.{◌≡◌, ◌⊎◌, refl, arith, List, [], ◌∷◌, true, contains, text_beq, int_eq, All}
use tsi.Base.Int.{ℤ, pos, int_beq_iff}
use tsi.Base.Dict.{lookup, insert}
use tsi.Base.Exec.{ok}
use tsi.Base.Text.{txt}
use tsi.UserCache.{
  UserCache, get, expired, get_gids_4user_via_getgrall, get_gids_4user_nc, update_group_info,
  update_user_info, prepare_users, prepare_groups, get_gids_4user, get_gid_4group, get_gid_4user,
  get_uid_4user, get_home_4user,
}
use tsi.UserCache.Fresh.{Fresh}
use tsi.BecomeUser.{
  Session, add_gids, true_keys, check_membership, known_group, member_group, get_primary_group,
  add_named, add_requested, add_all, get_supplementary_groups, all_in, same_set, require,
  choose_groups, change_identity, verify_identity, set_environment, finish_switch, switch_to,
  become_user, restore_id,
}
use tsi.BecomeUser.Identity.{Switched, become_user-Switched}
use tsi.BecomeUser.Membership.{get_supplementary_groups-members}
use tsi.BecomeUser.Lenient.{get_supplementary_groups-lenient}
use tsi.BecomeUser.Restore.{restore_id-become_user}
use tsi.BecomeUser.Posix.{IsPosix, server_process}
use tsi.World.{alice, staff, world, cache, config, lenient, session, kernel}

abbrev after : Session
after = (become_user world config kernel alice (staff ∷ []) session).1

become_user-Switched_example : Switched world config alice staff [] session after
unfolding get_uid_4user prepare_users expired get lookup update_user_info text_beq get_gids_4user_nc
    insert get_gids_4user_via_getgrall get_gid_4user get_gids_4user get_home_4user get_gid_4group
    prepare_groups update_group_info contains get_supplementary_groups add_all add_requested
    add_named check_membership add_gids true_keys become_user switch_to require choose_groups
    get_primary_group known_group member_group change_identity finish_switch verify_identity
    same_set all_in set_environment
become_user-Switched_example =
    become_user-Switched world config kernel alice staff [] session after true refl refl

-- A cache that has just taken up the user.
abbrev warm : UserCache
warm = (get_uid_4user world alice cache).1

warm-Fresh : Fresh world alice warm
unfolding get_uid_4user prepare_users expired get lookup update_user_info text_beq get_gids_4user_nc
    insert get_gids_4user_via_getgrall get_gid_4user get_gids_4user get_home_4user get_gid_4group
    prepare_groups update_group_info contains
warm-Fresh = record { ttl = 60; stamp = 100; ttl_set = refl; stamped = refl; fits = omega arith }

get_supplementary_groups-members_example :
    All (λ g. (g ≡ pos 9) ⊎ (g ≡ pos 9) ⊎ (contains (pos 9 ∷ []) g ≡ true)) (pos 9 ∷ [])
unfolding get_uid_4user prepare_users expired get lookup update_user_info text_beq get_gids_4user_nc
    insert get_gids_4user_via_getgrall get_gid_4user get_gids_4user get_home_4user get_gid_4group
    prepare_groups update_group_info contains get_supplementary_groups add_all add_requested
    add_named check_membership add_gids true_keys
get_supplementary_groups-members_example =
    get_supplementary_groups-members world config alice warm (pos 9) (staff ∷ []) (pos 9 ∷ []) refl
      refl warm-Fresh refl

get_supplementary_groups-lenient_example :
    (gids : List ℤ) × ((get_supplementary_groups world lenient (txt "w" ∷ []) (pos 9) alice warm).0
      ≡ ok gids)
    × (contains gids (pos 5) ≡ true)
unfolding get_uid_4user prepare_users expired get lookup update_user_info text_beq get_gids_4user_nc
    insert get_gids_4user_via_getgrall get_gid_4user get_gids_4user get_home_4user get_gid_4group
    prepare_groups update_group_info contains get_supplementary_groups add_all add_requested
    add_named check_membership add_gids true_keys
get_supplementary_groups-lenient_example =
    get_supplementary_groups-lenient world lenient alice (txt "w") [] (pos 9) (pos 5) warm refl
      warm-Fresh refl refl (λ e. cc)

kernel-IsPosix : IsPosix kernel
kernel-IsPosix = record {
  setgid_keeps = λ g p q h. ground arith;
  setegid_keeps = λ g p q h. ground arith;
  setgroups_keeps = λ gs p q h. ground arith;
  setresuid_saves = λ r e s p q valid h. ground arith;
  setgid = λ g p valid root. ground (arith, int_beq_iff p.euid (pos 0));
  setegid = λ g p valid root. ground (arith, int_beq_iff p.euid (pos 0));
  setgroups = λ g p valid root. ground (arith, int_beq_iff p.euid (pos 0));
  setresuid = λ z p valid root. ground (arith, int_beq_iff p.euid (pos 0));
  setresuid_saved =
      λ z p valid saved. ground (arith, int_beq_iff p.euid (pos 0), int_beq_iff p.suid z);
}

restore_id-become_user_example :
    restore_id world config kernel (become_user world config kernel alice (staff ∷ []) session).1
    ≡ (ok tt, record after { process = server_process config })
restore_id-become_user_example =
    restore_id-become_user world config kernel alice (staff ∷ []) (λ s. s) session kernel-IsPosix
      refl refl (0, refl, omega arith) refl (λ t. refl) (λ t. refl)
