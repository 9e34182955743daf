-- ===== src/Acl/Tests.antt =====
-- Runs of lib/ACL.py at concrete requests.
use tsi.Base.{
  ◌≡◌, refl, ℕ, ◌≤◌, ◌⊎◌, Option, none, some, [], ◌∷◌, ◌++◌, true, text_eq, if◌then◌else◌, Any,
  length,
}
use tsi.Base.Exec.{err, type_error}
use tsi.Base.Text.{Text, txt, starts_with}
use tsi.Connector.{failed}
use tsi.Utils.{extract_parameter}
use tsi.Acl.{Session, Site, size, check_support, process_acl}
use tsi.Acl.Commands.{Warranted, process_acl-Warranted}
use tsi.Acl.Support.{AtMost, check_support-longest}

abbrev prefix_size : Text → Text → Option ℕ
prefix_size key path = if starts_with path key then some (length key) else none

abbrev two_mounts : Site
two_mounts = record {
  acl = (txt "/", txt "NONE") ∷ (txt "/home", txt "POSIX") ∷ [];
  match_size = prefix_size;
  getfacl = txt "getfacl";
  setfacl = txt "setfacl";
  run_command = λ cmd. (true, []);
}

abbrev nothing_done : Session
nothing_done = record {
  connector = record { control_in = []; control_out = [] };
  commands_run = [];
}

check_support-longest_example :
    Any
      (λ e.
        (e.1 ≡ check_support two_mounts (txt "/home/mary"))
        × (1 ≤ size two_mounts (txt "/home/mary") e.0)
        × AtMost two_mounts
            (txt "/home/mary")
            (size two_mounts (txt "/home/mary") e.0)
            two_mounts.acl)
      two_mounts.acl
    ⊎ ((check_support two_mounts (txt "/home/mary") ≡ txt "NONE")
        × AtMost two_mounts (txt "/home/mary") 0 two_mounts.acl)
check_support-longest_example = check_support-longest two_mounts (txt "/home/mary")

abbrev change_message : Text
change_message =
    txt "#TSI_ACL_OPERATION SETFACL\n#TSI_ACL_PATH /home/mary\n#TSI_ACL_COMMAND_SPEC U bob rwx\n"

-- The missing command is reported, and the function goes on.
change_without_command : process_acl two_mounts change_message nothing_done ≡ (
  err type_error,
  record nothing_done {
    connector = failed (some (txt "Missing parameter TSI_ACL_COMMAND")) nothing_done.connector;
  },
)
unfolding extract_parameter check_support process_acl tsi.Base.text_beq tsi.Base.Format.show_option
change_without_command = refl

process_acl-Warranted_example :
    ((process_acl two_mounts change_message nothing_done).1.commands_run ≡ [])
    ⊎ (Warranted two_mounts change_message
        × ((cmd : Text) × ((process_acl two_mounts change_message nothing_done).1.commands_run
              ≡ [] ++ cmd ∷ [])))
process_acl-Warranted_example = process_acl-Warranted two_mounts change_message nothing_done
