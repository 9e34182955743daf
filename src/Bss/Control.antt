-- ===== src/Bss/Control.antt =====
-- lib/BSSCommon.py: control of jobs, details, budgets, scripts on the login node; lib/Quota.py and
-- lib/Reservation.py.
use tsi.Base.{Option, none, some, List, [], ◌∷◌, ◌++◌, Bool, true, false, text_eq, if◌then◌else◌}
use tsi.Base.Int.{ℤ}
use tsi.Base.Dict.{Dict, lookup, insert}
use tsi.Base.Exec.{Result, ok, err, type_error}
use tsi.Base.Text.{Text, txt, newline, is_digit, starts_with}
use tsi.Base.Format.{show_int, show_option, cut_at, replace}
use tsi.Base.Lines.{span}
use tsi.Connector.{Connector, failed, reply_ok}
use tsi.Utils.{Environment, expand_variables, extract_parameter}
use tsi.Bss.{run_and_report}
use tsi.Bss.Partitions.{words}

-- `\D*(\d+)\D*`, searched: the first run of digits.
unfoldable pub first_digits : Text → Option Text
unfolding span
first_digits [] = none
first_digits (c ∷ s) =
    let later = first_digits s in if is_digit c then some (c ∷ (span is_digit s).0) else later

-- slurm/BSS.py: `Submitted\D*(\d+)\D*`
unfoldable pub submitted_digits : Text → Option Text
unfolding first_digits
submitted_digits [] = none
submitted_digits (c ∷ s) =
    let later = submitted_digits s in
    if starts_with (c ∷ s) (txt "Submitted") then first_digits s else later

-- What `init` does with the default commands of a batch system.
unfoldable pub add_defaults : Dict Text Text → Dict Text Text → Dict Text Text
add_defaults [] config = config
add_defaults ((key, value) ∷ defs) config =
    add_defaults defs
      (elim (lookup key config) [ none ↦ insert key value config | some have ↦ config ])

-- A line `key=value` for each token; the others are passed over.
unfoldable pub add_token : Text → Dict Text Text → Dict Text Text
add_token t result = elim (cut_at b'=' t) [
  | none ↦ result
  | some (key, value) ↦ insert key value result
]

unfoldable pub add_tokens : List Text → Dict Text Text → Dict Text Text
unfolding add_token
add_tokens [] result = result
add_tokens (t ∷ tokens) result = add_tokens tokens (add_token t result)

unfoldable pub parse_job_details : Text → Dict Text Text
unfolding add_tokens words
parse_job_details raw_info = add_tokens (words raw_info) []

-- The batch system of the site: its commands, how it reads the details of a job, how these are written
-- out, and what a command gives.
pub record Commands : Type 0 where
  pub details_cmd : Text
  pub abort_cmd : Text
  pub hold_cmd : Text
  pub resume_cmd : Text
  pub parse_details : Text → Dict Text Text
  pub dumps : Dict Text Text → Text
  pub run_command : Text → Bool × Text

abbrev pub Answer : Type 0
Answer = Result (Unit {0}) × Connector

unfoldable pub returned : Connector → Answer
returned c = (ok tt, c)

module _ (cmds : Commands) where
  -- A text cannot be joined to `None`.
  unfoldable pub run_with : Text → Option Text → Connector → Answer
  unfolding returned
  run_with cmd none c = (err type_error, c)
  run_with cmd (some bssid) c = returned (run_and_report cmds.run_command (cmd ++ (b' ' ∷ bssid)) c)

  unfoldable pub report_details : Bool × Text → Connector → Connector
  report_details (true, output) c =
      reply_ok (some (cmds.dumps (cmds.parse_details output) ++ newline ∷ [])) c
  report_details (false, output) c = failed (some output) c

  unfoldable pub details_of : Option Text → Connector → Answer
  unfolding report_details returned
  details_of none c = (err type_error, c)
  details_of (some bssid) c =
      returned (report_details (cmds.run_command (cmds.details_cmd ++ (b' ' ∷ bssid))) c)

  unfoldable pub get_job_details : Text → Connector → Answer
  unfolding details_of
  get_job_details msg c = details_of (extract_parameter msg (txt "BSSID") none) c

  -- `abort_cmd % bssid`, for a command that has one `%s` and no other `%`
  unfoldable pub abort_job : Text → Connector → Answer
  unfolding returned
  abort_job msg c =
      let bssid = show_option (extract_parameter msg (txt "BSSID") none) in
      returned (run_and_report cmds.run_command (replace (txt "%s") bssid cmds.abort_cmd) c)

  unfoldable pub hold_job : Text → Connector → Answer
  unfolding run_with
  hold_job msg c = run_with cmds.hold_cmd (extract_parameter msg (txt "BSSID") none) c

  unfoldable pub resume_job : Text → Connector → Answer
  unfolding run_with
  resume_job msg c = run_with cmds.resume_cmd (extract_parameter msg (txt "BSSID") none) c

-- lib/Quota.py
abbrev pub get_quota : Text
get_quota = txt "USER -1"

unfoldable pub get_budget : Connector → Answer
unfolding returned
get_budget c = returned (reply_ok (some (get_quota ++ newline ∷ [])) c)

-- lib/Reservation.py: the three operations.
unfoldable pub reservation : Connector → Answer
unfolding returned
reservation c = returned (failed (some (txt "Reservation not supported!")) c)

-- The channel, the directories made, the files written, and the commands and children started.
pub record Login : Type 0 where
  pub connector : Connector
  pub directories : List Text
  pub files : List (Text × Text)
  pub started : List Text
  pub child_pids : List ℤ

-- `chdir` and `mkdir` are taken to succeed; `spawn` gives the id of the process of a command.
pub record Host : Type 0 where
  pub environment : Environment
  pub submit_id : Text
  pub exists : Text → Bool
  pub spawn : Text → ℤ

-- A process in the background, whose output goes to two files.
unfoldable pub redirected : Text → Text → Option Text → Option Text → Text
redirected cmd outcome_dir stdout stderr =
    cmd
    ++ (txt " > "
        ++ (outcome_dir
            ++ (b'/'
                ∷ (show_option stdout
                    ++ (txt " 2> " ++ (outcome_dir ++ (b'/' ∷ show_option stderr)))))))

unfoldable pub start : Host → Text → Text → Text → Text → Text → Login → Login
start host outcome_dir file_name content cmd job_id s = record {
  connector = reply_ok (some job_id) s.connector;
  directories =
      if host.exists outcome_dir then s.directories else s.directories ++ outcome_dir ∷ [];
  files = s.files ++ (file_name, content) ∷ [];
  started = s.started ++ cmd ∷ [];
  child_pids = s.child_pids ++ host.spawn cmd ∷ [];
}

unfoldable pub run_in : Host → Text → Option Text → Option Text → Login → Result (Unit {0}) × Login
unfolding start redirected
run_in host message (some uspace_dir) (some outcome_dir) s =
    let file_name = txt "UNICORE_Job_" ++ host.submit_id in
    let cmd =
      redirected (txt "./" ++ file_name) outcome_dir (extract_parameter message (txt "STDOUT") none)
        (extract_parameter message (txt "STDERR") none) in
    (ok tt, start host outcome_dir file_name message cmd (show_int (host.spawn cmd)) s)
run_in host message _ _ s = (err type_error, s)

-- A command in the background is always started, so that the report of a failure is never made.
unfoldable pub run_on_login_node : Host → Text → Login → Result (Unit {0}) × Login
unfolding run_in
run_on_login_node host original s =
    let message = expand_variables host.environment original in
    run_in host message (extract_parameter message (txt "USPACE_DIR") none)
      (extract_parameter message (txt "OUTCOME_DIR") none) s
