-- ===== src/Bss/Nobatch.antt =====
-- lib/BSS.py: the batch system that starts jobs as processes of its own.
use tsi.Base.{◌*◌, ◌/◌, suc, Option, none, some, [], ◌∷◌, ◌++◌, ◌==◌, text_eq, if◌then◌else◌}
use tsi.Base.Int.{ℤ, pos}
use tsi.Base.Exec.{Result, ok, err, type_error}
use tsi.Base.Text.{Text, txt}
use tsi.Base.Format.{show_nat, show_option}
use tsi.Connector.{Connector, reply_ok}
use tsi.Utils.{expand_variables, extract_parameter, extract_number}
use tsi.Bss.{Status, suspended, is_running}
use tsi.Bss.Control.{Answer, returned, Login, Host, start, redirected}

-- The limit on the time: `0.01 * req_time` seconds are added before the process is killed.
unfoldable pub timeout_command : ℤ → Text
timeout_command (pos (suc n)) =
    txt "timeout -k " ++ (show_nat (suc n / 100) ++ (b' ' ∷ show_nat (suc n)))
timeout_command _ = []

-- Megabytes, in kilobytes.
unfoldable pub memory_limit : ℤ → Text
memory_limit (pos (suc n)) = txt "ulimit -v " ++ (show_nat (1024 * suc n) ++ txt ";")
memory_limit _ = []

module _ (host : Host) (float_value : Text → Option ℤ) where
  abbrev command : Text → Text → Text → Text
  command message file_name outcome_dir =
      redirected
        (memory_limit (extract_number float_value message (txt "MEMORY"))
          ++ (txt " ionice -c 3 nice -n 100 "
              ++ (timeout_command (extract_number float_value message (txt "TIME"))
                  ++ (txt " ./" ++ file_name))))
        outcome_dir (extract_parameter message (txt "STDOUT") none)
        (extract_parameter message (txt "STDERR") none)

  unfoldable pub submit_in : Text → Option Text → Option Text → Login → Result (Unit {0}) × Login
  unfolding timeout_command memory_limit start redirected
  submit_in message (some uspace_dir) (some outcome_dir) s =
      let file_name = txt "UNICORE_Job_" ++ host.submit_id in
      (
        ok tt,
        start host outcome_dir file_name message (command message file_name outcome_dir)
            host.submit_id s,
      )
  submit_in message _ _ s = (err type_error, s)

  unfoldable pub submit : Text → Login → Result (Unit {0}) × Login
  unfolding submit_in
  submit original s =
      let message = expand_variables host.environment original in
      submit_in message (extract_parameter message (txt "USPACE_DIR") none)
        (extract_parameter message (txt "OUTCOME_DIR") none) s

unfoldable pub convert_status : Text → Status
convert_status bss_state = if bss_state == txt "T" then suspended else is_running

unfoldable pub get_job_details : Text → Connector → Answer
unfolding returned
get_job_details msg c =
    let bssid = show_option (extract_parameter msg (txt "BSSID") none) in
    returned (reply_ok (some (txt "No info available for job " ++ (bssid ++ txt " \n"))) c)

-- hold_job and resume_job
unfoldable pub nothing_to_do : Connector → Answer
unfolding returned
nothing_to_do c = returned (reply_ok (some (txt "\n")) c)
