-- ===== src/Worker/Serving.antt =====
-- The worker of lib/TSI.py with the functions of its table.
use tsi.Base.{
  ◌≡◌, refl, sym, subst, Option, none, some, Bool, true, false, ◌==◌, text_eq, if◌then◌else◌,
}
use tsi.Base.Exec.{ok}
use tsi.Base.Text.{Text, txt}
use tsi.Connector.{Connector, failed, reply_ok, write_message, read_message}
use tsi.Utils.{extract_parameter}
use tsi.UserCache.{Os}
use tsi.BecomeUser.{Kernel}
use tsi.Io.Space.{df}
use tsi.Bss.{get_status_listing}
use tsi.Bss.Control.{
  get_job_details, abort_job, hold_job, resume_job, returned, get_budget, reservation,
}
use tsi.Worker.{State, Services, Settings, commands, find_command, find_identity, next_request}
use tsi.Worker.Functions.{ping, ping_uid, execute_script}
use tsi.Worker.UserInfo.{get_user_info}
use tsi.Worker.Ending.{KeepsInput, next_request-KeepsInput}
use tsi.Worker.Table.{
  Machine, Function, on_channel, on_answer, job_function, site_function, function,
}
use tsi.Worker.Quiet.{
  Silent, on_channel-KeepsInput, on_answer-KeepsInput, reply-input, run_and_report-Silent,
  process_listing-Silent, run_with-Quiet, details-Quiet, partitions-Quiet, df-Quiet,
  user_info-KeepsInput,
}

-- What an entry of the table may do: it reads nothing from the control channel.
abbrev Keeps : Option Function → Type 0
Keeps none = Unit
Keeps (some f) = (msg : Text) → KeepsInput (f msg)

Keeps-if :
    (b : Bool) (f : Function) (rest : Option Function)
    → ((msg : Text) → KeepsInput (f msg))
    → Keeps rest
    → Keeps (if b then some f else rest)
Keeps-if true f rest x y = x
Keeps-if false f rest x y = y

module _ (m : Machine) where
  job-Keeps : (command : Text) → Keeps (job_function m command)
  unfolding job_function get_job_details abort_job hold_job resume_job returned
  job-Keeps command =
      let id = λ (msg : Text). extract_parameter msg (txt "BSSID") none in
      Keeps-if (command == txt "TSI_GETJOBDETAILS") _ _
        (λ msg. on_answer-KeepsInput (get_job_details m.jobs msg) (details-Quiet m.jobs (id msg)))
        (Keeps-if (command == txt "TSI_ABORTJOB") _ _
          (λ msg.
            on_answer-KeepsInput (abort_job m.jobs msg)
              (λ c. run_and_report-Silent m.jobs.run_command _ c))
          (Keeps-if (command == txt "TSI_HOLDJOB") _ _
            (λ msg.
              on_answer-KeepsInput (hold_job m.jobs msg)
                (run_with-Quiet m.jobs m.jobs.hold_cmd (id msg)))
            (Keeps-if (command == txt "TSI_RESUMEJOB") _ _
              (λ msg.
                on_answer-KeepsInput (resume_job m.jobs msg)
                  (run_with-Quiet m.jobs m.jobs.resume_cmd (id msg)))
              tt)))

  status_listing-Silent :
      Silent (get_status_listing m.jobs.run_command m.convert_status m.extract_lines m.qstat_cmd)
  unfolding get_status_listing
  status_listing-Silent c = reply-input (m.jobs.run_command m.qstat_cmd).0 _ _ c

  reservation-KeepsInput : KeepsInput (on_answer reservation)
  unfolding reservation returned failed write_message
  reservation-KeepsInput = record { at = λ s. refl }

  budget-KeepsInput : KeepsInput (on_answer get_budget)
  unfolding get_budget returned reply_ok write_message
  budget-KeepsInput = record { at = λ s. refl }

  site-Keeps : (command : Text) → Keeps (site_function m command)
  unfolding site_function
  site-Keeps command =
      Keeps-if (command == txt "TSI_GETSTATUSLISTING") _ _
        (λ msg. on_channel-KeepsInput _ status_listing-Silent)
        (Keeps-if (command == txt "TSI_GETPROCESSLISTING") _ _
          (λ msg.
            on_channel-KeepsInput _
              (process_listing-Silent m.jobs.run_command m.get_processes_cmd msg))
          (Keeps-if (command == txt "TSI_GET_PARTITIONS") _ _
            (λ msg.
              on_answer-KeepsInput _
                (partitions-Quiet m.dumps m.jobs.run_command m.get_partitions_cmd))
            (Keeps-if (command == txt "TSI_GET_COMPUTE_BUDGET") _ _ (λ msg. budget-KeepsInput)
              (Keeps-if (command == txt "TSI_MAKE_RESERVATION") _ _ (λ msg. reservation-KeepsInput)
                (Keeps-if (command == txt "TSI_QUERY_RESERVATION") _ _
                  (λ msg. reservation-KeepsInput)
                  (Keeps-if (command == txt "TSI_CANCEL_RESERVATION") _ _
                    (λ msg. reservation-KeepsInput) (job-Keeps command)))))))

  ping-KeepsInput : KeepsInput (on_channel (ping m.version))
  unfolding ping reply_ok write_message
  ping-KeepsInput = record { at = λ s. refl }

  ping_uid-KeepsInput : KeepsInput (on_channel (ping_uid m.version m.effective_uid))
  unfolding ping_uid reply_ok write_message
  ping_uid-KeepsInput = record { at = λ s. refl }

  script-Silent : (msg : Text) → Silent (execute_script m.run_script msg)
  unfolding execute_script
  script-Silent msg c = reply-input (m.run_script msg _).0 _ _ c

  function-Keeps : (command : Text) → Keeps (function m command)
  unfolding function get_user_info df
  function-Keeps command =
      Keeps-if (command == txt "TSI_PING") _ _ (λ msg. ping-KeepsInput)
        (Keeps-if (command == txt "TSI_PING_UID") _ _ (λ msg. ping_uid-KeepsInput)
          (Keeps-if (command == txt "TSI_GET_USER_INFO") _ _
            (λ msg. user_info-KeepsInput m.os m.account (find_identity msg))
            (Keeps-if (command == txt "TSI_EXECUTESCRIPT") _ _
              (λ msg. on_channel-KeepsInput _ (script-Silent msg))
              (Keeps-if (command == txt "TSI_DF") _ _
                (λ msg. on_answer-KeepsInput _ (
                  df-Quiet m.environment m.jobs.run_command
                    (extract_parameter msg (txt "FILE") none)))
                (site-Keeps command)))))

  function-KeepsInput :
      (command : Text) (f : Function)
      → function m command ≡ some f
      → (msg : Text) → KeepsInput (f msg)
  function-KeepsInput command f e = subst Keeps e (function-Keeps command)

-- A request for one of the functions that only answer (ping, information on the user, scripts, free space, listings,
-- partitions, budget, reservations, and the details, end, hold and release of a job): after the whole round,
-- with the switch of identity, the function, an exception of either, the way back and the reply, the control channel
-- holds what followed the message, so that the next message is read from its start. Sessions of users are taken
-- to read nothing from the channel.
pub next_request-function :
    (os : Os) (kernel : Kernel) (settings : Settings) (services : Services) (m : Machine)
    (command msg : Text) (f : Function) (c : Connector) (s : State)
    → read_message s.connector ≡ (ok msg, c)
    → find_command commands msg ≡ some command
    → function m command ≡ some f
    → ((t : Text) → services.function command t ≡ f t)
    → ((user : Text) → KeepsInput (services.open_session user))
    → (next_request os kernel settings services s).1.connector.control_in ≡ c.control_in
next_request-function os kernel settings services m command msg f c s got found entry table
      sessions =
    next_request-KeepsInput os kernel settings services command msg c s got found
      (λ t. subst KeepsInput (sym (table t)) (function-KeepsInput m command f entry t)) sessions
