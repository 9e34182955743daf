-- ===== src/Worker/Table.antt =====
-- lib/TSI.py, init_functions: the functions behind the names of the table.
use tsi.Base.{Option, none, some, List, Bool, ◌==◌, text_eq, if◌then◌else◌}
use tsi.Base.Int.{ℤ}
use tsi.Base.Dict.{Dict}
use tsi.Base.Exec.{ok, Exec}
use tsi.Base.Text.{Text, txt}
use tsi.Connector.{Connector}
use tsi.Utils.{Environment}
use tsi.UserCache.{Os}
use tsi.Io.Space.{df}
use tsi.Bss.{Status, Info, get_status_listing, get_process_listing}
use tsi.Bss.Control.{
  Answer, Commands, get_job_details, abort_job, hold_job, resume_job, get_budget, reservation,
}
use tsi.Bss.Partitions.{Partition, get_partitions}
use tsi.Worker.{State, send}
use tsi.Worker.Functions.{ping, ping_uid, execute_script}
use tsi.Worker.UserInfo.{Account, get_user_info}

-- The site: what the functions take from the configuration and from the machine.
pub record Machine : Type 0 where
  pub os : Os
  pub version : Text
  pub effective_uid : Option ℤ
  pub account : Account
  pub run_script : Text → Bool → Bool × Text
  pub environment : Environment
  pub convert_status : Text → Status
  pub extract_lines : Text → List (Option Info)
  pub qstat_cmd : Text
  pub get_processes_cmd : Text
  pub jobs : Commands
  pub dumps : Dict Text Partition → Text
  pub get_partitions_cmd : Text

-- A function that reads nothing but its message and writes to the channel.
abbrev pub on_channel : (Connector → Connector) → Exec State (Unit {0})
on_channel f s = (ok tt, send f s)

abbrev pub on_answer : (Connector → Answer) → Exec State (Unit {0})
on_answer f s = let r = f s.connector in (r.0, record s { connector = r.1 })

-- An entry of the table.
abbrev pub Function : Type 0
Function = Text → Exec State (Unit {0})

-- The entries for the functions that answer and touch nothing else. `none` stands for the other entries, which move
-- files, start jobs or change access lists, and for a name that is no key.
module _ (m : Machine) where
  unfoldable pub job_function : Text → Option Function
  job_function command =
      if command == txt "TSI_GETJOBDETAILS"
      then some (λ msg. on_answer (get_job_details m.jobs msg))
      else if command == txt "TSI_ABORTJOB"
      then some (λ msg. on_answer (abort_job m.jobs msg))
      else if command == txt "TSI_HOLDJOB"
      then some (λ msg. on_answer (hold_job m.jobs msg))
      else if command == txt "TSI_RESUMEJOB"
      then some (λ msg. on_answer (resume_job m.jobs msg))
      else none

  unfoldable pub site_function : Text → Option Function
  unfolding job_function
  site_function command =
      if command == txt "TSI_GETSTATUSLISTING"
      then some (λ msg.
        on_channel
          (get_status_listing m.jobs.run_command m.convert_status m.extract_lines m.qstat_cmd))
      else if command == txt "TSI_GETPROCESSLISTING"
      then some (λ msg. on_channel (get_process_listing m.jobs.run_command m.get_processes_cmd msg))
      else if command == txt "TSI_GET_PARTITIONS"
      then some (λ msg. on_answer (get_partitions m.dumps m.jobs.run_command m.get_partitions_cmd))
      else if command == txt "TSI_GET_COMPUTE_BUDGET"
      then some (λ msg. on_answer get_budget)
      else if command == txt "TSI_MAKE_RESERVATION"
      then some (λ msg. on_answer reservation)
      else if command == txt "TSI_QUERY_RESERVATION"
      then some (λ msg. on_answer reservation)
      else if command == txt "TSI_CANCEL_RESERVATION"
      then some (λ msg. on_answer reservation)
      else job_function command

  unfoldable pub function : Text → Option Function
  unfolding site_function
  function command =
      if command == txt "TSI_PING"
      then some (λ msg. on_channel (ping m.version))
      else if command == txt "TSI_PING_UID"
      then some (λ msg. on_channel (ping_uid m.version m.effective_uid))
      else if command == txt "TSI_GET_USER_INFO"
      then some (get_user_info m.os m.account)
      else if command == txt "TSI_EXECUTESCRIPT"
      then some (λ msg. on_channel (execute_script m.run_script msg))
      else if command == txt "TSI_DF"
      then some (λ msg. on_answer (df m.environment m.jobs.run_command msg))
      else site_function command
