-- ===== src/Bss/Tests.antt =====
-- Jobs and children, run.
use tsi.Base.{
  ◌≡◌, refl, Option, none, some, List, [], ◌∷◌, ◌++◌, true, text_beq, text_eq, int_eq, contains,
  ◌==◌, if◌then◌else◌,
}
use tsi.Base.Int.{ℤ, pos}
use tsi.Base.Dict.{lookup}
use tsi.Base.Exec.{ok}
use tsi.Base.Text.{Text, txt, newline, starts_with}
use tsi.Base.Format.{terminated_lines, replace}
use tsi.Utils.{extract_parameter, expand_variables}
use tsi.Bss.{Waited, ended, running, Info, cleanup, collect_states}
use tsi.Bss.Children.{cleanup-running}
use tsi.Bss.Listing.{known_rank, highest, collect_states-highest}
use tsi.Bss.States.{torque_status}
use tsi.Bss.Submit.{
  Node, Site, reply, write_file, required, lifted, run, report_id, report_submission, launch,
  submit_commands, submit_mode, submit,
}
use tsi.Bss.Replies.{Replied, submit-Replied}

abbrev waitpid : ℤ → Waited
waitpid pid = if pid == pos 2 then running else ended

cleanup-running_example : contains (cleanup waitpid (pos 1 ∷ pos 2 ∷ pos 3 ∷ [])) (pos 2) ≡ true
unfolding contains
cleanup-running_example = cleanup-running waitpid (pos 1 ∷ pos 2 ∷ pos 3 ∷ []) (pos 2) refl refl

abbrev lines : List (Option Info)
lines =
    some (record { bssid = txt "1"; state = txt "Q"; queue_name = txt "q" })
    ∷ none
    ∷ some (record { bssid = txt "1"; state = txt "R"; queue_name = txt "q" })
    ∷ []

collect_states-highest_example :
    known_rank (lookup (txt "1") (collect_states torque_status lines []))
    ≡ highest torque_status (txt "1") lines
collect_states-highest_example = collect_states-highest torque_status (txt "1") lines

abbrev site : Site
site = record {
  environment = record { home = txt "/"; logname = txt "a"; user = txt "a" };
  submit_cmd = txt "b";
  create_submit_script = λ _. ok [];
  create_alloc_script = λ _. none;
  read_file = λ _. none;
  run_command = λ _. (true, txt "7");
  submit_id = txt "1";
  extract_job_id = λ out. some out;
}

abbrev message : Text
message = txt "#TSI_USPACE_DIR /u" ++ newline ∷ []

abbrev node : Node
node = record {
  connector = record { control_in = []; control_out = [] };
  files = [];
  commands_run = [];
}

abbrev submitted : Node
submitted = (submit site message node).1

submit-Replied_example : Replied node.connector submitted.connector
unfolding submit submit_mode submit_commands launch write_file run report_submission report_id reply
    required lifted extract_parameter expand_variables replace starts_with terminated_lines text_beq
submit-Replied_example = submit-Replied site message node submitted refl
