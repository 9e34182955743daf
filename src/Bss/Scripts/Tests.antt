-- ===== src/Bss/Scripts/Tests.antt =====
-- Runs of the scripts, of the details and of the control of jobs.
use tsi.Base.{
  ◌≡◌, refl, ℕ, ◌≤◌, Option, none, some, List, [], ◌∷◌, ◌++◌, Bool, true, false, ◌==◌, text_eq,
  nat_eq, if◌then◌else◌, Any, arith, text_beq,
}
use tsi.Base.Exec.{Result, ok, err}
use tsi.Base.Text.{Text, txt, starts_with, parse_int, strip}
use tsi.Base.Format.{show_nat, replace}
use tsi.Utils.{extract_parameter}
use tsi.Bss.Scripts.{Site, fitting_job_name}
use tsi.Bss.Slurm.{parse_common_options, extract_info}
use tsi.Bss.Columns.{torque_info, nobatch_info}
use tsi.Bss.Torque.{merge_lines}
use tsi.Bss.JobNames.{Fits, fitting_job_name-Fits}
use tsi.Bss.Lsf.{create_submit_script}
use tsi.Bss.Times.{Minutes, create_submit_script-no_time, parse_common_options-Minutes}
use tsi.Bss.Details.{merge_lines-continued}

abbrev small_site : Site
small_site = record { default_job_name = txt "job"; nodes_filter = []; float_value = parse_int }

abbrev slurm_message : Text
slurm_message = txt "#TSI_JOBNAME a; rm x\n#TSI_TIME 150\n#TSI_QUEUE batch\n"

slurm_options :
    parse_common_options small_site slurm_message
    ≡ txt "--job-name=UNICORE_job" ∷ txt "--partition=batch" ∷ txt "--time=2" ∷ []
unfolding parse_common_options extract_parameter text_beq tsi.Base.Format.lower
    tsi.Utils.extract_number parse_int show_nat
slurm_options = refl

parse_common_options-Minutes_example :
    (m : ℕ) × Any
      (λ line. line ≡ txt "--time=" ++ show_nat m)
      (parse_common_options small_site slurm_message)
    × Minutes 150 m
unfolding tsi.Utils.extract_number parse_int
parse_common_options-Minutes_example =
    parse_common_options-Minutes small_site slurm_message 150 refl (omega arith)

fitting_job_name-Fits_example : Fits (fitting_job_name (txt "7 days and a night"))
fitting_job_name-Fits_example = fitting_job_name-Fits (txt "7 days and a night")

merge_lines-continued_example :
    merge_lines [] false
      (txt "A = x" ∷ txt "\ty" ∷ (txt "\tz" ∷ []) ++ txt "B = u" ∷ txt "\tv" ∷ [])
    ≡ txt "A = x" ∷ txt "A = xyz" ∷ txt "B = u" ∷ merge_lines [] false (txt "\tv" ∷ [])
unfolding starts_with strip
merge_lines-continued_example =
    merge_lines-continued [] (txt "A = x") (txt "\ty") (txt "\tz" ∷ []) (txt "B = u")
      (txt "\tv" ∷ []) refl refl (refl, tt) refl

torque_line :
    torque_info (txt "17.host jdoe batch New 16522 1 -- 1000mb 00:00 C 00:00")
    ≡ some (record { bssid = txt "17"; state = txt "C"; queue_name = txt "batch" })
unfolding torque_info tsi.Base.Text.lstrip tsi.Base.Text.is_digit
torque_line = refl

torque_line_finished :
    torque_info (txt "17.host jdoe batch New 16522 1 -- 1000mb 00:00 F 00:00") ≡ none
unfolding torque_info tsi.Base.Text.lstrip tsi.Base.Text.is_digit
torque_line_finished = refl

nobatch_line :
    nobatch_info (txt "S nice -n 100 ./UNICORE_Job_4711 > out")
    ≡ some (record { bssid = txt "4711"; state = txt "S"; queue_name = txt "NOBATCH" })
unfolding nobatch_info tsi.Base.Lines.is_name starts_with tsi.Base.Text.is_digit
nobatch_line = refl

slurm_line :
    extract_info (txt "177070_0 RUNNING large")
    ≡ some (record { bssid = txt "177070"; state = txt "RUNNING"; queue_name = txt "large" })
unfolding extract_info tsi.Base.Text.is_digit tsi.Base.Text.is_space tsi.Base.Lines.is_name
slurm_line = refl

abbrev script_of : Result (List Text) → List Text
script_of (ok script) = script
script_of (err e) = []

abbrev untimed_message : Text
untimed_message = txt "#TSI_JOBNAME a\n"

create_submit_script-no_time_example :
    Any
      (λ line. line ≡ txt "#BSUB -W 0")
      (script_of (create_submit_script small_site (some (txt "1")) untimed_message))
unfolding create_submit_script extract_parameter tsi.Utils.extract_number parse_int
create_submit_script-no_time_example =
    create_submit_script-no_time small_site (some (txt "1")) untimed_message
      (script_of (create_submit_script small_site (some (txt "1")) untimed_message)) refl refl
