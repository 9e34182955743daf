-- ===== src/Bss/Lsf.antt =====
-- lsf/BSS.py: the setup, the script for submission, and the lines of a listing.
use tsi.Base.{
  zero, suc, ◌*◌, ◌/◌, Option, none, some, List, [], ◌∷◌, ◌++◌, Bool, true, false, text_eq, nat_eq,
  if◌then◌else◌, map, ◌&&◌,
}
use mathlib.Core.List.{reverse}
use tsi.Base.Int.{ℤ, pos, negsuc, is_positive}
use tsi.Base.Exec.{Result, ok, err, ◌>>=?◌, type_error, value_error, zero_division_error}
use tsi.Base.Text.{Text, txt, strip, starts_with, parse_int, is_space, is_digit}
use tsi.Base.Format.{show_int, show_option}
use tsi.Base.Lines.{splitlines, with_run, span, is_word, is_name}
use tsi.Utils.{extract_parameter}
use tsi.Bss.{Info, parse_status_listing}
use tsi.Bss.States.{lsf_status}
use tsi.Bss.Scripts.{Site, param, no_value, option_line, line_if, number, fitting_job_name}

-- `submit_cmd.strip().endswith("<")`
unfoldable pub submit_command : Text → Text
submit_command submit_cmd =
    if starts_with (reverse (strip submit_cmd)) (txt "<")
    then submit_cmd
    else submit_cmd ++ txt " <"

-- `int(n / 60)` cuts towards zero.
unfoldable pub minutes : ℤ → ℤ
minutes (pos n) = pos (n / 60)
minutes (negsuc n) = elim (suc n / 60) [ zero ↦ pos 0 | suc m ↦ negsuc m ]

-- `nodes * processors_per_node`, for positive numbers
unfoldable pub times : ℤ → ℤ → ℤ
times (pos a) (pos b) = pos (a * b)
times _ _ = pos 0

abbrev slots_line : ℤ → List Text
slots_line slots = line_if (is_positive slots) (txt "#BSUB -n " ++ show_int slots)

unfoldable pub slot_lines : ℤ → ℤ → ℤ → List Text
unfolding times
slot_lines total_processors nodes processors_per_node =
    if is_positive total_processors
    then slots_line total_processors
    else if is_positive nodes && is_positive processors_per_node
    then (txt "#BSUB -R \"span[ptile=" ++ (show_int processors_per_node ++ txt "]\""))
      ∷ slots_line (times nodes processors_per_node)
    else []

-- A text that is no number counts as none.
unfoldable pub gpu_line : Option ℤ → List Text
gpu_line none = []
gpu_line (some n) =
    line_if (is_positive n) (txt "#BSUB -gpu \"num=" ++ (show_int n ++ txt ":j_exclusive=yes\""))

-- The limit on the memory is computed and not used: only what this raises matters.
unfoldable pub factor : Option Text → Result ℤ
factor none = err type_error
factor (some s) = elim (parse_int s) [ none ↦ err value_error | some n ↦ ok n ]

unfoldable pub check_memory : ℤ → Option Text → Result ℤ
unfolding factor
check_memory (pos zero) conversion = err zero_division_error
check_memory processors_per_node conversion = factor conversion

abbrev umask_line : Text → Text
umask_line umask = txt "umask " ++ umask

unfoldable pub bracketed : ℤ → ℤ → Text
bracketed spec limit =
    txt "["
    ++ (show_int spec ++ (txt "]" ++ (if is_positive limit then b'%' ∷ show_int limit else [])))

abbrev name_lines : Bool → Text → Text → List Text
name_lines true job array =
    (txt "#BSUB -J \"" ++ (job ++ (array ++ txt "\"")))
    ∷ txt "UC_ARRAY_TASK_ID = \"$LSB_JOB_INDEX\"; export UC_ARRAY_TASK_ID"
    ∷ []
name_lines false job array = (txt "#BSUB -J " ++ job) ∷ []

module _ (site : Site) where
  -- What stands before the time.
  unfoldable pub resource_lines : Text → List Text
  unfolding slot_lines gpu_line param
  resource_lines message =
      option_line (txt "#BSUB -B -N -u ") (param message (txt "EMAIL") no_value)
      ++ (option_line (txt "#BSUB -q ") (param message (txt "QUEUE") no_value)
          ++ (option_line (txt "#BSUB -P ") (param message (txt "PROJECT") no_value)
              ++ (slot_lines (number site message (txt "TOTAL_PROCESSORS"))
                    (number site message (txt "NODES"))
                    (number site message (txt "PROCESSORS_PER_NODE"))
                  ++ gpu_line (parse_int (param message (txt "GPUS_PER_NODE") no_value)))))

  -- What stands after it.
  unfoldable pub file_lines : Text → List Text
  unfolding bracketed fitting_job_name param
  file_lines message =
      let outcome_dir = show_option (extract_parameter message (txt "OUTCOME_DIR") none) in
      let stderr = param message (txt "STDERR") (txt "stderr") in
      let stdout = param message (txt "STDOUT") (txt "stdout") in
      let array_spec = number site message (txt "ARRAY") in
      let is_array = is_positive array_spec in
      let suffix = if is_array then txt "%I" else [] in
      option_line (txt "#BSUB -U ") (param message (txt "RESERVATION_REFERENCE") no_value)
      ++ (name_lines is_array
            (fitting_job_name (param message (txt "JOBNAME") site.default_job_name))
            (bracketed array_spec (number site message (txt "ARRAY_LIMIT")))
          ++ ((txt "#BSUB -o " ++ (outcome_dir ++ (b'/' ∷ (stdout ++ suffix))))
              ∷ (txt "#BSUB -e " ++ (outcome_dir ++ (b'/' ∷ (stderr ++ suffix))))
              ∷ umask_line (param message (txt "UMASK") no_value)
              ∷ []))

  abbrev pub minutes_line : Text → Text
  minutes_line message = txt "#BSUB -W " ++ show_int (minutes (number site message (txt "TIME")))

  unfoldable pub create_submit_script : Option Text → Text → Result (List Text)
  unfolding resource_lines file_lines minutes check_memory
  create_submit_script conversion message =
      check_memory (number site message (txt "PROCESSORS_PER_NODE")) conversion >>=? λ unused.
      ok (resource_lines message ++ (minutes_line message ∷ file_lines message))

-- `^\s*(\d+)\s+\S+\s+(\w+)\s+(\w+)\.*`
unfoldable pub extract_info : Text → Option Info
unfolding with_run span
extract_info qstat_line = with_run is_digit (span is_space qstat_line).1 (λ bssid s1.
    with_run is_space s1 (λ space1 s2. with_run is_word s2 (λ user s3.
      with_run is_space s3 (λ space2 s4. with_run is_name s4 (λ state s5.
        with_run is_space s5 (λ space3 s6. with_run is_name s6 (λ queue_name s7.
          some (record { bssid = bssid; state = state; queue_name = queue_name }))))))))

unfoldable pub status_listing : Text → Text
unfolding extract_info
status_listing qstat_result =
    parse_status_listing lsf_status (map extract_info (splitlines qstat_result))
