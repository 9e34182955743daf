-- ===== src/Bss/Slurm.antt =====
-- slurm/BSS.py: the options, the scripts, and the lines of a listing.
use tsi.Base.{
  ℕ, zero, suc, ◌/◌, Option, none, some, List, [], ◌∷◌, ◌++◌, Bool, true, not, ◌==◌, text_eq,
  nat_eq, if◌then◌else◌, ◌&&◌, ◌||◌, map,
}
use Prim.Native.Nat.{max}
use tsi.Base.Int.{ℤ, pos, negsuc, is_positive}
use tsi.Base.Text.{Text, txt, is_space, is_digit}
use tsi.Base.Format.{show_int, show_nat, show_option, lower}
use tsi.Base.Lines.{splitlines, span, with_run, is_word, is_name}
use tsi.Utils.{extract_parameter}
use tsi.Bss.{Info, parse_status_listing}
use tsi.Bss.States.{slurm_status}
use tsi.Bss.Scripts.{
  Site, param, no_value, line_if, option_line, number_line, number, array_text, is_letter,
}

-- The complement of `[^0-9a-zA-Z\.:.=~/]`
abbrev pub is_legal : ℕ → Bool
is_legal c =
    is_digit c
    || is_letter c
    || (c == b'.')
    || (c == b':')
    || (c == b'=')
    || (c == b'~')
    || (c == b'/')

unfoldable pub all_legal : Text → Bool
unfolding is_digit
all_legal [] = true
all_legal (c ∷ s) = is_legal c && all_legal s

unfoldable pub job_name : Text → Text
unfolding all_legal
job_name name = if all_legal name then name else txt "UNICORE_job"

-- The filter of the site and that of the user.
unfoldable pub filter_of : Text → Text → Text
filter_of site_filter user_filter =
    if user_filter == no_value
    then site_filter
    else if site_filter == []
    then user_filter
    else site_filter ++ (b'&' ∷ user_filter)

-- Nodes, or tasks where no nodes are asked for.
unfoldable pub node_lines : ℤ → ℤ → ℤ → List Text
unfolding number_line
node_lines nodes processors_per_node total_processors =
    if is_positive nodes
    then (txt "--nodes=" ++ show_int nodes)
      ∷ number_line (txt "--ntasks-per-node=") processors_per_node
    else number_line (txt "--ntasks=") total_processors

-- `0` asks for all of the memory.
unfoldable pub memory_line : ℤ → List Text
memory_line (pos n) = (txt "--mem=" ++ show_nat n) ∷ []
memory_line (negsuc n) = []

-- Seconds, in minutes.
unfoldable pub time_line : ℤ → List Text
time_line (pos zero) = []
time_line (pos (suc n)) = (txt "--time=" ++ show_nat (max (suc n / 60) 1)) ∷ []
time_line (negsuc n) = []

abbrev email_lines : Text → List Text
email_lines email =
    if email == no_value then [] else (txt "--mail-user=" ++ email) ∷ txt "--mail-type=ALL" ∷ []

module _ (site : Site) where
  -- What stands before the time.
  unfoldable pub resource_options : Text → List Text
  unfolding job_name filter_of node_lines number_line memory_line param
  resource_options message =
      let exclusive =
        param message (txt "SSR_EXCLUSIVE") (param message (txt "EXCLUSIVE") no_value) in
      let nodes_filter =
        filter_of site.nodes_filter (param message (txt "BSS_NODES_FILTER") no_value) in
      let comment = param message (txt "SSR_COMMENT") no_value in
      ((txt "--job-name=" ++ job_name (param message (txt "JOBNAME") site.default_job_name)) ∷ [])
      ++ (option_line (txt "--partition=") (param message (txt "QUEUE") no_value)
          ++ (line_if (lower exclusive == txt "true") (txt "--exclusive")
              ++ (line_if (not (comment == no_value)) (txt "--comment=\"" ++ (comment ++ txt "\""))
                  ++ (option_line (txt "--account=") (param message (txt "PROJECT") no_value)
                      ++ (node_lines (number site message (txt "NODES"))
                            (number site message (txt "PROCESSORS_PER_NODE"))
                            (number site message (txt "TOTAL_PROCESSORS"))
                          ++ (number_line (txt "--gpus-per-node=")
                                (number site message (txt "GPUS_PER_NODE"))
                              ++ (line_if (not (nodes_filter == []))
                                    (txt "--constraint=" ++ nodes_filter)
                                  ++ (option_line (txt "--qos=")
                                        (param message (txt "QOS") no_value)
                                      ++ memory_line (number site message (txt "MEMORY"))))))))))

  -- What stands after it.
  unfoldable pub mail_options : Text → List Text
  unfolding param
  mail_options message =
      email_lines (param message (txt "EMAIL") no_value)
      ++ option_line (txt "--reservation=") (param message (txt "RESERVATION_REFERENCE") no_value)

  unfoldable pub parse_common_options : Text → List Text
  unfolding resource_options mail_options time_line
  parse_common_options message =
      resource_options message
      ++ (time_line (number site message (txt "TIME")) ++ mail_options message)

  -- An array of jobs.
  abbrev array_lines : Text → List Text
  array_lines spec =
      (txt "#SBATCH --array=" ++ spec)
      ∷ txt "UC_ARRAY_TASK_ID = \"$SLURM_ARRAY_TASK_ID\"; export UC_ARRAY_TASK_ID"
      ∷ []

  abbrev umask_lines : Option Text → List Text
  umask_lines none = []
  umask_lines (some umask) = (txt "umask " ++ umask) ∷ []

  unfoldable pub create_submit_script : Text → List Text
  unfolding array_text
  create_submit_script message =
      let outcome_dir = show_option (extract_parameter message (txt "OUTCOME_DIR") none) in
      let stderr = param message (txt "STDERR") (txt "stderr") in
      let stdout = param message (txt "STDOUT") (txt "stdout") in
      let uspace_dir = show_option (extract_parameter message (txt "USPACE_DIR") none) in
      let array_spec = number site message (txt "ARRAY") in
      let is_array = is_positive array_spec in
      let suffix = if is_array then txt "%a" else [] in
      (txt "#!/bin/bash" ∷ [])
      ++ (map (λ option. txt "#SBATCH " ++ option) (parse_common_options message)
          ++ ((if is_array
                then array_lines (array_text array_spec (number site message (txt "ARRAY_LIMIT")))
                else [])
              ++ ((txt "#SBATCH --output=" ++ (outcome_dir ++ (b'/' ∷ (stdout ++ suffix))))
                  ∷ (txt "#SBATCH --error=" ++ (outcome_dir ++ (b'/' ∷ (stderr ++ suffix))))
                  ∷ (txt "#SBATCH --chdir=" ++ uspace_dir)
                  ∷ umask_lines (extract_parameter message (txt "UMASK") none))))

  abbrev with_options : Text → List Text → Text
  with_options cmd [] = cmd
  with_options cmd (option ∷ options) = with_options (cmd ++ (b' ' ∷ option)) options

  unfoldable pub create_alloc_script : Text → Text → List Text
  create_alloc_script alloc_cmd message =
      let uspace_dir = show_option (extract_parameter message (txt "USPACE_DIR") none) in
      let stdout = param message (txt "STDOUT") (txt "stdout") in
      let alloc_id_file = param message (txt "ALLOCATION_ID") (txt "UNICORE_ALLOCATION_ID") in
      let exit_code_file = param message (txt "EXIT_CODE_FILE") (txt "UNICORE_SCRIPT_EXIT_CODE") in
      (with_options alloc_cmd (parse_common_options message)
        ++ (txt " > " ++ (stdout ++ (txt " 2>&1 ; echo $? > " ++ exit_code_file))))
      ∷ (txt "grep -o '[[:digit:]]*' "
          ++ (uspace_dir ++ (b'/' ∷ (stdout ++ (txt " | head -1 > " ++ alloc_id_file)))))
      ∷ []

-- `(\d+)_?\S*\s+(\w+)\s+(\w+)` at the beginning of the line
unfoldable pub extract_info : Text → Option Info
unfolding with_run span
extract_info qstat_line = with_run is_digit qstat_line (λ bssid s1.
    with_run is_space (span is_word s1).1 (λ space1 s2. with_run is_name s2 (λ state s3.
      with_run is_space s3 (λ space2 s4. with_run is_name s4 (λ queue_name s5.
        some (record { bssid = bssid; state = state; queue_name = queue_name }))))))

-- The reply to a request for the states of all jobs.
unfoldable pub status_listing : Text → Text
unfolding extract_info
status_listing qstat_result =
    parse_status_listing slurm_status (map extract_info (splitlines qstat_result))
