-- ===== src/Bss/Torque.antt =====
-- torque/BSS.py: the script for submission, and the details of a job.
use tsi.Base.{
  Option, none, some, List, [], ◌∷◌, ◌++◌, Bool, true, false, ◌==◌, text_eq, nat_eq, if◌then◌else◌,
}
use tsi.Base.Int.{ℤ, is_positive}
use tsi.Base.Dict.{Dict, insert}
use tsi.Base.Text.{Text, txt, strip, starts_with}
use tsi.Base.Format.{show_int, show_option, cut_at}
use tsi.Base.Lines.{splitlines}
use tsi.Utils.{extract_parameter}
use tsi.Bss.Scripts.{
  Site, param, no_value, option_line, number_line, number, array_text, fitting_job_name,
}

-- The filter of the user counts only with one of the site.
unfoldable pub filter_of : Text → Text → Text
filter_of site_filter user_filter =
    if site_filter == []
    then []
    else if user_filter == no_value
    then b':' ∷ site_filter
    else b':' ∷ (site_filter ++ (b':' ∷ user_filter))

abbrev ppn : ℤ → Text
ppn n = if is_positive n then txt ":ppn=" ++ show_int n else []

unfoldable pub node_lines : ℤ → ℤ → Text → List Text
node_lines nodes processors_per_node nodes_filter =
    if is_positive nodes
    then (txt "#PBS -l nodes=" ++ (show_int nodes ++ (ppn processors_per_node ++ nodes_filter)))
      ∷ []
    else []

abbrev mail_line : Text → Text
mail_line email = txt "#PBS -m " ++ (if email == no_value then txt "n" else txt "abe -M " ++ email)

abbrev array_lines : Text → List Text
array_lines spec =
    (txt "#PBS -t " ++ spec)
    ∷ txt "UC_ARRAY_TASK_ID = \"$PBS_ARRAYID\"; export UC_ARRAY_TASK_ID"
    ∷ []

abbrev umask_lines : Option Text → List Text
umask_lines none = []
umask_lines (some umask) = (txt "#PBS -W umask=" ++ umask) ∷ []

module _ (site : Site) where
  unfoldable pub create_submit_script : Text → List Text
  unfolding filter_of node_lines number_line fitting_job_name array_text param
  create_submit_script message =
      let outcome_dir = show_option (extract_parameter message (txt "OUTCOME_DIR") none) in
      let stderr = param message (txt "STDERR") (txt "stderr") in
      let stdout = param message (txt "STDOUT") (txt "stdout") in
      let array_spec = number site message (txt "ARRAY") in
      let is_array = is_positive array_spec in
      let suffix = if is_array then txt "$PBS_ARRAYID" else [] in
      ((txt "#PBS -N " ++ fitting_job_name (param message (txt "JOBNAME") site.default_job_name))
        ∷ [])
      ++ (option_line (txt "#PBS -q ") (param message (txt "QUEUE") no_value)
          ++ (option_line (txt "#PBS -A ") (param message (txt "PROJECT") no_value)
              ++ (node_lines (number site message (txt "NODES"))
                    (number site message (txt "PROCESSORS_PER_NODE"))
                    (filter_of site.nodes_filter (param message (txt "BSS_NODES_FILTER") no_value))
                  ++ (number_line (txt "#PBS -l walltime=") (number site message (txt "TIME"))
                      ++ ((mail_line (param message (txt "EMAIL") no_value) ∷ [])
                          ++ (option_line (txt "#PBS -W x=FLAGS:ADVRES:")
                                (param message (txt "RESERVATION_REFERENCE") no_value)
                              ++ ((if is_array
                                    then array_lines (
                                        array_text array_spec
                                          (number site message (txt "ARRAY_LIMIT")))
                                    else [])
                                  ++ ((txt "#PBS -o "
                                        ++ (outcome_dir ++ (b'/' ∷ (stdout ++ suffix))))
                                      ∷ (txt "#PBS -e "
                                          ++ (outcome_dir ++ (b'/' ∷ (stderr ++ suffix))))
                                      ∷ umask_lines
                                          (extract_parameter message (txt "UMASK") none)))))))))

-- The lines that belong together, as `qstat -f` writes them: those that begin with a tab go on with the
-- line before, which stands in the result without them too.
unfoldable pub merge_lines : Text → Bool → List Text → List Text
merge_lines last multi [] = []
merge_lines last multi (line ∷ lines) =
    let continued = merge_lines (last ++ strip line) true lines in
    let after_multi = merge_lines [] false lines in
    let after_single = merge_lines line false lines in
    if starts_with line (b'\t' ∷ [])
    then continued
    else if multi
    then (last ∷ line ∷ after_multi)
    else (line ∷ after_single)

-- `result[kv[0].strip()] = kv[1].strip()`; a line without `=` is passed over.
unfoldable pub add_detail : Text → Dict Text Text → Dict Text Text
add_detail line result = elim (cut_at b'=' line) [
  | none ↦ result
  | some (key, value) ↦ insert (strip key) (strip value) result
]

unfoldable pub add_details : List Text → Dict Text Text → Dict Text Text
unfolding add_detail
add_details [] result = result
add_details (line ∷ lines) result = add_details lines (add_detail line result)

unfoldable pub parse_job_details : Text → Dict Text Text
unfolding add_details merge_lines
parse_job_details raw_info =
    add_details (merge_lines [] false (splitlines raw_info ++ txt "_end_\n" ∷ [])) []
