-- ===== src/Bss/Submit.antt =====
-- lib/BSSCommon.py, `submit`: the files of a job, the command that submits it, and the reply.
use tsi.Base.{
  Option, none, some, List, [], ◌∷◌, ◌++◌, Bool, true, false, ◌==◌, text_eq, if◌then◌else◌,
}
use tsi.Base.Exec.{Error, Result, ok, err, Exec, ◌>>=◌, ◌>>◌, type_error, os_error}
use tsi.Base.Text.{Text, txt, newline, starts_with}
use tsi.Connector.{Connector, failed, reply_ok}
use tsi.Utils.{Environment, expand_variables, extract_parameter}

-- The channel, the files written so far, and the commands that have been run.
pub record Node : Type 0 where
  pub connector : Connector
  pub files : List (Text × Text)
  pub commands_run : List Text

-- What the batch system and the machine supply. A script of `none` is an exception.
pub record Site : Type 0 where
  pub environment : Environment
  pub submit_cmd : Text
  pub create_submit_script : Text → Result (List Text)
  pub create_alloc_script : Text → Option (List Text)
  pub read_file : Text → Option Text
  pub run_command : Text → Bool × Text
  pub submit_id : Text
  pub extract_job_id : Text → Option Text

unfoldable pub reply : (Connector → Connector) → Exec Node (Unit {0})
reply f s = (ok tt, record s { connector = f s.connector })

unfoldable pub write_file : Text → Text → Exec Node (Unit {0})
write_file name content s = (ok tt, record s { files = s.files ++ (name, content) ∷ [] })

-- Each command, followed by this text.
abbrev pub terminated : Text → List Text → Text
terminated stop [] = []
terminated stop (l ∷ ls) = l ++ (stop ++ terminated stop ls)

-- `none` raises.
unfoldable pub required {ℓ} : {A : Type ℓ} → Error → Option A → Exec Node A
required e none s = (err e, s)
required e (some a) s = (ok a, s)

unfoldable pub lifted {ℓ} : {A : Type ℓ} → Result A → Exec Node A
lifted r s = (r, s)

-- The id of the job, where the output has one.
unfoldable pub report_id : Text → Option Text → Exec Node (Unit {0})
report_id output none = reply (failed (some (txt "Submit failed? Submission result:" ++ output)))
report_id output (some job_id) = reply (reply_ok (some job_id))

module _ (site : Site) where
  unfoldable pub run : Text → Exec Node (Bool × Text)
  run cmd s = (ok (site.run_command cmd), record s { commands_run = s.commands_run ++ cmd ∷ [] })

  -- The last part: what the submission said.
  unfoldable pub report_submission : Bool → Bool × Text → Exec Node (Unit {0})
  report_submission is_alloc (false, output) = reply (failed (some output))
  report_submission true (true, output) = reply (reply_ok none)
  report_submission false (true, output) = report_id output (site.extract_job_id output)

  abbrev pub userjob_file_name : Text
  userjob_file_name = txt "UNICORE_Job_" ++ site.submit_id

  abbrev pub submit_file_name : Text
  submit_file_name = txt "bss_submit_" ++ site.submit_id

  -- The allocation command runs in the background, and its id goes to a file.
  abbrev pub allocation_command : Text → List Text → Text → Text
  allocation_command msg submit_cmds pid_file_name =
      msg
      ++ (newline
          ∷ (txt "{ "
              ++ (terminated (txt " ; ") submit_cmds
                  ++ (txt "} & echo $! > " ++ (pid_file_name ++ (b' ' ∷ newline ∷ []))))))

  unfoldable pub allocate : Text → List Text → Exec Node (Bool × Text)
  allocate msg submit_cmds = do
    pid_file_name ←
        required type_error
          (extract_parameter msg (txt "PID_FILE") (some (txt "UNICORE_SCRIPT_PID")))
    write_file userjob_file_name (allocation_command msg submit_cmds pid_file_name)
    run (allocation_command msg submit_cmds pid_file_name)

  unfoldable pub launch : Text → Text → List Text → Exec Node (Bool × Text)
  launch msg uspace_dir submit_cmds = do
    write_file userjob_file_name msg
    write_file submit_file_name
        (terminated (newline ∷ []) (submit_cmds ++ (uspace_dir ++ (b'/' ∷ userjob_file_name)) ∷ []))
    run (site.submit_cmd ++ (txt " ./" ++ submit_file_name))

  -- From the commands on.
  unfoldable pub submit_commands : Text → Text → Bool → List Text → Exec Node (Unit {0})
  submit_commands msg uspace_dir is_alloc submit_cmds = do
    outcome ← if is_alloc then allocate msg submit_cmds else launch msg uspace_dir submit_cmds
    report_submission is_alloc outcome

  unfoldable pub submit_raw : Text → Text → Option Text → Exec Node (Unit {0})
  submit_raw msg uspace_dir none =
      reply (failed (some (txt "Job mode 'raw' requires TSI_JOB_FILE")))
  submit_raw msg uspace_dir (some name) = do
    content ← required os_error (site.read_file name)
    submit_commands msg uspace_dir false (content ∷ [])

  unfoldable pub submit_alloc : Text → Text → Option (List Text) → Exec Node (Unit {0})
  submit_alloc msg uspace_dir none =
      reply (failed (some (txt "Allocation mode not (yet) supported!")))
  submit_alloc msg uspace_dir (some submit_cmds) = submit_commands msg uspace_dir true submit_cmds

  -- The three job modes.
  unfoldable pub submit_mode : Text → Text → Text → Exec Node (Unit {0})
  submit_mode msg uspace_dir job_mode =
      if job_mode == txt "normal"
      then (do
        submit_cmds ← lifted (site.create_submit_script msg)
        submit_commands msg uspace_dir false submit_cmds)
      else if job_mode == txt "raw"
      then submit_raw msg uspace_dir (extract_parameter msg (txt "JOB_FILE") none)
      else if starts_with job_mode (txt "alloc")
      then submit_alloc msg uspace_dir (site.create_alloc_script msg)
      else reply (failed (some (txt "Illegal job mode: " ++ (job_mode ++ b' ' ∷ []))))

  -- Without a directory `os.chdir` raises a `TypeError`.
  unfoldable pub submit : Text → Exec Node (Unit {0})
  submit original =
      let msg = expand_variables site.environment original in
      (do
        uspace_dir ← required type_error (extract_parameter msg (txt "USPACE_DIR") none)
        job_mode ←
            required type_error (extract_parameter msg (txt "JOB_MODE") (some (txt "normal")))
        submit_mode msg uspace_dir job_mode)
