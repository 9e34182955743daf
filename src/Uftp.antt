-- ===== src/Uftp.antt =====
-- lib/UFTP.py: the command that starts a transfer, and the transfer.
use tsi.Base.{
  Option, none, some, List, [], ◌∷◌, ◌++◌, Bool, true, false, ◌==◌, text_eq, if◌then◌else◌, ◌||◌,
}
use tsi.Base.Int.{ℤ, pos, negsuc, is_positive}
use tsi.Base.Exec.{
  Result, ok, err, ◌>>=?◌, Exec, ◌>>◌, pure, throw, key_error, type_error, os_error,
}
use tsi.Base.Text.{Text, txt, newline, starts_with}
use tsi.Base.Format.{show_int, show_option}
use tsi.Connector.{Connector, reply_ok}
use tsi.Utils.{Environment, expand_variables, extract_parameter}
use tsi.Io.{text_of, int_of}

-- The parameters of a transfer, as the message gives them.
pub record Transfer : Type 0 where
  pub host : Option Text
  pub port : ℤ
  pub secret : Option Text
  pub operation : Option Text
  pub write_mode : Text
  pub remote_path : Text
  pub local_path : Text
  pub offset : ℤ
  pub length : ℤ

-- Text cannot be joined to `None`.
unfoldable pub joinable : Option Text → Result Text
joinable none = err type_error
joinable (some s) = ok s

unfoldable pub transfer_of : Environment → Text → Result Transfer
unfolding text_of int_of
transfer_of env msg = int_of (extract_parameter msg (txt "UFTP_PORT") none) >>=? λ port.
    text_of (extract_parameter msg (txt "UFTP_REMOTE_FILE") none) >>=? λ remote.
    text_of (extract_parameter msg (txt "UFTP_LOCAL_FILE") none) >>=? λ local.
    int_of (extract_parameter msg (txt "UFTP_OFFSET") (some (txt "0"))) >>=? λ offset.
    int_of (extract_parameter msg (txt "UFTP_LENGTH") (some (txt "-1"))) >>=? λ len. ok (record {
      host = extract_parameter msg (txt "UFTP_HOST") none;
      port = port;
      secret = extract_parameter msg (txt "UFTP_SECRET") none;
      operation = extract_parameter msg (txt "UFTP_OPERATION") none;
      write_mode = show_option (extract_parameter msg (txt "UFTP_WRITE_MODE") (some (txt "FULL")));
      remote_path = expand_variables env remote;
      local_path = expand_variables env local;
      offset = offset;
      length = len;
    })

-- The files of the child process.
pub record Outputs : Type 0 where
  pub stdout : Text
  pub stderr : Text
  pub pid_file : Text
  pub exit_code_file : Text

abbrev output_name : Text → Text → Text → Text → Text
output_name msg outcome_dir name default_value =
    outcome_dir ++ (b'/' ∷ show_option (extract_parameter msg name (some default_value)))

unfoldable pub outputs_of : Text → Result Outputs
unfolding joinable
outputs_of msg = joinable (extract_parameter msg (txt "OUTCOME_DIR") none) >>=? λ outcome_dir.
    ok (record {
      stdout = output_name msg outcome_dir (txt "STDOUT") (txt "stdout");
      stderr = output_name msg outcome_dir (txt "STDERR") (txt "stderr");
      pid_file = output_name msg outcome_dir (txt "PID_FILE") (txt "UNICORE_SCRIPT_PID");
      exit_code_file =
          output_name msg outcome_dir (txt "EXIT_CODE_FILE") (txt "UNICORE_SCRIPT_EXIT_CODE");
    })

unfoldable pub lines_of : List Text → Text
lines_of [] = []
lines_of (l ∷ ls) = l ++ (newline ∷ lines_of ls)

abbrev pub exported : Text → Text → Text
exported name value = txt "export " ++ (name ++ (b'=' ∷ value))

unfoldable pub child_line : Text → Outputs → Text
child_line uftp_client files =
    txt "{ python3 "
    ++ (uftp_client
        ++ (txt " >> "
            ++ (files.stdout
                ++ (txt " 2 > "
                    ++ (files.stderr
                        ++ (txt " ; echo $? > "
                            ++ (files.exit_code_file
                                ++ (txt " ; } & echo $! > " ++ (files.pid_file ++ txt " ")))))))))

unfoldable pub command_text : Text → Transfer → Outputs → Text → Option Text → Text → Text
unfolding lines_of child_line
command_text msg t files python_path uspace_dir uftp_client = lines_of (
    msg
    ∷ exported (txt "UFTP_HOST") (show_option t.host)
    ∷ exported (txt "UFTP_PORT") (show_int t.port)
    ∷ exported (txt "UFTP_SECRET") (show_option t.secret)
    ∷ exported (txt "UFTP_OPERATION") (show_option t.operation)
    ∷ exported (txt "UFTP_WRITE_MODE") t.write_mode
    ∷ exported (txt "UFTP_OFFSET") (show_int t.offset)
    ∷ exported (txt "UFTP_LENGTH") (show_int t.length)
    ∷ exported (txt "UFTP_WRITE_MODE") t.write_mode
    ∷ exported (txt "UFTP_REMOTE_FILE") t.remote_path
    ∷ exported (txt "UFTP_LOCAL_FILE") t.local_path
    ∷ exported (txt "PYTHONPATH") python_path
    ∷ (txt "cd " ++ show_option uspace_dir)
    ∷ child_line uftp_client files
    ∷ [])

-- The channel, the commands started in the background, and their processes.
pub record Session : Type 0 where
  pub connector : Connector
  pub started : List Text
  pub child_pids : List ℤ

pub record Machine : Type 0 where
  pub environment : Environment
  pub python_path : Option Text
  pub uftp_client : Text
  pub spawn : Text → ℤ

unfoldable pub path_of : Option Text → Result Text
path_of none = err key_error
path_of (some p) = ok p

unfoldable pub command_of : Machine → Text → Result Text
unfolding command_text path_of
command_of m msg = transfer_of m.environment msg >>=? λ t. outputs_of msg >>=? λ files.
    path_of m.python_path >>=? λ python_path. ok (
      command_text msg t files python_path (extract_parameter msg (txt "USPACE_DIR") none)
        m.uftp_client)

unfoldable pub launch : Machine → Result Text → Session → Result (Unit {0}) × Session
launch m (err e) s = (err e, s)
launch m (ok cmd) s = (
  ok tt,
  record {
    connector = reply_ok none s.connector;
    started = s.started ++ cmd ∷ [];
    child_pids = s.child_pids ++ m.spawn cmd ∷ [];
  },
)

-- A command in the background is always started.
unfoldable pub uftp : Machine → Text → Session → Result (Unit {0}) × Session
unfolding launch command_of
uftp m msg s = launch m (command_of m msg) s

-- What the transfer does, in its order.
pub data Step : Type 0 where
  touch : Text → Step
  opened : Text → Text → Step
  positioned : ℤ → Step
  sent : Text → Step
  retrieved : Text → Option ℤ → Step
  stored : Text → Step
  quit : Step

-- Where the number is above -1
abbrev pub has_length : ℤ → Bool
has_length (pos n) = true
has_length (negsuc n) = false

unfoldable pub act : Step → Exec (List Step) (Unit {0})
act step steps = (ok tt, steps ++ step ∷ [])

module _ (reply_to : Text → Text) where
  -- A reply other than 350 is an error.
  unfoldable pub set_range : ℤ → ℤ → Exec (List Step) (Unit {0})
  unfolding act
  set_range offset len =
      let cmd = txt "RANG " ++ (show_int offset ++ (b' ' ∷ show_int len)) in
      act (sent cmd) >> (if starts_with (reply_to cmd) (txt "350") then pure tt else throw os_error)

  unfoldable pub open_target : Bool → Text → Exec (List Step) (Unit {0})
  unfolding act
  open_target partial path =
      if partial
      then (act (touch path) >> act (opened path (txt "r+b")))
      else act (opened path (txt "wb"))

  unfoldable pub prepare_target : Bool → ℤ → ℤ → Exec (List Step) (Unit {0})
  unfolding act set_range
  prepare_target partial offset len =
      if is_positive offset || has_length len
      then ((if partial then act (positioned offset) else pure tt)
          >> (if has_length len then set_range offset len else pure tt))
      else pure tt

  unfoldable pub get : Bool → Text → Text → ℤ → ℤ → Exec (List Step) (Unit {0})
  unfolding act open_target prepare_target
  get partial remote_path local_path offset len =
      open_target partial local_path
      >> prepare_target partial offset len
      >> act (retrieved remote_path (if has_length len then none else some offset))
      >> act quit

  unfoldable pub prepare_source : Bool → ℤ → ℤ → Exec (List Step) (Unit {0})
  unfolding act set_range
  prepare_source partial offset len =
      if is_positive offset || has_length len
      then (act (positioned offset) >> set_range (if partial then offset else pos 0) len)
      else pure tt

  unfoldable pub put : Bool → Text → Text → ℤ → ℤ → Exec (List Step) (Unit {0})
  unfolding act prepare_source
  put partial remote_path local_path offset len =
      act (opened local_path (txt "rb"))
      >> prepare_source partial offset len
      >> act (stored remote_path)
      >> act quit

  -- Any operation other than `GET` sends.
  unfoldable pub main : Text → Text → Text → Text → ℤ → ℤ → Exec (List Step) (Unit {0})
  unfolding get put
  main operation write_mode remote_path local_path offset len =
      let partial = write_mode == txt "PARTIAL" in
      if operation == txt "GET"
      then get partial remote_path local_path offset len
      else put partial remote_path local_path offset len
