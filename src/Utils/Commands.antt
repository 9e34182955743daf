-- ===== src/Utils/Commands.antt =====
-- lib/Utils.py: run_command and addperms.
use tsi.Base.{List, [], ◌∷◌, ◌++◌, Bool, true, false, nat_eq, if◌then◌else◌}
use tsi.Base.Int.{ℤ}
use tsi.Base.Exec.{Result, ok, err, value_error}
use tsi.Base.Text.{Text, txt}
use tsi.Base.Format.{show_int}

-- What a command did that was waited for: it ended well, or with a code; an output that is no UTF-8 is an
-- error of its own.
pub data Ended : Type 0 where
  succeeded : Text → Ended
  exited : ℤ → Text → Ended
  undecodable : Ended

-- The shell and its arguments.
unfoldable pub shell_words : Bool → Text → List Text
shell_words login_shell cmd =
    if login_shell
    then txt "/bin/bash" ∷ txt "-l" ∷ txt "-c" ∷ cmd ∷ []
    else txt "/bin/bash" ∷ txt "-c" ∷ cmd ∷ []

unfoldable pub output_of : Text → Ended → Result (Bool × Text)
output_of cmd (succeeded output) = ok (true, output)
output_of cmd (exited code output) = ok (
  false,
  txt "Command '"
      ++ (cmd ++ (txt "' failed with code " ++ (show_int code ++ (txt ": " ++ output)))),
)
output_of cmd undecodable = err value_error

-- The shell is waited for, or it is started in the background and remembered among the children.
module _ (check_output : List Text → Ended) (popen : List Text → ℤ) where
  unfoldable pub run_command : Text → Bool → Bool → List ℤ → Result (Bool × Text) × List ℤ
  unfolding shell_words output_of
  run_command cmd discard login_shell child_pids =
      let words = shell_words login_shell cmd in
      if discard
      then (ok (true, []), child_pids ++ popen words ∷ [])
      else (output_of cmd (check_output words), child_pids)
