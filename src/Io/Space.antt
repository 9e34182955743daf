-- ===== src/Io/Space.antt =====
-- lib/IO.py: df, the free space of a file system.
use tsi.Base.{Option, none, some, List, [], ◌∷◌, ◌++◌, Bool, true, false, nat_eq}
use tsi.Base.Exec.{Result, ok, err, attribute_error}
use tsi.Base.Text.{Text, txt, is_space, is_digit}
use tsi.Base.Lines.{splitlines, with_run, is_word}
use tsi.Connector.{Connector, failed, reply_ok, write_message}
use tsi.Utils.{Environment, expand_variables, extract_parameter}

unfoldable pub without_last : Text → Option Text
without_last [] = none
without_last (c ∷ []) = none
without_last (c ∷ d ∷ s) = elim (without_last (d ∷ s)) [
  | none ↦ some (c ∷ [])
  | some r ↦ some (c ∷ r)
]

-- `(\d+).+`: at least one character follows, so that digits at the end of the line give their last one up.
unfoldable pub last_column : Text → Text → Option Text
unfolding without_last
last_column digits [] = without_last digits
last_column digits (c ∷ s) = some digits

-- `(\S+)\s+(\d+)\s+(\d+)\s+(\d+).+`: the second group and the fourth.
unfoldable pub parse_row : Text → Option (Text × Text)
unfolding with_run last_column
parse_row line = with_run is_word line (λ name s1. with_run is_space s1 (λ space1 s2.
    with_run is_digit s2 (λ total s3. with_run is_space s3 (λ space2 s4.
      with_run is_digit s4 (λ used s5. with_run is_space s5 (λ space3 s6.
        with_run is_digit s6
          (λ free s7. elim (last_column free s7) [ none ↦ none | some f ↦ some (total, f) ])))))))

-- Each row replaces the one before.
unfoldable pub last_row : Text × Text → List Text → Text × Text
unfolding parse_row
last_row found [] = found
last_row found (line ∷ lines) = elim (parse_row line) [
  | none ↦ last_row found lines
  | some row ↦ last_row row lines
]

unfoldable pub report_space : Text × Text → Connector → Connector
report_space (total, free) c = write_message (txt "END_DF") (
    write_message (txt "USER -1") (
      write_message (txt "FREE " ++ free)
        (write_message (txt "TOTAL " ++ total) (reply_ok (some (txt "START_DF")) c))))

unfoldable pub report_output : Bool × Text → Connector → Connector
unfolding last_row report_space
report_output (true, output) c = report_space (last_row (txt "-1", txt "-1") (splitlines output)) c
report_output (false, output) c = failed (some output) c

module _ (env : Environment) (run_command : Text → Bool × Text) where
  unfoldable pub df_file : Option Text → Connector → Result (Unit {0}) × Connector
  unfolding report_output
  df_file none c = (err attribute_error, c)
  df_file (some path) c =
      (ok tt, report_output (run_command (txt "df -P -B 1 " ++ expand_variables env path)) c)

  unfoldable pub df : Text → Connector → Result (Unit {0}) × Connector
  unfolding df_file
  df msg c = df_file (extract_parameter msg (txt "FILE") none) c
