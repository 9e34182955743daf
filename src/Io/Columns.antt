-- ===== src/Io/Columns.antt =====
-- What lib/IO.py's df reads from the output of the command.
use tsi.Base.{
  ◌≡◌, refl, ap, ◌∙◌, ℕ, none, some, List, [], ◌∷◌, ◌++◌, Bool, true, false, All, Option-cases, inl,
  inr,
}
use mathlib.Core.List.{append_assoc}
use tsi.Base.Text.{Text, txt, is_space, is_digit}
use tsi.Connector.{Connector, write_message, reply_ok, ok_text}
use tsi.Utils.{Environment, expand_variables, extract_parameter}
use tsi.Io.Space.{last_column, parse_row, last_row, report_space, report_output, df_file, df}
use tsi.Base.Lines.{splitlines, is_word}
use tsi.Base.Runs.{Run, Stops-Run, with_run-append, space-digit, digit-space, space-word}

-- The columns that a line of `df` has, each after some space.
abbrev pub columns : (name s1 total s2 used s3 free rest : Text) → Text
columns name s1 total s2 used s3 free rest =
    name ++ (s1 ++ (total ++ (s2 ++ (used ++ (s3 ++ (free ++ rest))))))

-- A line of columns is read as its third and seventh one.
parse_row-columns :
    (name s1 total s2 used s3 free : Text) (c : ℕ) (rest : Text)
    → Run is_word name
    → Run is_space s1
    → Run is_digit total
    → Run is_space s2
    → Run is_digit used
    → Run is_space s3
    → Run is_digit free
    → is_digit c ≡ false
    → parse_row (columns name s1 total s2 used s3 free (c ∷ rest)) ≡ some (total, free)
unfolding parse_row last_column
parse_row-columns name s1 total s2 used s3 free c rest n a t b u d f h =
    with_run-append is_word name _ _ n (Stops-Run is_space is_word s1 _ space-word a)
    ∙ with_run-append is_space s1 _ _ a (Stops-Run is_digit is_space total _ digit-space t)
    ∙ with_run-append is_digit total _ _ t (Stops-Run is_space is_digit s2 _ space-digit b)
    ∙ with_run-append is_space s2 _ _ b (Stops-Run is_digit is_space used _ digit-space u)
    ∙ with_run-append is_digit used _ _ u (Stops-Run is_space is_digit s3 _ space-digit d)
    ∙ with_run-append is_space s3 _ _ d (Stops-Run is_digit is_space free _ digit-space f)
    ∙ with_run-append is_digit free (c ∷ rest) _ f h

last_row-none :
    (found : Text × Text) (lines : List Text)
    → All (λ l. parse_row l ≡ none) lines
    → last_row found lines ≡ found
unfolding last_row
last_row-none found [] others = refl
last_row-none found (l ∷ lines) (h, others) = rw (h, last_row) (last_row-none found lines others)

last_row-rows :
    (found row : Text × Text) (before rest : List Text) (line : Text)
    → parse_row line ≡ some row
    → All (λ l. parse_row l ≡ none) rest
    → last_row found (before ++ line ∷ rest) ≡ row
unfolding last_row
last_row-rows found row [] rest line h others = rw (h, last_row) (last_row-none row rest others)
last_row-rows found row (l ∷ before) rest line h others = elim (Option-cases (parse_row l)) [
  | inl e ↦ rw (e, last_row) (last_row-rows found row before rest line h others)
  | inr (r, e) ↦ rw (e, last_row) (last_row-rows r row before rest line h others)
]

-- Where the command succeeds, and the last line of its output that has the columns of a file system is
-- `name total used free` and more, with any white space between them, df reports exactly this total and
-- this free space, whatever the lines before are, in the frame of START_DF and END_DF.
pub df-columns :
    (env : Environment) (run_command : Text → Bool × Text) (msg path output : Text) (c : Connector)
    (before rest : List Text) (name s1 total s2 used s3 free : Text) (d : ℕ) (more : Text)
    → extract_parameter msg (txt "FILE") none ≡ some path
    → run_command (txt "df -P -B 1 " ++ expand_variables env path) ≡ (true, output)
    → splitlines output ≡ before ++ columns name s1 total s2 used s3 free (d ∷ more) ∷ rest
    → All (λ l. parse_row l ≡ none) rest
    → Run is_word name
    → Run is_space s1
    → Run is_digit total
    → Run is_space s2
    → Run is_digit used
    → Run is_space s3
    → Run is_digit free
    → is_digit d ≡ false
    → (df env run_command msg c).1.control_out
      ≡ c.control_out
        ++ (txt "TSI_OK\nSTART_DF\nTOTAL "
            ++ (total ++ (txt "\nFREE " ++ (free ++ txt "\nUSER -1\nEND_DF\n"))))
unfolding df df_file report_output report_space write_message reply_ok ok_text
df-columns env run_command msg path output c before rest name s1 total s2 used s3 free d more
      has_path success lines others n a t b u e f h =
    let line = columns name s1 total s2 used s3 free (d ∷ more) in
    let row = parse_row-columns name s1 total s2 used s3 free d more n a t b u e f h in
    let last : last_row (txt "-1", txt "-1") (splitlines output) ≡ (total, free) =
      ap (last_row (txt "-1", txt "-1")) lines
      ∙ last_row-rows (txt "-1", txt "-1") (total, free) before rest line row others in
    let run : (df env run_command msg c).1 ≡ report_space (total, free) c =
      rw (has_path, success, report_output, last) refl in
    ap (λ k. k.control_out) run ∙ simp append_assoc
