-- ===== src/Io/Listing.antt =====
-- lib/IO.py: list_directory and ls.
use tsi.Base.{
  ℕ, zero, suc, Option, none, some, List, [], ◌∷◌, ◌++◌, Bool, true, false, not, ◌==◌, text_eq,
  ◌&&◌, if◌then◌else◌, contains, nat_eq,
}
use tsi.Base.Exec.{Result, ok, err, attribute_error, os_error}
use tsi.Base.Text.{Text, txt}
use tsi.Base.Format.{show_option}
use tsi.Connector.{Connector, failed, reply_ok, write_message}
use tsi.Utils.{Environment, expand_variables, extract_parameter}
use tsi.Io.Info.{Stat, get_info}

-- The files of the machine, as the process sees them. `listdir` without a result is an `OSError`.
pub record Files : Type 0 where
  pub listdir : Text → Option (List Text)
  pub isdir : Text → Bool
  pub exists : Text → Bool
  pub stat : Text → Option Stat

-- What a listing does; `none` stands for directories nested deeper than the bound.
abbrev pub Walk : Type 0
Walk = Option (Result (Unit {0}) × Connector)

unfoldable pub after : Walk → (Connector → Walk) → Walk
after none f = none
after (some (err e, c)) f = some (err e, c)
after (some (ok _, c)) f = f c

-- `os.path.join(path, entry)` for the name of an entry
unfoldable pub join_path : Text → Text → Text
join_path [] entry = entry
join_path (c ∷ []) entry = if c == b'/' then c ∷ entry else c ∷ b'/' ∷ entry
join_path (c ∷ d ∷ path) entry = c ∷ join_path (d ∷ path) entry

-- Every error is passed over.
unfoldable pub write_info : Result Text → Connector → Connector
write_info (ok file_info) c = write_message file_info c
write_info (err e) c = c

unfoldable pub descend : (Text → Connector → Walk) → Bool → Text → Connector → Walk
unfolding after
descend visit false full_path c = some (ok tt, c)
descend visit true full_path c =
    after (visit full_path c) (λ c'. some (ok tt, write_message (txt "<") c'))

module _ (fs : Files) (recursive : Bool) where
  -- The entries in turn; `visit` lists a directory below.
  unfoldable pub list_entries : (Text → Connector → Walk) → Text → List Text → Connector → Walk
  unfolding after descend write_info
  list_entries visit path [] c = some (ok tt, c)
  list_entries visit path (entry ∷ entries) c =
      let full_path = join_path path entry in
      after (descend visit (recursive && fs.isdir full_path) full_path c)
        (λ c'. list_entries visit path entries (write_info (get_info fs.stat full_path) c'))

  unfoldable pub list_directory : ℕ → Text → Connector → Walk
  unfolding list_entries
  list_directory zero path c = none
  list_directory (suc depth) path c = elim (fs.listdir path) [
    | none ↦ some (err os_error, c)
    | some entries ↦ list_entries (list_directory depth) path entries c
  ]

abbrev pub allowed_modes : List Text
allowed_modes = txt "R" ∷ txt "A" ∷ txt "N" ∷ []

-- An `OSError` ends the listing, any other error ends the function.
unfoldable pub finish : Walk → Walk
finish none = none
finish (some (ok _, c)) = some (ok tt, write_message (txt "END_LISTING") c)
finish (some (err os_error, c)) = some (ok tt, write_message (txt "END_LISTING") c)
finish (some (err e, c)) = some (err e, c)

unfoldable pub single_file : Result Text → Connector → Walk
single_file (ok info) c = some (ok tt, write_message info c)
single_file (err e) c = some (err e, c)

module _ (fs : Files) where
  unfoldable pub list_path : ℕ → Text → Text → Connector → Walk
  unfolding single_file list_directory
  list_path depth path mode c =
      if fs.exists path
      then (if fs.isdir path && not (mode == txt "A")
          then list_directory fs (mode == txt "R") depth path c
          else single_file (get_info fs.stat path) c)
      else some (ok tt, c)

  unfoldable pub ls_mode : ℕ → Text → Option Text → Connector → Walk
  unfolding list_path finish
  ls_mode depth path mode c =
      let m = show_option mode in
      if contains allowed_modes m
      then finish (list_path depth path m (reply_ok (some (txt "START_LISTING")) c))
      else some (
        ok tt,
        failed
            (some (txt "Unknown TSI_LS mode: '" ++ (m ++ txt "', must be one of 'R', 'A' or 'N'.")))
            c,
      )

  unfoldable pub ls_file : Environment → ℕ → Option Text → Option Text → Connector → Walk
  unfolding ls_mode
  ls_file env depth none mode c = some (err attribute_error, c)
  ls_file env depth (some file) mode c = ls_mode depth (expand_variables env file) mode c

  -- The bound is on the depth of the directories.
  unfoldable pub ls : Environment → ℕ → Text → Connector → Walk
  unfolding ls_file
  ls env depth msg c =
      ls_file env depth (extract_parameter msg (txt "FILE") none)
        (extract_parameter msg (txt "LS_MODE") none) c
