-- ===== src/Bss/Scripts.antt =====
-- What the scripts of slurm/BSS.py, torque/BSS.py and lsf/BSS.py have in common.
mod Tests
use tsi.Base.{
  ℕ, zero, suc, Option, none, some, List, [], ◌∷◌, ◌++◌, Bool, true, false, not, ◌==◌, text_eq,
  if◌then◌else◌, ◌&&◌, ◌||◌, leb, nat_eq,
}
use tsi.Base.Int.{ℤ, is_positive}
use tsi.Base.Text.{Text, txt, is_space}
use tsi.Base.Format.{show_int}
use tsi.Utils.{extract_parameter, extract_number}

-- A parameter with a default, which is therefore always a text.
unfoldable pub param : Text → Text → Text → Text
param message name default_value = elim (extract_parameter message name (some default_value)) [
  | none ↦ default_value
  | some v ↦ v
]

abbrev pub no_value : Text
no_value = txt "NONE"

-- `if test: cmds.append(line)`
abbrev pub line_if : Bool → Text → List Text
line_if b line = if b then line ∷ [] else []

-- `if value != "NONE": cmds.append(option % value)`
abbrev pub option_line : Text → Text → List Text
option_line option value = line_if (not (value == no_value)) (option ++ value)

-- `if n > 0: cmds.append(option % n)`
unfoldable pub number_line : Text → ℤ → List Text
number_line option n = line_if (is_positive n) (option ++ show_int n)

-- What the scripts take from the configuration; `float_value` is `int(float(s))`, or `none` where it
-- raises.
pub record Site : Type 0 where
  pub default_job_name : Text
  pub nodes_filter : Text
  pub float_value : Text → Option ℤ

abbrev pub number : Site → Text → Text → ℤ
number site message name = extract_number site.float_value message name

-- The number of tasks of an array, with the limit on those that run at once.
unfoldable pub array_text : ℤ → ℤ → Text
array_text spec limit =
    if is_positive limit then show_int spec ++ (b'%' ∷ show_int limit) else show_int spec

abbrev pub is_letter : ℕ → Bool
is_letter c = (leb b'a' c && leb c b'z') || (leb b'A' c && leb c b'Z')

-- At most this many characters that are no white space.
unfoldable pub word_prefix : ℕ → Text → Text
word_prefix zero s = []
word_prefix (suc n) [] = []
word_prefix (suc n) (c ∷ s) = let rest = word_prefix n s in if is_space c then [] else c ∷ rest

-- `re.search(r"([a-zA-Z]\S{0,14})", jobname)`, or the name that is used without a match.
unfoldable pub fitting_job_name : Text → Text
unfolding word_prefix
fitting_job_name [] = txt "UNICORE_job"
fitting_job_name (c ∷ s) =
    let later = fitting_job_name s in if is_letter c then c ∷ word_prefix 14 s else later
