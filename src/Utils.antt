-- ===== src/Utils.antt =====
-- lib/Utils.py: the parameters of a message, and the variables that it may name.
pub mod Parameters
pub mod Access
pub mod Commands
mod Tests
use tsi.Base.{
  Option, none, some, List, [], ◌∷◌, ◌++◌, Bool, true, false, ◌==◌, text_eq, drop, length,
}
use tsi.Base.Int.{ℤ, minus_one}
use tsi.Base.Text.{Text, txt, starts_with}
use tsi.Base.Format.{terminated_lines, replace}

-- `#TSI_<parameter> `, at the beginning of a line.
abbrev pub prefix_of : Text → Text
prefix_of parameter = txt "#TSI_" ++ (parameter ++ b' ' ∷ [])

-- An empty value counts as none at all.
value_or : Option Text → Text → Option Text
value_or default_value [] = default_value
value_or default_value (c ∷ v) = some (c ∷ v)

-- The first line that begins with the prefix decides, also where its value is empty.
first_value : Text → Option Text → List Text → Option Text
first_value p default_value [] = default_value
first_value p default_value (l ∷ ls) = elim (starts_with l p) [
  | true ↦ value_or default_value (drop (length p) l)
  | false ↦ first_value p default_value ls
]

unfoldable pub extract_parameter : Text → Text → Option Text → Option Text
unfolding first_value value_or terminated_lines starts_with
extract_parameter message parameter default_value =
    first_value (prefix_of parameter) default_value (terminated_lines message).0

-- `float_value` is `int(float(s))`, with `none` where it raises.
unfoldable pub extract_number : (Text → Option ℤ) → Text → Text → ℤ
unfolding extract_parameter
extract_number float_value message parameter = elim (extract_parameter message parameter none) [
  | none ↦ minus_one
  | some s ↦ elim (float_value s) [ none ↦ minus_one | some n ↦ n ]
]

-- The variables of the environment that messages may name.
pub record Environment : Type 0 where
  pub home : Text
  pub logname : Text
  pub user : Text

unfoldable pub expand_variables : Environment → Text → Text
unfolding replace
expand_variables env message =
    replace (txt "$USER") env.user
      (replace (txt "$LOGNAME") env.logname (replace (txt "$HOME") env.home message))
