-- ===== src/Utils/Parameters.antt =====
-- Which value a message gives for a parameter.
use tsi.Base.{◌≡◌, refl, ap, ◌∙◌, Option, some, List, [], ◌∷◌, ◌++◌, true, false, arith}
use tsi.Base.{nat_eq, text_eq, drop, length, All, nat_beq, nat_beq_iff}
use mathlib.Core.List.{append_assoc}
use tsi.Base.{All-append, text_beq, if◌then◌else◌}
use tsi.Base.Text.{Text, newline, starts_with}
use tsi.Base.Format.{terminated_lines, push_char}
use tsi.Utils.{prefix_of, value_or, first_value, extract_parameter}

-- A text of one line.
abbrev pub OneLine : Text → Type 0
OneLine = All (λ c. nat_beq c newline ≡ false)

-- `#TSI_<parameter> <value>\n`
abbrev pub param_line : Text → Text → Text
param_line parameter value = prefix_of parameter ++ (value ++ newline ∷ [])

-- Lines, each with its newline.
abbrev pub unlines : List Text → Text
unlines [] = []
unlines (l ∷ ls) = l ++ newline ∷ unlines ls

terminated_lines-line :
    (l rest : Text)
    → OneLine l
    → terminated_lines (l ++ newline ∷ rest)
      ≡ (l ∷ (terminated_lines rest).0, (terminated_lines rest).1)
unfolding terminated_lines
terminated_lines-line [] rest h = refl
terminated_lines-line (c ∷ l) rest h = ap (push_char c) (terminated_lines-line l rest h.1) ∙ rw h.0

starts_with-append : (p s : Text) → starts_with (p ++ s) p ≡ true
unfolding starts_with
starts_with-append [] s = refl
starts_with-append (c ∷ p) s = ground (arith, starts_with-append p s, nat_beq_iff c c)

drop-append : (p s : Text) → drop (length p) (p ++ s) ≡ s
drop-append [] s = refl
drop-append (c ∷ p) s = drop-append p s

-- One line of the message: it is the one looked for, or it is passed over.
extract-line :
    (l rest parameter : Text) (d : Option Text)
    → OneLine l
    → extract_parameter (l ++ newline ∷ rest) parameter d
      ≡ elim (starts_with l (prefix_of parameter)) [
        | true ↦ value_or d (drop (length (prefix_of parameter)) l)
        | false ↦ extract_parameter rest parameter d
      ]
unfolding extract_parameter
extract-line l rest parameter d h =
    ap (λ r. first_value (prefix_of parameter) d r.0) (terminated_lines-line l rest h)

-- Lines that do not begin with the prefix are passed over.
extract-unlines :
    (ls : List Text) (rest parameter : Text) (d : Option Text)
    → All (λ l. OneLine l × (starts_with l (prefix_of parameter) ≡ false)) ls
    → extract_parameter (unlines ls ++ rest) parameter d ≡ extract_parameter rest parameter d
extract-unlines [] rest parameter d h = refl
extract-unlines (l ∷ ls) rest parameter d h =
    ap (λ m. extract_parameter m parameter d) (append_assoc l (newline ∷ unlines ls) rest)
    ∙ extract-line l (unlines ls ++ rest) parameter d h.0.0
    ∙ rw h.0.1 (extract-unlines ls rest parameter d h.1)

OneLine-append : (a b : Text) → OneLine a → OneLine b → OneLine (a ++ b)
OneLine-append a b = All-append (λ c. nat_beq c newline ≡ false) a b

OneLine-prefix : (parameter : Text) → OneLine parameter → OneLine (prefix_of parameter)
OneLine-prefix parameter h =
    (refl, (refl, (refl, (refl, (refl, OneLine-append parameter (b' ' ∷ []) h (refl, tt))))))

line_shape :
    (p value rest : Text) → (p ++ (value ++ newline ∷ [])) ++ rest ≡ (p ++ value) ++ newline ∷ rest
line_shape p value rest = simp append_assoc

header_value :
    (p value : Text) (d x : Option Text)
    → (elim (starts_with (p ++ value) p) [
      | true ↦ value_or d (drop (length p) (p ++ value))
      | false ↦ x
    ])
      ≡ value_or d value
header_value p value d x = rw (starts_with-append p value) (rw (drop-append p value))

value_or-if :
    (d : Option Text) (value : Text)
    → value_or d value ≡ (if text_beq value [] then d else some value)
unfolding value_or text_beq
value_or-if d [] = refl
value_or-if d (c ∷ v) = refl

-- A parameter line after any lines that do not begin with the prefix of the parameter gives its value,
-- whatever follows it; an empty value gives the default, also where a later line has another value.
-- Neither the lines, nor the name, nor the value contain a newline.
pub extract_parameter-param_line :
    (ls : List Text) (parameter value rest : Text) (d : Option Text)
    → All (λ l. OneLine l × (starts_with l (prefix_of parameter) ≡ false)) ls
    → OneLine parameter
    → OneLine value
    → extract_parameter (unlines ls ++ (param_line parameter value ++ rest)) parameter d
      ≡ (if text_beq value [] then d else some value)
extract_parameter-param_line ls parameter value rest d others one_name one_value =
    extract-unlines ls (param_line parameter value ++ rest) parameter d others
    ∙ ap (λ m. extract_parameter m parameter d) (line_shape (prefix_of parameter) value rest)
    ∙ extract-line (prefix_of parameter ++ value) rest parameter d
        (OneLine-append (prefix_of parameter) value (OneLine-prefix parameter one_name) one_value)
    ∙ header_value (prefix_of parameter) value d (extract_parameter rest parameter d)
    ∙ value_or-if d value
