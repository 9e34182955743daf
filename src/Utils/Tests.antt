-- ===== src/Utils/Tests.antt =====
-- Messages and access lists, run.
use tsi.Base.{◌≡◌, refl, none, some, List, [], ◌∷◌, ◌++◌, text_beq}
use tsi.Base.Text.{Text, txt, starts_with}
use tsi.Utils.{extract_parameter}
use tsi.Utils.Parameters.{param_line, unlines, extract_parameter-param_line}
use tsi.Utils.Access.{Subject}

extract_parameter-param_line_example :
    extract_parameter
      (unlines (txt "x" ∷ []) ++ (param_line (txt "A") (txt "b") ++ []))
      (txt "A")
      none
    ≡ some (txt "b")
unfolding text_beq starts_with
extract_parameter-param_line_example =
    extract_parameter-param_line (txt "x" ∷ []) (txt "A") (txt "b") [] none (((refl, tt), refl), tt)
      (refl, tt) (refl, tt)

abbrev subject : Subject
subject = ((txt "commonName", txt "x") ∷ []) ∷ ((txt "countryName", txt "eu") ∷ []) ∷ []

abbrev allowed : List (List (Text × Text))
allowed = ((txt "countryName", txt "eu") ∷ (txt "commonName", txt "x") ∷ []) ∷ []
