-- ===== src/Utils/Access.antt =====
-- lib/Utils.py: the access list of distinguished names, and the subjects of certificates.
use tsi.Base.{◌≡◌, Option, none, some, List, [], ◌∷◌, Bool, true, false}
use tsi.Base.{◌==◌, ◌&&◌, text_eq, text_beq, Any, nat_eq, if◌then◌else◌}
use tsi.Base.Dict.{Dict, lookup}
use tsi.Base.Exec.{Result, ok, err, index_error, type_error}
use tsi.Base.Text.{Text, txt, split, strip}

-- An attribute and its value; `none` where `convert_rdn` gives none.
abbrev pub Rdn : Type 0
Rdn = Option (Text × Text)

-- As `ssl.getpeercert` returns it: a list of sets of attributes.
abbrev pub Subject : Type 0
Subject = List (List (Text × Text))

abbrev rdn_map : Dict Text Text
rdn_map =
    (txt "C", txt "countryName")
    ∷ (txt "CN", txt "commonName")
    ∷ (txt "O", txt "organizationName")
    ∷ (txt "OU", txt "organizationalUnitName")
    ∷ (txt "L", txt "localityName")
    ∷ (txt "ST", txt "stateOrProvinceName")
    ∷ (txt "DC", txt "domainComponent")
    ∷ []

-- The value is the second piece, also where there are more.
second_piece : Text → List Text → Result Rdn
second_piece name (_ ∷ val ∷ _) = ok (some (name, val))
second_piece name _ = err index_error

unfoldable pub convert_rdn : Text → Result Rdn
unfolding second_piece split lookup text_beq
convert_rdn rdn = elim (split b'=' rdn) [
  | [] ↦ err index_error
  | key ∷ more ↦ elim (lookup key rdn_map) [
    | none ↦ ok none
    | some name ↦ second_piece name (key ∷ more)
  ]
]

convert_elements : List Text → Result (List Rdn)
unfolding convert_rdn
convert_elements [] = ok []
convert_elements (e ∷ es) =
    let rest = convert_elements es in
    if e == [] then rest else elim (convert_rdn e) [
      | err x ↦ err x
      | ok r ↦ elim rest [ err x ↦ err x | ok rs ↦ ok (r ∷ rs) ]
    ]

stripped : List Text → List Text
stripped [] = []
stripped (e ∷ es) = strip e ∷ stripped es

-- An element whose attribute is not in the map stays in the list as `None`.
unfoldable pub convert_dn : Text → Result (List Rdn)
unfolding convert_elements stripped strip split
convert_dn dn = convert_elements (stripped (split b',' dn))

attribute_in : Text × Text → List (Text × Text) → Bool
attribute_in (n, v) [] = false
attribute_in (n, v) ((m, w) ∷ ys) =
    let rest = attribute_in (n, v) ys in if text_beq m n && text_beq w v then true else rest

has_attribute : Text × Text → Subject → Bool
has_attribute a [] = false
has_attribute a (x ∷ xs) = let rest = has_attribute a xs in if attribute_in a x then true else rest

has_any : Subject → Bool
has_any [] = false
has_any ([] ∷ xs) = has_any xs
has_any ((_ ∷ _) ∷ xs) = true

-- A comparison with `None` raises a `TypeError`.
unfoldable pub match_rdn : Rdn → Subject → Result Bool
unfolding has_attribute attribute_in has_any
match_rdn none subject = if has_any subject then err type_error else ok false
match_rdn (some a) subject = ok (has_attribute a subject)

-- Every attribute of one entry, up to the first that does not match.
match_dn : List Rdn → Subject → Result Bool
unfolding match_rdn
match_dn [] subject = ok true
match_dn (rdn ∷ dn) subject = elim (match_rdn rdn subject) [
  | err e ↦ err e
  | ok true ↦ match_dn dn subject
  | ok false ↦ ok false
]

unfoldable pub check_access : Subject → List (List Rdn) → Result Bool
unfolding match_dn
check_access subject [] = ok false
check_access subject (dn ∷ acl) = elim (match_dn dn subject) [
  | err e ↦ err e
  | ok true ↦ ok true
  | ok false ↦ check_access subject acl
]

-- The attribute stands somewhere in the subject.
abbrev pub InSubject : Subject → Text × Text → Type 0
InSubject subject a = Any (λ x. Any (λ b. (b.0 ≡ a.0) × (b.1 ≡ a.1)) x) subject

-- An entry of the access list whose attributes were all known.
abbrev pub known_rdns : List (Text × Text) → List Rdn
known_rdns [] = []
known_rdns (a ∷ as') = some a ∷ known_rdns as'

abbrev pub known_acl : List (List (Text × Text)) → List (List Rdn)
known_acl [] = []
known_acl (dn ∷ acl) = known_rdns dn ∷ known_acl acl
