-- ===== src/Setup/Machines.antt =====
-- Which addresses may connect.
use tsi.Base.{◌≡◌, ◌⊎◌, ◌↔◌, ap, Option, none, some, List, [], ◌∷◌, ◌++◌, true, arith}
use tsi.Base.{text_eq, text_beq_iff, contains, Any}
use tsi.Base.Text.{Text, strip, split}
use tsi.Setup.{add_ip, add_ips, add_machine, allowed_from, setup_allowed_ips}

contains-append :
    (xs ys : List Text) (a : Text)
    → (contains (xs ++ ys) a ≡ true) ↔ ((contains xs a ≡ true) ⊎ (contains ys a ≡ true))
unfolding contains
contains-append [] ys a = ground arith
contains-append (x ∷ xs) ys a = ground (arith, contains-append xs ys a)

contains-add_ip :
    (ip : Text) (ips : List Text) (a : Text)
    → (contains (add_ip ip ips) a ≡ true) ↔ ((contains ips a ≡ true) ⊎ (a ≡ ip))
unfolding add_ip contains
contains-add_ip ip ips a =
    ground (arith, contains-append ips (ip ∷ []) a, text_beq_iff a ip, ap (contains ips))

contains-add_ips :
    (found ips : List Text) (a : Text)
    → (contains (add_ips found ips) a ≡ true)
      ↔ ((contains ips a ≡ true) ⊎ (contains found a ≡ true))
unfolding add_ips contains
contains-add_ips [] ips a = ground arith
contains-add_ips (ip ∷ found) ips a =
    ground
      (arith, contains-add_ips found (add_ip ip ips) a, contains-add_ip ip ips a, text_beq_iff a ip)

-- The address is among those of an answer.
pub Found : Text → Option (List Text) → Type 0
Found a none = ⊥
Found a (some found) = contains found a ≡ true

-- The address is among those that the name resolves to.
abbrev pub Resolves : (Text → Option (List Text)) → Text → Text → Type 0
Resolves resolve a machine = Found a (resolve (strip machine))

contains-add_machine :
    (r : Option (List Text)) (ips : List Text) (a : Text)
    → (contains (add_machine r ips) a ≡ true) ↔ ((contains ips a ≡ true) ⊎ Found a r)
unfolding add_machine Found
contains-add_machine none ips a = ground arith
contains-add_machine (some found) ips a = contains-add_ips found ips a

module _ (resolve : Text → Option (List Text)) where
  contains-allowed_from :
      (machines ips : List Text) (a : Text)
      → (contains (allowed_from resolve machines ips) a ≡ true)
        ↔ ((contains ips a ≡ true) ⊎ Any (Resolves resolve a) machines)
  unfolding allowed_from
  contains-allowed_from [] ips a = ground arith
  contains-allowed_from (m ∷ ms) ips a = ground (
    arith,
    contains-allowed_from ms (add_machine (resolve (strip m)) ips) a,
    contains-add_machine (resolve (strip m)) ips a,
  )

-- An address is allowed exactly if one of the configured machines resolves to it.
pub setup_allowed_ips_iff :
    (resolve : Text → Option (List Text)) (unicorex_machine a : Text)
    → (contains (setup_allowed_ips resolve unicorex_machine) a ≡ true)
      ↔ Any (Resolves resolve a) (split b',' unicorex_machine)
unfolding setup_allowed_ips contains
setup_allowed_ips_iff resolve unicorex_machine a =
    ground (arith, contains-allowed_from resolve (split b',' unicorex_machine) [] a)
