-- ===== src/Base/Text.antt =====
-- Python's `str` as the list of its code points, with the methods that the program calls.
use Prim.Native.Nat.{ℕ, zero, ◌+◌, ◌-◌, ◌*◌}
use Prim.Native.Char.{code}
use Prim.Native.String.{String}
use mathlib.Core.Bool.{Bool, true, false, ◌&&◌, ◌||◌}
use mathlib.Core.Option.{Option, none, some}
use mathlib.Core.List.{List, [], ◌∷◌, reverse}
use tsi.Base.Tests.{leb}
use tsi.Base.Equality.{◌==◌, nat_eq}
use tsi.Base.Int.{ℤ, pos, negsuc}

abbrev pub Text : Type 0
Text = List ℕ

-- A literal. `String` has its own `[]` and `∷`.
abbrev pub txt : String → Text
txt String.[] = []
txt (String.◌∷◌ c s) = code c ∷ txt s

abbrev pub newline : ℕ
newline = 10

unfoldable pub starts_with : Text → Text → Bool
starts_with s [] = true
starts_with [] (_ ∷ _) = false
starts_with (a ∷ s) (b ∷ p) = (a == b) && starts_with s p

-- `s.split(c)`: never empty. The pieces lie between the occurrences of `c`.
abbrev cons_piece : ℕ → List Text → List Text
cons_piece a [] = (a ∷ []) ∷ []
cons_piece a (p ∷ ps) = (a ∷ p) ∷ ps

unfoldable pub split : ℕ → Text → List Text
split c [] = [] ∷ []
split c (a ∷ s) =
    let rest = split c s in elim (a == c) [ true ↦ [] ∷ rest | false ↦ cons_piece a rest ]

-- `str.isspace` of one character
unfoldable pub is_space : ℕ → Bool
is_space c =
    (leb 9 c && leb c 13)
    || (leb 28 c && leb c 32)
    || (c == 133)
    || (c == 160)
    || (c == 0x1680)
    || (leb 0x2000 c && leb c 0x200a)
    || (c == 0x2028)
    || (c == 0x2029)
    || (c == 0x202f)
    || (c == 0x205f)
    || (c == 0x3000)

unfoldable pub lstrip : Text → Text
unfolding is_space
lstrip [] = []
lstrip (c ∷ s) = elim (is_space c) [ true ↦ lstrip s | false ↦ c ∷ s ]

unfoldable pub strip : Text → Text
unfolding lstrip
strip s = reverse (lstrip (reverse (lstrip s)))

unfoldable pub is_digit : ℕ → Bool
is_digit c = leb b'0' c && leb c b'9'

-- The digits of `int(s)`: one underscore may stand between two of them.
unfoldable pub digits_value : ℕ → Bool → Text → Option ℕ
unfolding is_digit
digits_value acc true [] = some acc
digits_value acc false [] = none
digits_value acc after_digit (c ∷ s) = elim (is_digit c) [
  | true ↦ digits_value (acc * 10 + (c - b'0')) true s
  | false ↦ elim (after_digit && (c == b'_')) [ true ↦ digits_value acc false s | false ↦ none ]
]

abbrev negate : ℕ → ℤ
negate zero = pos 0
negate n = negsuc (n - 1)

-- Over the ASCII digits; `none` is the `ValueError`.
unsigned_value : Text → Option ℤ
unfolding digits_value
unsigned_value s = elim (digits_value 0 false s) [ none ↦ none | some n ↦ some (pos n) ]

negated_value : Text → Option ℤ
unfolding digits_value
negated_value s = elim (digits_value 0 false s) [ none ↦ none | some n ↦ some (negate n) ]

signed_value : Text → Option ℤ
unfolding unsigned_value negated_value
signed_value [] = none
signed_value (c ∷ s) = elim (c == b'-') [
  | true ↦ negated_value s
  | false ↦ elim (c == b'+') [ true ↦ unsigned_value s | false ↦ unsigned_value (c ∷ s) ]
]

-- `int(s)`
unfoldable pub parse_int : Text → Option ℤ
unfolding strip signed_value
parse_int s = signed_value (strip s)
