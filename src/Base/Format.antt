-- ===== src/Base/Format.antt =====
-- More of `str`: lines, search, replacement, and numbers written out.
use Prim.Native.Nat.{ℕ, zero, suc, ◌+◌, ◌-◌, ◌/◌, ◌%◌}
use mathlib.Core.Bool.{Bool, true, false, ◌&&◌, ◌||◌}
use mathlib.Core.Option.{Option, none, some}
use mathlib.Core.List.{List, [], ◌∷◌, ◌++◌}
use tsi.Base.Tests.{leb, ltb, if◌then◌else◌}
use tsi.Base.Equality.{◌==◌, nat_eq}
use tsi.Base.Lists.{length}
use tsi.Base.Int.{ℤ, pos, negsuc}
use tsi.Base.Text.{Text, txt, newline, starts_with}

-- `p in s`
unfoldable pub occurs : Text → Text → Bool
unfolding starts_with
occurs p [] = starts_with [] p
occurs p (c ∷ s) = starts_with (c ∷ s) p || occurs p s

-- The text up to the first `c`, and what follows it; `none` where there is no `c`.
unfoldable pub cut_at : ℕ → Text → Option (Text × Text)
cut_at c [] = none
cut_at c (a ∷ s) = elim (a == c) [
  | true ↦ some ([], s)
  | false ↦ elim (cut_at c s) [ none ↦ none | some (l, r) ↦ some (a ∷ l, r) ]
]

-- `s.replace(p, r)` for a `p` that is not empty. The number says how many characters of the last
-- occurrence are still to be passed over.
replace_from : Text → Text → ℕ → Text → Text
unfolding starts_with
replace_from p r skip [] = []
replace_from p r (suc k) (c ∷ s) = replace_from p r k s
replace_from p r zero (c ∷ s) = elim (starts_with (c ∷ s) p) [
  | true ↦ r ++ replace_from p r (length p - 1) s
  | false ↦ c ∷ replace_from p r zero s
]

unfoldable pub replace : Text → Text → Text → Text
unfolding replace_from
replace p r s = replace_from p r zero s

-- One character for another: `s.replace("a", "b")`.
unfoldable pub substitute : ℕ → ℕ → Text → Text
substitute a b [] = []
substitute a b (c ∷ s) = (if c == a then b else c) ∷ substitute a b s

-- The lines of a text, each without its newline, with the rest that no newline ends.
abbrev extend_line : ℕ → List Text × Text → List Text × Text
extend_line c ([], rest) = ([], c ∷ rest)
extend_line c (l ∷ ls, rest) = ((c ∷ l) ∷ ls, rest)

abbrev pub push_char : ℕ → List Text × Text → List Text × Text
push_char c r = if c == newline then ([] ∷ r.0, r.1) else extend_line c r

unfoldable pub terminated_lines : Text → List Text × Text
terminated_lines [] = ([], [])
terminated_lines (c ∷ s) = push_char c (terminated_lines s)

-- Lowercase of the ASCII letters.
unfoldable pub lower : Text → Text
lower [] = []
lower (c ∷ s) = (if leb b'A' c && leb c b'Z' then c + 32 else c) ∷ lower s

-- The decimal digits, with fuel for one round for each digit.
show_digits : ℕ → ℕ → Text → Text
show_digits zero n acc = acc
show_digits (suc f) n acc =
    let acc' = (b'0' + n % 10) ∷ acc in
    let more = show_digits f (n / 10) acc' in if ltb n 10 then acc' else more

-- `str(n)`: a number has at most as many digits as its value plus one.
unfoldable pub show_nat : ℕ → Text
unfolding show_digits
show_nat n = show_digits (n + 1) n []

unfoldable pub show_int : ℤ → Text
unfolding show_nat
show_int (pos n) = show_nat n
show_int (negsuc n) = b'-' ∷ show_nat (n + 1)

-- `sep.join(parts)`
unfoldable pub join : Text → List Text → Text
join sep [] = []
join sep (p ∷ []) = p
join sep (p ∷ q ∷ ps) = p ++ sep ++ join sep (q ∷ ps)

-- `str(value)` of a text or of `None`
unfoldable pub show_option : Option Text → Text
show_option none = txt "None"
show_option (some s) = s
