-- ===== src/Base/Lines.antt =====
-- `str.splitlines`, and the runs of characters that the patterns of the program match.
use Prim.Native.Nat.{ℕ}
use mathlib.Core.Bool.{Bool, true, false, not, ◌&&◌, ◌||◌}
use mathlib.Core.Option.{Option, none, some}
use mathlib.Core.List.{List, [], ◌∷◌}
use tsi.Base.Tests.{leb, if◌then◌else◌}
use tsi.Base.Equality.{◌==◌, nat_eq}
use tsi.Base.Text.{Text, is_space}

-- The characters at which `str.splitlines` ends a line
unfoldable pub ends_line : ℕ → Bool
ends_line c =
    (c == 10)
    || (c == 11)
    || (c == 12)
    || (c == 13)
    || (c == 28)
    || (c == 29)
    || (c == 30)
    || (c == 133)
    || (c == 0x2028)
    || (c == 0x2029)

abbrev in_front : ℕ → List Text → List Text
in_front c [] = (c ∷ []) ∷ []
in_front c (l ∷ ls) = (c ∷ l) ∷ ls

-- `str.splitlines`; the flag says that a carriage return stands before.
unfoldable pub lines_after : Bool → Text → List Text
unfolding ends_line
lines_after cr [] = []
lines_after cr (c ∷ s) = elim (cr && (c == 10)) [
  | true ↦ lines_after false s
  | false ↦
      let more = lines_after (c == 13) s in if ends_line c then [] ∷ more else (in_front c more)
]

unfoldable pub splitlines : Text → List Text
unfolding lines_after
splitlines s = lines_after false s

-- The longest run of characters that pass a test, and the rest.
unfoldable pub span : (ℕ → Bool) → Text → Text × Text
span test [] = ([], [])
span test (c ∷ s) = let (run, rest) = span test s in if test c then (c ∷ run, rest) else ([], c ∷ s)

-- A run that is not empty.
unfoldable pub some_run : (ℕ → Bool) → Text → Option (Text × Text)
unfolding span
some_run test s = elim (span test s).0 [ [] ↦ none | _ ∷ _ ↦ some (span test s) ]

-- The run, and then something of what follows it.
unfoldable pub with_run {ℓ} : {A : Type ℓ} → (ℕ → Bool) → Text → (Text → Text → Option A) → Option A
unfolding some_run
with_run test s f = elim (some_run test s) [ none ↦ none | some (run, rest) ↦ f run rest ]

abbrev pub is_word : ℕ → Bool
is_word c = not (is_space c)

-- `\w`, over the ASCII characters
unfoldable pub is_name : ℕ → Bool
is_name c =
    (leb b'a' c && leb c b'z')
    || (leb b'A' c && leb c b'Z')
    || (leb b'0' c && leb c b'9')
    || (c == b'_')
