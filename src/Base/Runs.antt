-- ===== src/Base/Runs.antt =====
-- A run of characters in front of something else is matched whole.
use Prim.Native.Nat.{ℕ}
use mathlib.Core.Path.{◌≡◌, refl, ap}
use mathlib.Core.Bool.{Bool, true, false, not}
use mathlib.Core.Option.{Option, none, some}
use mathlib.Core.List.{[], ◌∷◌, ◌++◌}
use native.Mathlib.Omega.{arith}
use tsi.Base.Lists.{All}
use tsi.Base.Text.{Text, is_space, is_digit}
use tsi.Base.Lines.{span, some_run, with_run, is_word}

-- A text that is not empty, of characters that pass the test.
abbrev pub Run : (ℕ → Bool) → Text → Type 0
Run test [] = ⊥
Run test (c ∷ s) = (test c ≡ true) × All (λ d. test d ≡ true) s

-- A text whose first character does not pass the test.
abbrev pub Stops : (ℕ → Bool) → Text → Type 0
Stops test [] = Unit
Stops test (c ∷ s) = test c ≡ false

pub span-stop : (test : ℕ → Bool) (rest : Text) → Stops test rest → span test rest ≡ ([], rest)
unfolding span
span-stop test [] h = refl
span-stop test (c ∷ s) h = rw h refl

pub span-append :
    (test : ℕ → Bool) (run rest : Text)
    → All (λ d. test d ≡ true) run
    → Stops test rest
    → span test (run ++ rest) ≡ (run, rest)
unfolding span
span-append test [] rest all stop = span-stop test rest stop
span-append test (c ∷ run) rest (h, all) stop = rw (h, span-append test run rest all stop) refl

pub some_run-append :
    (test : ℕ → Bool) (run rest : Text)
    → Run test run
    → Stops test rest
    → some_run test (run ++ rest) ≡ some (run, rest)
unfolding some_run
some_run-append test [] rest all stop = absurd all
some_run-append test (c ∷ run) rest (h, all) stop =
    ap (λ p. elim p.0 as (λ _. Option (Text × Text)) [ [] ↦ none | _ ∷ _ ↦ some p ])
      (span-append test (c ∷ run) rest (h, all) stop)

pub with_run-append :
    {A : Type 0} (test : ℕ → Bool) (run rest : Text) (f : Text → Text → Option A)
    → Run test run
    → Stops test rest
    → with_run test (run ++ rest) f ≡ f run rest
unfolding with_run
with_run-append test run rest f all stop =
    rw (some_run-append test run rest all stop, with_run) refl

pub Stops-Run :
    (test other : ℕ → Bool) (run rest : Text)
    → ((c : ℕ) → test c ≡ true → other c ≡ false)
    → Run test run
    → Stops other (run ++ rest)
Stops-Run test other [] rest apart all = absurd all
Stops-Run test other (c ∷ run) rest apart (h, all) = apart c h

pub space-digit : (c : ℕ) → is_space c ≡ true → is_digit c ≡ false
unfolding is_space is_digit
space-digit c h = ground (arith, h)

pub digit-space : (c : ℕ) → is_digit c ≡ true → is_space c ≡ false
unfolding is_space is_digit
digit-space c h = ground (arith, h)

pub not-true : (b : Bool) → not b ≡ true → b ≡ false
not-true true h = absurd (cc)
not-true false h = refl

pub word-space : (c : ℕ) → is_word c ≡ true → is_space c ≡ false
word-space c h = not-true (is_space c) h

pub space-word : (c : ℕ) → is_space c ≡ true → is_word c ≡ false
space-word c h = rw h refl
