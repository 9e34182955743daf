-- ===== src/Worker/Dispatch.antt =====
-- Which function of the table a message calls.
use tsi.Base.{◌≡◌, refl, ap, Option, none, some, List, [], ◌∷◌, ◌++◌, true, false, ◌∙◌, sym}
use mathlib.Core.List.{append_assoc}
use tsi.Base.{inl, inr, All, Bool-cases}
use tsi.Base.Text.{Text, newline}
use tsi.Base.Format.{occurs}
use tsi.Base.Occurs.{occurs-true, occurs-append}
use tsi.Worker.{call_of, find_command}

-- The message has the command: `#`, its name and the end of the line stand somewhere in it.
abbrev pub Has : Text → Text → Type 0
Has msg c = (before : Text) × (after : Text) × (msg ≡ before ++ b'#' ∷ (c ++ newline ∷ after))

abbrev pub Missing : Text → Text → Type 0
Missing msg c = ¬ Has msg c

-- The pattern of the code is a text that ends with the line.
call_of-append : (c after : Text) → call_of c ++ after ≡ b'#' ∷ (c ++ newline ∷ after)
call_of-append c after = ap (◌∷◌ b'#') (append_assoc c (newline ∷ []) after)

Has-of_occurs : (msg c : Text) → occurs (call_of c) msg ≡ true → Has msg c
Has-of_occurs msg c h =
    let (before, after, e) = occurs-true (call_of c) msg h in
    (before, after, e ∙ ap (◌++◌ before) (call_of-append c after))

Missing-of_occurs : (msg c : Text) → occurs (call_of c) msg ≡ false → Missing msg c
Missing-of_occurs msg c h (before, after, e) =
    let found = occurs-append (call_of c) before after in
    let same : msg ≡ before ++ (call_of c ++ after) =
      e ∙ ap (◌++◌ before) (sym (call_of-append c after)) in
    cc (found, same, h)

-- What is found in a table: the first command that the message has, or that it has none.
abbrev pub First : List Text → Text → Option Text → Type 0
First cs msg none = All (Missing msg) cs
First cs msg (some c) =
    (before : List Text) × (after : List Text) × (cs ≡ before ++ c ∷ after)
    × All (Missing msg) before
    × Has msg c

First-skip :
    (c : Text) (cs : List Text) (msg : Text) (found : Option Text)
    → Missing msg c
    → First cs msg found
    → First (c ∷ cs) msg found
First-skip c cs msg none m h = (m, h)
First-skip c cs msg (some d) m (before, after, e, others, has) =
    (c ∷ before, after, ap (◌∷◌ c) e, (m, others), has)

-- The search through a table finds its first command that the message has as `#`, the name and the end of a line,
-- wherever these stand, and finds none only if the message has none of them.
pub find_command-First : (cs : List Text) (msg : Text) → First cs msg (find_command cs msg)
unfolding find_command
find_command-First [] msg = tt
find_command-First (c ∷ cs) msg = elim (Bool-cases (occurs (call_of c) msg)) [
  | inl e ↦ rw (e, find_command) ([], cs, refl, tt, Has-of_occurs msg c e)
  | inr e ↦
      rw (e, find_command)
        (First-skip c cs msg (find_command cs msg) (Missing-of_occurs msg c e)
          (find_command-First cs msg))
]
