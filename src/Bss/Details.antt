-- ===== src/Bss/Details.antt =====
-- How torque/BSS.py puts together the lines of the details of a job.
use tsi.Base.{◌≡◌, sym, ap, ◌∙◌, List, [], ◌∷◌, ◌++◌, true, false, All}
use mathlib.Core.List.{append_assoc, append-nil}
use tsi.Base.Text.{Text, starts_with, strip}
use tsi.Bss.Torque.{merge_lines}

-- A line that goes on with the one before.
abbrev pub Continues : Text → Type 0
Continues line = starts_with line (b'\t' ∷ []) ≡ true

abbrev pub Begins : Text → Type 0
Begins line = starts_with line (b'\t' ∷ []) ≡ false

-- The stripped lines, one after the other.
abbrev pub stripped : List Text → Text
stripped [] = []
stripped (l ∷ ls) = strip l ++ stripped ls

merge_lines-tail :
    (last : Text) (tail : List Text) (next : Text) (rest : List Text)
    → All Continues tail
    → Begins next
    → merge_lines last true (tail ++ next ∷ rest)
      ≡ (last ++ stripped tail) ∷ next ∷ merge_lines [] false rest
unfolding merge_lines
merge_lines-tail last [] next rest all begins =
    rw (begins, merge_lines)
      (ap (λ l. l ∷ next ∷ merge_lines [] false rest) (sym (append-nil last)))
merge_lines-tail last (l ∷ tail) next rest (goes_on, all) begins =
    rw (goes_on, merge_lines)
      (merge_lines-tail (last ++ strip l) tail next rest all begins
        ∙ ap (λ m. m ∷ next ∷ merge_lines [] false rest)
            (append_assoc last (strip l) (stripped tail)))

-- A line with one or more lines that go on with it is kept, and stands once more with all of these joined to
-- it. The next line after them is kept, but it is forgotten: lines that go on with it would be joined to
-- nothing, whatever the lines are.
pub merge_lines-continued :
    (last line more : Text) (tail : List Text) (next : Text) (rest : List Text)
    → Begins line
    → Continues more
    → All Continues tail
    → Begins next
    → merge_lines last false (line ∷ more ∷ (tail ++ next ∷ rest))
      ≡ line ∷ (line ++ stripped (more ∷ tail)) ∷ next ∷ merge_lines [] false rest
unfolding merge_lines
merge_lines-continued last line more tail next rest begins goes_on all next_begins =
    rw (begins, merge_lines, goes_on)
      (ap (λ ls. line ∷ ls)
        (merge_lines-tail (line ++ strip more) tail next rest all next_begins
          ∙ ap (λ m. m ∷ next ∷ merge_lines [] false rest)
              (append_assoc line (strip more) (stripped tail))))
