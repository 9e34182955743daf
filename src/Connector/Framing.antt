-- ===== src/Connector/Framing.antt =====
-- Messages on the control channel: how they are told apart, and what a failure may write.
use mathlib.Core.List.{append_assoc, append-nil}
use tsi.Base.{◌≡◌, refl, sym, ap, ◌∙◌, ◌≤◌, Option, none, some, List, [], ◌∷◌, ◌++◌, ℕ, suc, zero}
use tsi.Base.{
  inl, inr, false, arith, All, All-append, text_eq, text_beq, nat_beq, length, length-append,
  Bool-cases,
}
use tsi.Base.Exec.{ok}
use tsi.Base.Text.{Text, txt, newline}
use tsi.Base.Format.{substitute, cut_at}
use tsi.Utils.Parameters.{OneLine, unlines}
use tsi.Connector.{Connector, failed, failed_text, end_of_message, read_lines, read_message}

-- `substitute newline b` leaves no newline.
substitute-OneLine :
    (b : ℕ) (s : Text) → nat_beq b newline ≡ false → OneLine (substitute newline b s)
unfolding substitute
substitute-OneLine b [] h = tt
substitute-OneLine b (c ∷ s) h = elim (Bool-cases (nat_beq c newline)) [
  | inl e ↦ rw e (h, substitute-OneLine b s h)
  | inr e ↦ rw e (e, substitute-OneLine b s h)
]

failed_prefix-OneLine : OneLine (txt "TSI_FAILED: ")
failed_prefix-OneLine = (
  refl,
  (refl, (refl, (refl, (refl, (refl, (refl, (refl, (refl, (refl, (refl, (refl, tt))))))))))),
)

failed_text-OneLine : (message : Option Text) → OneLine (failed_text message)
unfolding failed_text
failed_text-OneLine none = failed_prefix-OneLine
failed_text-OneLine (some m) =
    All-append (λ c. nat_beq c newline ≡ false) (txt "TSI_FAILED: ") (substitute newline b':' m)
      failed_prefix-OneLine (substitute-OneLine b':' m refl)

-- A report of a failure is one line, whatever the message: the text that `failed` adds to the channel
-- ends in a newline and has no other.
pub failed-OneLine :
    (message : Option Text) (c : Connector)
    → (line : Text) × OneLine line
      × ((failed message c).control_out ≡ c.control_out ++ (line ++ newline ∷ []))
unfolding failed
failed-OneLine message c = (failed_text message, failed_text-OneLine message, refl)

cut_at-line : (l rest : Text) → OneLine l → cut_at newline (l ++ newline ∷ rest) ≡ some (l, rest)
unfolding cut_at
cut_at-line [] rest h = refl
cut_at-line (c ∷ l) rest h = rw (h.0, cut_at) (rw (cut_at-line l rest h.1))

-- A line that does not end the message is taken up.
read_lines-line :
    (n : ℕ) (message l rest : Text)
    → OneLine l
    → text_beq l end_of_message ≡ false
    → read_lines (suc n) message (l ++ newline ∷ rest)
      ≡ read_lines n (message ++ (l ++ newline ∷ [])) rest
unfolding read_lines
read_lines-line n message l rest h e =
    rw (cut_at-line l rest h, read_lines) (rw (e, read_lines) refl)

-- The terminating line ends it.
read_lines-end :
    (n : ℕ) (message rest : Text)
    → read_lines (suc n) message (end_of_message ++ newline ∷ rest) ≡ some (message, rest)
unfolding read_lines text_beq cut_at
read_lines-end n message rest = refl

-- The loop takes up the lines until the terminating one.
read_lines-unlines :
    (ls : List Text) (n : ℕ) (message rest : Text)
    → All (λ l. OneLine l × (text_beq l end_of_message ≡ false)) ls
    → length ls ≤ n
    → read_lines (suc n) message (unlines ls ++ (end_of_message ++ newline ∷ rest))
      ≡ some (message ++ unlines ls, rest)
read_lines-unlines [] n message rest h k =
    read_lines-end n message rest ∙ ap (λ m. some (m, rest)) (sym (append-nil message))
read_lines-unlines (l ∷ ls) zero message rest h k = absurd (omega arith)
read_lines-unlines (l ∷ ls) (suc n) message rest h k =
    ap (read_lines (suc (suc n)) message)
      (append_assoc l (newline ∷ unlines ls) (end_of_message ++ newline ∷ rest))
    ∙ read_lines-line (suc n) message l (unlines ls ++ (end_of_message ++ newline ∷ rest)) h.0.0
        h.0.1
    ∙ read_lines-unlines ls n (message ++ (l ++ newline ∷ [])) rest h.1 (omega arith)
    ∙ ap (λ m. some (m, rest)) (simp append_assoc)

length-unlines : (ls : List Text) (rest : Text) → length ls ≤ length (unlines ls ++ rest)
length-unlines [] rest = omega arith
length-unlines (l ∷ ls) rest =
    let shape = ap length (append_assoc l (newline ∷ unlines ls) rest) in
    let parts = length-append l (newline ∷ (unlines ls ++ rest)) in
    omega (arith, shape, parts, length-unlines ls rest)

-- If the channel holds lines that are none of them the terminating line, then the terminating line,
-- then further text, `read_message` returns exactly those lines and leaves exactly the further text.
pub read_message-unlines :
    (c : Connector) (ls : List Text) (rest : Text)
    → All (λ l. OneLine l × (text_beq l end_of_message ≡ false)) ls
    → c.control_in ≡ unlines ls ++ (end_of_message ++ newline ∷ rest)
    → read_message c ≡ (ok (unlines ls), record c { control_in = rest })
unfolding read_message
read_message-unlines c ls rest h e =
    let enough = length-unlines ls (end_of_message ++ newline ∷ rest) in
    let looped = read_lines-unlines ls (length c.control_in) [] rest h (rw e enough) in
    let at_input = ap (read_lines (suc (length c.control_in)) []) e ∙ looped in
    rw (at_input, read_message)
