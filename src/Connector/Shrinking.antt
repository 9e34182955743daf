-- ===== src/Connector/Shrinking.antt =====
-- What reading a message leaves in the channel.
use tsi.Base.{
  ◌≡◌, refl, sym, ap, subst, ◌∙◌, ℕ, zero, suc, ◌≤◌, ◌<◌, inl, inr, Option, none, some, [], ◌∷◌,
  ◌++◌, Bool, true, false, arith,
}
use tsi.Base.{◌==◌, nat_eq, text_eq, length, Option-cases}
use tsi.Base.Exec.{Result, ok, err, os_error}
use tsi.Base.Text.{Text, newline}
use tsi.Base.Format.{cut_at}
use tsi.Connector.{Connector, read_lines, read_message, end_of_message}

rest_of : {a b : Text × Text} → some a ≡ some b → a.1 ≡ b.1
rest_of h = cc

cut-step :
    (b : Bool) (o : Option (Text × Text)) (a : ℕ) (s l r : Text)
    → ((l' r' : Text) → o ≡ some (l', r') → length r' < length s)
    → (elim b as (λ _. Option (Text × Text)) [
      | true ↦ some ([], s)
      | false ↦ elim o as (λ _. Option (Text × Text)) [
        | none ↦ none
        | some (l, r) ↦ some (a ∷ l, r)
      ]
    ])
      ≡ some (l, r)
    → length r < length (a ∷ s)
cut-step true o a s l r f h = omega (arith, ap length (rest_of h))
cut-step false none a s l r f h = absurd (cc)
cut-step false (some (l', r')) a s l r f h = omega (arith, f l' r' refl, ap length (rest_of h))

cut_at-shorter : (c : ℕ) (s l r : Text) → cut_at c s ≡ some (l, r) → length r < length s
unfolding cut_at
cut_at-shorter c [] l r h = absurd (cc)
cut_at-shorter c (a ∷ s) l r h = cut-step (a == c) (cut_at c s) a s l r (cut_at-shorter c s) h

pick-rest :
    (b : Bool) (m : Text) (rest : Text) (o : Option (Text × Text)) (x r : Text)
    → ((x' r' : Text) → o ≡ some (x', r') → length r' < length rest)
    → (elim b as (λ _. Option (Text × Text)) [ true ↦ some (m, rest) | false ↦ o ]) ≡ some (x, r)
    → length r ≤ length rest
pick-rest true m rest o x r f h = omega (arith, ap length (rest_of h))
pick-rest false m rest o x r f h = omega (arith, f x r h)

read_lines-shorter : (n : ℕ) (m s x r : Text) → read_lines n m s ≡ some (x, r) → length r < length s
unfolding read_lines
read_lines-shorter zero m s x r h = absurd (cc)
read_lines-shorter (suc n) m s x r h = go (read_lines-shorter n) (cut_at newline s) refl h
  where
    go :
        ((m s x r : Text) → read_lines n m s ≡ some (x, r) → length r < length s)
        → (o : Option (Text × Text)) → cut_at newline s ≡ o
        → (elim o as (λ _. Option (Text × Text)) [
          | none ↦ none
          | some (line, rest) ↦ elim (line == end_of_message) as (λ _. Option (Text × Text)) [
            | true ↦ some (m, rest)
            | false ↦ read_lines n (m ++ (line ++ newline ∷ [])) rest
          ]
        ])
          ≡ some (x, r)
        → length r < length s
    go rec none e h = absurd (cc)
    go rec (some (line, rest)) e h =
        let kept =
          pick-rest (line == end_of_message) m rest
            (read_lines n (m ++ (line ++ newline ∷ [])) rest) x r
            (rec (m ++ (line ++ newline ∷ [])) rest) h in
        omega (arith, kept, cut_at-shorter newline s line rest e)

taken : (c : Connector) (o : Option (Text × Text)) → Result Text × Connector
taken c none = (err os_error, record c { control_in = [] })
taken c (some (m, rest)) = (ok m, record c { control_in = rest })

read_message-taken :
    (c : Connector)
    → read_message c ≡ taken c (read_lines (suc (length c.control_in)) [] c.control_in)
unfolding read_message taken
read_message-taken c =
    elim (Option-cases (read_lines (suc (length c.control_in)) [] c.control_in)) [
      | inl e ↦ rw (e, read_message) refl
      | inr (a, e) ↦ rw (e, read_message) refl
    ]

taken-shorter :
    (c : Connector) (o : Option (Text × Text)) (x : Text)
    → ((m r : Text) → o ≡ some (m, r) → length r < length c.control_in)
    → (taken c o).0 ≡ ok x
    → length (taken c o).1.control_in < length c.control_in
unfolding taken
taken-shorter c none x f h = absurd (cc)
taken-shorter c (some (m, rest)) x f h = f m rest refl

-- A message that was read is no longer in the channel.
pub read_message-shorter :
    (c : Connector) (x : Text)
    → (read_message c).0 ≡ ok x
    → length (read_message c).1.control_in < length c.control_in
read_message-shorter c x h =
    let e = read_message-taken c in
    let shorter =
      taken-shorter c (read_lines (suc (length c.control_in)) [] c.control_in) x
        (read_lines-shorter (suc (length c.control_in)) [] c.control_in)
        (ap (λ o. o.0) (sym e) ∙ h) in
    subst (λ o. length o.1.control_in < length c.control_in) (sym e) shorter
