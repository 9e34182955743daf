-- ===== src/Base/Occurs.antt =====
-- What it means that a text occurs in another one.
use tsi.Base.{◌≡◌, refl, ap, [], ◌∷◌, ◌++◌, true, arith, Bool-cases, inl, inr, nat_eq, nat_beq}
use tsi.Base.{nat_beq_iff}
use tsi.Base.Text.{Text, starts_with}
use tsi.Base.Format.{occurs}

starts_with-true : (s p : Text) → starts_with s p ≡ true → (after : Text) × (s ≡ p ++ after)
unfolding starts_with
starts_with-true s [] h = (s, refl)
starts_with-true [] (b ∷ p) h = absurd (cc)
starts_with-true (a ∷ s) (b ∷ p) h = elim (Bool-cases (nat_beq a b)) [
  | inl e ↦
      let (after, rest) = starts_with-true s p (ground arith) in
      (after, cc ((nat_beq_iff a b).0 e, rest))
  | inr e ↦ absurd (ground arith)
]

starts_with-append : (p after : Text) → starts_with (p ++ after) p ≡ true
unfolding starts_with
starts_with-append [] after = refl
starts_with-append (b ∷ p) after = ground (arith, nat_beq_iff b b, starts_with-append p after)

-- A text that is found stands somewhere.
pub occurs-true :
    (p s : Text)
    → occurs p s ≡ true
    → (before : Text) × (after : Text) × (s ≡ before ++ (p ++ after))
unfolding occurs
occurs-true p [] h = let (after, e) = starts_with-true [] p h in ([], after, e)
occurs-true p (c ∷ s) h = elim (Bool-cases (starts_with (c ∷ s) p)) [
  | inl e ↦ let (after, same) = starts_with-true (c ∷ s) p e in ([], after, same)
  | inr e ↦
      let (before, after, same) = occurs-true p s (ground arith) in
      (c ∷ before, after, ap (◌∷◌ c) same)
]

-- A text that stands somewhere is found.
pub occurs-append : (p before after : Text) → occurs p (before ++ (p ++ after)) ≡ true
unfolding occurs
occurs-append [] [] [] = refl
occurs-append [] [] (c ∷ after) = refl
occurs-append (b ∷ p) [] after = ground (arith, starts_with-append (b ∷ p) after)
occurs-append p (c ∷ before) after = ground (arith, occurs-append p before after)
