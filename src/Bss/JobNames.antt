-- ===== src/Bss/JobNames.antt =====
-- The names that slurm/BSS.py, torque/BSS.py and lsf/BSS.py give to a job.
use tsi.Base.{
  ◌≡◌, refl, ℕ, zero, suc, ◌≤◌, inl, inr, [], ◌∷◌, Bool, true, false, arith, All, length, ◌&&◌,
  Bool-cases, nat_eq, not, contains,
}
use tsi.Base.Text.{Text, txt, is_space}
use tsi.Bss.Scripts.{is_letter, word_prefix, fitting_job_name}
use tsi.Bss.Slurm.{is_legal}

-- The control characters of ASCII for white space and the zero, the blank, and the characters that a shell reads:
-- double quote (34), backslash (92), and ! # $ % & ' ( ) * + , - ; < > ? @ [ ] ^ ` { | }.
abbrev pub special : Text
special = 0 ∷ 9 ∷ 10 ∷ 11 ∷ 12 ∷ 13 ∷ 34 ∷ 92 ∷ txt " !#$%&'()*+,-;<>?@[]^`{|}"

-- None of these characters.
abbrev pub Plain : Text → Type 0
Plain = All (λ c. contains special c ≡ false)

none_legal : Text → Bool
none_legal [] = true
none_legal (c ∷ s) = not (is_legal c) && none_legal s

-- A letter, and then at most fourteen characters that are no white space.
abbrev pub Fits : Text → Type 0
Fits [] = ⊥
Fits (c ∷ s) = (is_letter c ≡ true) × (length s ≤ 14) × All (λ d. is_space d ≡ false) s

word_prefix-short : (n : ℕ) (s : Text) → length (word_prefix n s) ≤ n
unfolding word_prefix
word_prefix-short zero s = omega arith
word_prefix-short (suc n) [] = omega arith
word_prefix-short (suc n) (c ∷ s) = elim (Bool-cases (is_space c)) [
  | inl e ↦ rw (e, word_prefix) (omega arith)
  | inr e ↦ let rec = word_prefix-short n s in rw (e, word_prefix) (omega (arith, rec))
]

word_prefix-words : (n : ℕ) (s : Text) → All (λ d. is_space d ≡ false) (word_prefix n s)
unfolding word_prefix
word_prefix-words zero s = tt
word_prefix-words (suc n) [] = tt
word_prefix-words (suc n) (c ∷ s) = elim (Bool-cases (is_space c)) [
  | inl e ↦ rw (e, word_prefix) tt
  | inr e ↦ rw (e, word_prefix) (e, word_prefix-words n s)
]

-- The name of a job for Torque and LSF is a letter and at most fourteen characters after it, none of which
-- is white space, whatever name was asked for.
pub fitting_job_name-Fits : (name : Text) → Fits (fitting_job_name name)
unfolding fitting_job_name is_space
fitting_job_name-Fits [] = (
  refl,
  omega arith,
  (refl, (refl, (refl, (refl, (refl, (refl, (refl, (refl, (refl, (refl, tt)))))))))),
)
fitting_job_name-Fits (c ∷ s) = elim (Bool-cases (is_letter c)) [
  | inl e ↦ rw (e, fitting_job_name) (e, word_prefix-short 14 s, word_prefix-words 14 s)
  | inr e ↦ rw (e, fitting_job_name) (fitting_job_name-Fits s)
]
