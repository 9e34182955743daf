-- ===== src/Bss/Times.antt =====
-- The wall time that slurm/BSS.py and lsf/BSS.py ask for.
use tsi.Base.{
  ◌≡◌, refl, sym, ap, subst, ◌∙◌, ℕ, zero, suc, ◌+◌, ◌*◌, ◌/◌, ◌≤◌, ◌<◌, ◌⊎◌, inl, inr, Option,
  none, List, [], ◌∷◌, ◌++◌, arith, Any,
}
use Prim.Native.Nat.{max}
use tsi.Base.Int.{ℤ, pos, minus_one}
use tsi.Base.Exec.{Result, ok, err, ◌>>=?◌}
use tsi.Base.Text.{Text, txt}
use tsi.Base.Format.{show_nat, show_int}
use tsi.Utils.{extract_parameter, extract_number}
use tsi.Bss.Scripts.{Site, number}
use tsi.Bss.Slurm.{parse_common_options, resource_options, mail_options, time_line}
use tsi.Bss.Lsf.{
  create_submit_script, check_memory, minutes, resource_lines, file_lines, minutes_line,
}

Any-later {ℓ} : {A : Type ℓ} (P : A → Type 0) (xs ys : List A) → Any P ys → Any P (xs ++ ys)
Any-later P [] ys h = h
Any-later P (x ∷ xs) ys h = inr (Any-later P xs ys h)

Any-sooner {ℓ} : {A : Type ℓ} (P : A → Type 0) (xs ys : List A) → Any P xs → Any P (xs ++ ys)
Any-sooner P [] ys h = absurd h
Any-sooner P (x ∷ xs) ys (inl h) = inl h
Any-sooner P (x ∷ xs) ys (inr h) = inr (Any-sooner P xs ys h)

-- The number of minutes in a line is that of whole minutes, or one where there is none.
abbrev pub Minutes : ℕ → ℕ → Type 0
Minutes seconds m = (1 ≤ m) × (seconds < 60 * (m + 1)) × (60 * m ≤ seconds ⊎ m ≡ 1)

time_line-Minutes :
    (n : ℕ)
    → (m : ℕ) × (time_line (pos (suc n)) ≡ (txt "--time=" ++ show_nat m) ∷ []) × Minutes (suc n) m
unfolding time_line
time_line-Minutes n = (max (suc n / 60) 1, refl, (omega arith, omega arith, omega arith))

-- For a positive number of seconds Slurm is asked for a number of minutes that is at least one, that is
-- longer than the request only where this is below one minute, and shorter by less than a minute.
pub parse_common_options-Minutes :
    (site : Site) (message : Text) (n : ℕ)
    → number site message (txt "TIME") ≡ pos n
    → 1 ≤ n
    → (m : ℕ) × Any (λ line. line ≡ txt "--time=" ++ show_nat m) (parse_common_options site message)
      × Minutes n m
unfolding parse_common_options
parse_common_options-Minutes site message zero h some_time = absurd (omega (arith, some_time))
parse_common_options-Minutes site message (suc n) h some_time =
    let (m, line, good) = time_line-Minutes n in
    let P : Text → Type 0 = λ l. l ≡ txt "--time=" ++ show_nat m in
    let here : Any P (time_line (number site message (txt "TIME"))) =
      subst (Any P) (sym (ap time_line h ∙ line)) (inl refl) in
    (
      m,
      Any-later P (resource_options site message)
          (time_line (number site message (txt "TIME")) ++ mail_options site message)
          (Any-sooner P (time_line (number site message (txt "TIME"))) (mail_options site message)
            here),
      good,
    )

after-check :
    (r : Result ℤ) (lines script : List Text)
    → (r >>=? λ unused. ok lines) ≡ ok script
    → script ≡ lines
after-check (err e) lines script h = absurd (cc)
after-check (ok n) lines script h = cc

no_number :
    (site : Site) (message name : Text)
    → extract_parameter message name none ≡ none
    → number site message name ≡ minus_one
unfolding extract_number
no_number site message name h = rw (h, extract_number) refl

-- A script for LSF from a message without a time has a limit of no minutes.
pub create_submit_script-no_time :
    (site : Site) (conversion : Option Text) (message : Text) (script : List Text)
    → extract_parameter message (txt "TIME") none ≡ none
    → create_submit_script site conversion message ≡ ok script
    → Any (λ line. line ≡ txt "#BSUB -W 0") script
unfolding create_submit_script minutes show_int show_nat
create_submit_script-no_time site conversion message script h returned =
    let P : Text → Type 0 = λ line. line ≡ txt "#BSUB -W 0" in
    let lines =
      resource_lines site message ++ (minutes_line site message ∷ file_lines site message) in
    let same =
      after-check (check_memory (number site message (txt "PROCESSORS_PER_NODE")) conversion) lines
        script returned in
    subst (Any P) (sym same) (
      Any-later P (resource_lines site message)
        (minutes_line site message ∷ file_lines site message)
        (inl (
          ap (λ z. txt "#BSUB -W " ++ show_int (minutes z))
            (no_number site message (txt "TIME") h))))
