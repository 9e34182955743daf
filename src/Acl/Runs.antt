-- ===== src/Acl/Runs.antt =====
-- How many commands a part of lib/ACL.py runs.
use tsi.Base.{◌≡◌, refl, ◌∙◌, [], ◌∷◌, ◌++◌, Bool, true, false, if◌then◌else◌, ◌⊎◌, inl}
use tsi.Base.Exec.{Result, ok, err, Exec, continue, ◌>>=◌}
use tsi.Base.Text.{Text}
use tsi.Acl.{Session}

-- Nothing is run.
pub record Idle {ℓ} {A : Type ℓ} (m : Exec Session A) : Type ℓ where
  pub at : (s : Session) → (m s).1.commands_run ≡ s.commands_run

-- Nothing, or one command where the condition holds.
pub record Once {ℓ} {A : Type ℓ} (P : Type 0) (m : Exec Session A) : Type ℓ where
  pub at :
      (s : Session)
      → ((m s).1.commands_run ≡ s.commands_run)
        ⊎ (P × ((cmd : Text) × ((m s).1.commands_run ≡ s.commands_run ++ cmd ∷ [])))

pub Idle-Once {ℓ} : {A : Type ℓ} {P : Type 0} {m : Exec Session A} → Idle m → Once P m
Idle-Once h = record { at = λ s. inl (h.at s) }

-- What follows a part that runs nothing.
pub then-Once {ℓ κ} :
    {A : Type ℓ} {B : Type κ} {P : Type 0} {m : Exec Session A} {f : A → Exec Session B}
    → Idle m
    → ((a : A) → Once P (f a))
    → Once P (m >>= f)
then-Once {A} {B} {P} {m} {f} first second = record { at = λ s. go s (m s) (first.at s) }
  where
    go :
        (s : Session) (r : Result A × Session)
        → r.1.commands_run ≡ s.commands_run
        → ((continue r.0 f r.1).1.commands_run ≡ s.commands_run)
          ⊎ (P
              × ((cmd : Text) × ((continue r.0 f r.1).1.commands_run ≡ s.commands_run ++ cmd ∷ [])))
    go s (ok a, t) e = rw (← e) ((second a).at t)
    go s (err x, t) e = inl e

pub then-Idle {ℓ κ} :
    {A : Type ℓ} {B : Type κ} {m : Exec Session A} {f : A → Exec Session B}
    → Idle m
    → ((a : A) → Idle (f a))
    → Idle (m >>= f)
then-Idle {A} {B} {m} {f} first second = record { at = λ s. go s (m s) (first.at s) }
  where
    go :
        (s : Session) (r : Result A × Session)
        → r.1.commands_run ≡ s.commands_run
        → (continue r.0 f r.1).1.commands_run ≡ s.commands_run
    go s (ok a, t) e = (second a).at t ∙ e
    go s (err x, t) e = e

pub if-Once {ℓ} :
    {A : Type ℓ} {P : Type 0} (b : Bool) {m n : Exec Session A}
    → (b ≡ true → Once P m)
    → (b ≡ false → Once P n)
    → Once P (if b then m else n)
if-Once true x y = x refl
if-Once false x y = y refl
