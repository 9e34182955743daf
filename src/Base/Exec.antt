-- ===== src/Base/Exec.antt =====
-- Code that mutates a state and may raise: what was written before a raise stays written, so the
-- state comes back beside the error too.
use mathlib.Core.Path.{◌≡◌, refl, ap}
use mathlib.Core.List.{List}
use Prim.Native.Nat.{ℕ}
use tsi.Base.Int.{ℤ}

-- The errors that the program raises itself. A constructor stands for one message, with the values
-- that the message shows.
pub data Reason : Type 0 where
  root_without_switching : Reason
  unknown_user root_requested unknown_primary_group unknown_supplementary_group : List ℕ → Reason
  not_a_member : List ℕ → List ℕ → Reason
  uid_not_set gid_not_set : List ℕ → ℤ → Reason
  groups_not_set : List ℕ → List ℤ → List ℤ → Reason
  no_identity : Reason

-- The exceptions that the program raises or lets through.
pub data Error : Type 0 where
  runtime_error : Reason → Error
  key_error value_error type_error index_error os_error attribute_error zero_division_error : Error

pub data Result {ℓ} (A : Type ℓ) : Type ℓ where
  ok : A → Result A
  err : Error → Result A

infixl 6 ◌>>=?◌
abbrev pub ◌>>=?◌ {ℓ κ} : {A : Type ℓ} {B : Type κ} → Result A → (A → Result B) → Result B
ok a >>=? f = f a
err e >>=? f = err e

abbrev pub Exec {ℓ κ} : Type ℓ → Type κ → Type (ℓ ⊔ κ)
Exec S A = S → Result A × S

module _ {ℓ κ} {S : Type ℓ} {A : Type κ} where
  abbrev pub pure : A → Exec S A
  pure a s = (ok a, s)

  abbrev pub throw : Error → Exec S A
  throw e s = (err e, s)

  abbrev pub gets : (S → A) → Exec S A
  gets f s = (ok (f s), s)

module _ {ℓ κ μ} {S : Type ℓ} {A : Type κ} {B : Type μ} where
  abbrev pub continue : Result A → (A → Exec S B) → Exec S B
  continue (ok a) f s = f a s
  continue (err e) f s = (err e, s)

  infixl 5 ◌>>=◌ ◌>>◌
  abbrev pub ◌>>=◌ : Exec S A → (A → Exec S B) → Exec S B
  ◌>>=◌ m f s = let r = m s in continue r.0 f r.1

  -- The result of the first part is not used.
  abbrev pub ◌>>◌ : Exec S A → Exec S B → Exec S B
  first >> second = first >>= λ unused. second

  -- A chain that returned went through its first part.
  pub >>=-ok :
      (m : Exec S A) (f : A → Exec S B) {s t : S} {b : B}
      → (m >>= f) s ≡ (ok b, t)
      → (a : A) × (s' : S) × (m s ≡ (ok a, s')) × (f a s' ≡ (ok b, t))
  >>=-ok m f {s} {t} {b} h = go (m s) refl h
    where
      go :
          (r : Result A × S)
          → m s ≡ r
          → continue r.0 f r.1 ≡ (ok b, t)
          → (a : A) × (s' : S) × (m s ≡ (ok a, s')) × (f a s' ≡ (ok b, t))
      go (ok a, s') e h = (a, s', e, h)
      go (err x, s') e h = cc

  -- The first part's result is handed on.
  pub >>=-step :
      (m : Exec S A) (f : A → Exec S B) (s : S) {s' : S} {a : A}
      → m s ≡ (ok a, s')
      → (m >>= f) s ≡ f a s'
  >>=-step m f s e = ap (λ r. continue r.0 f r.1) e

-- Whatever the result, a run from a state with `P` ends in one with `Q`.
pub record Leads {ℓ κ} {S : Type ℓ} {A : Type κ} (P Q : S → Type 0) (m : Exec S A) : Type ℓ where
  pub at : (s : S) → P s → Q (m s).1

pub Leads-bind {ℓ κ μ} :
    {S : Type ℓ} {A : Type κ} {B : Type μ} (P R Q : S → Type 0) {m : Exec S A} {f : A → Exec S B}
    → Leads P R m
    → ((a : A) → Leads R Q (f a))
    → ((s : S) → R s → Q s)
    → Leads P Q (m >>= f)
Leads-bind {S} {A} {B} P R Q {m} {f} hm hf out = record { at = λ s p. go (m s) (hm.at s p) }
  where
    go : (r : Result A × S) → R r.1 → Q (continue r.0 f r.1).1
    go (ok a, t) h = (hf a).at t h
    go (err e, t) h = out t h
