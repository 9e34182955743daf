-- ===== src/Io/Written.antt =====
-- The loops of lib/IO.py around partial writes.
use tsi.Base.{
  ◌≡◌, refl, sym, ap, ◌∙◌, ℕ, zero, suc, ◌+◌, ◌-◌, ◌≤◌, some, List, [], ◌∷◌, ◌++◌, arith, take,
  drop, length, length-take, length-drop, take-append-drop,
}
use Prim.Native.Nat.{min}
use mathlib.Core.List.{append_assoc, append-nil}
use tsi.Connector.Data.{Bytes, slice, write_out}

-- Every transfer moves something.
abbrev pub Advancing : (ℕ → ℕ) → Type 0
Advancing amount = (n : ℕ) → 1 ≤ amount n

pub drop-all : {A : Type 0} (n : ℕ) (xs : List A) → length xs ≤ n → drop n xs ≡ []
drop-all zero [] h = refl
drop-all zero (x ∷ xs) h = absurd (omega (arith, h))
drop-all (suc n) [] h = refl
drop-all (suc n) (x ∷ xs) h = drop-all n xs (omega (arith, h))

pub take-all : {A : Type 0} (n : ℕ) (xs : List A) → length xs ≤ n → take n xs ≡ xs
take-all zero [] h = refl
take-all zero (x ∷ xs) h = absurd (omega (arith, h))
take-all (suc n) [] h = refl
take-all (suc n) (x ∷ xs) h = ap (λ ys. x ∷ ys) (take-all n xs (omega (arith, h)))

drop-nil : (A : Type 0) (n : ℕ) → drop {A = A} n [] ≡ []
drop-nil A n = drop-all n [] (omega arith)

pub drop-drop : {A : Type 0} (n k : ℕ) (xs : List A) → drop k (drop n xs) ≡ drop (n + k) xs
drop-drop zero k xs = let e : k ≡ 0 + k = omega arith in ap (λ i. drop i xs) e
drop-drop {A} (suc n) k [] = drop-nil A k ∙ sym (drop-nil A (suc n + k))
drop-drop (suc n) k (x ∷ xs) =
    let e : suc (n + k) ≡ suc n + k = omega arith in drop-drop n k xs ∙ ap (λ i. drop i (x ∷ xs)) e

length-slice :
    (buf : Bytes) (offset total : ℕ)
    → total ≤ length buf
    → length (slice buf offset total) ≡ total - offset
length-slice buf offset total h =
    length-drop offset (take total buf) ∙ omega (arith, h, length-take total buf)

-- One write, and the rest of the slice.
join-slice :
    (buf sink : Bytes) (offset total w : ℕ)
    → (sink ++ take w (slice buf offset total)) ++ slice buf (offset + w) total
      ≡ sink ++ slice buf offset total
join-slice buf sink offset total w =
    append_assoc sink (take w (slice buf offset total)) (slice buf (offset + w) total)
    ∙ ap (λ r. sink ++ (take w (slice buf offset total) ++ r))
        (sym (drop-drop offset w (take total buf)))
    ∙ ap (λ r. sink ++ r) (take-append-drop w (slice buf offset total))

-- The loop around partial writes ends, and all of the slice has been written in its order.
pub write_out-whole :
    (amount : ℕ → ℕ) (buf : Bytes) (total k offset : ℕ) (sink : Bytes) (must fuel : ℕ)
    → Advancing amount
    → total ≤ length buf
    → offset + must ≡ total
    → must ≤ fuel
    → (k' : ℕ) × (write_out amount buf total k offset sink must fuel
        ≡ some (k', sink ++ slice buf offset total))
unfolding write_out
write_out-whole amount buf total k offset sink zero fuel moves fits sum enough = (
  k,
  ap (λ r. some (k, r))
      (sym (
        ap (λ r. sink ++ r)
          (drop-all offset (take total buf) (omega (arith, sum, length-take total buf)))
        ∙ append-nil sink)),
)
write_out-whole amount buf total k offset sink (suc m) zero moves fits sum enough =
    absurd (omega (arith, enough))
write_out-whole amount buf total k offset sink (suc m) (suc fuel) moves fits sum enough =
    let w = min (amount k) (length (slice buf offset total)) in
    let long = length-slice buf offset total fits in
    let (k', e) =
      write_out-whole amount buf total (suc k) (offset + w)
        (sink ++ take w (slice buf offset total)) (suc m - w) fuel moves fits
        (omega (arith, sum, long, moves k)) (omega (arith, enough, sum, long, moves k)) in
    (k', e ∙ ap (λ r. some (k', r)) (join-slice buf sink offset total w))
