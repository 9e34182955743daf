-- ===== src/Io/Reading.antt =====
-- The loop of lib/IO.py that reads a chunk of a file.
use tsi.Base.{
  ◌≡◌, refl, ap, subst, ◌∙◌, ℕ, zero, suc, ◌+◌, ◌-◌, ◌≤◌, ◌<◌, some, ◌++◌, false, arith, take, drop,
  length, length-take, length-drop, length-append, text_eq, nat_eq, nat_beq,
}
use Prim.Native.Nat.{min}
use tsi.Connector.Data.{Bytes}
use tsi.Io.Chunks.{read_file, zeros}
use tsi.Io.Written.{take-all}

pub length-zeros : (n : ℕ) → length (zeros n) ≡ n
length-zeros zero = refl
length-zeros (suc n) = let e = length-zeros n in omega (arith, e)

zero-false : (n : ℕ) → 1 ≤ n → nat_beq n 0 ≡ false
zero-false n h = ground (arith, h)

-- One read.
read-round :
    (amount : ℕ → ℕ) (k : ℕ) (buf rest : Bytes) (total r fuel : ℕ)
    → nat_beq (min (amount k) (min (length buf) (length rest))) 0 ≡ false
    → read_file amount k buf rest total (suc r) (suc fuel) ≡ (
        let read = min (amount k) (min (length buf) (length rest)) in
        read_file amount
          (suc k)
          (take read rest ++ drop read buf)
          (drop read rest)
          (total + read)
          (suc r - read)
          fuel)
unfolding read_file
read-round amount k buf rest total r fuel h = rw (h, read_file) refl

read-step :
    (amount : ℕ → ℕ) (k : ℕ) (buf rest : Bytes) (total r fuel read : ℕ)
    → min (amount k) (min (length buf) (length rest)) ≡ read
    → 1 ≤ read
    → read_file amount k buf rest total (suc r) (suc fuel)
      ≡ read_file amount
          (suc k)
          (take read rest ++ drop read buf)
          (drop read rest)
          (total + read)
          (suc r - read)
          fuel
read-step amount k buf rest total r fuel read e h =
    subst
      (λ d.
        read_file amount k buf rest total (suc r) (suc fuel)
        ≡ read_file amount (suc k) (take d rest ++ drop d buf) (drop d rest) (total + d) (suc r - d)
            fuel)
      e (read-round amount k buf rest total r fuel (ap (λ d. nat_beq d 0) e ∙ zero-false read h))

read-once :
    (amount : ℕ → ℕ) (k : ℕ) (buf rest : Bytes) (total remaining fuel read : ℕ)
    → min (amount k) (min (length buf) (length rest)) ≡ read
    → 1 ≤ read
    → 1 ≤ remaining
    → 1 ≤ fuel
    → read_file amount k buf rest total remaining fuel
      ≡ read_file amount
          (suc k)
          (take read rest ++ drop read buf)
          (drop read rest)
          (total + read)
          (remaining - read)
          (fuel - 1)
read-once amount k buf rest total zero fuel read e h more left = absurd (omega (arith, more))
read-once amount k buf rest total (suc r) zero read e h more left = absurd (omega (arith, left))
read-once amount k buf rest total (suc r) (suc fuel) read e h more left =
    let one : fuel ≡ suc fuel - 1 = omega arith in
    read-step amount k buf rest total r fuel read e h
    ∙ ap
        (λ f.
          read_file amount (suc k) (take read rest ++ drop read buf) (drop read rest) (total + read)
            (suc r - read) f)
        one

-- The loop stops where nothing remains to be read, or the file ends.
read-stop :
    (amount : ℕ → ℕ) (k : ℕ) (buf rest : Bytes) (total remaining fuel : ℕ)
    → min remaining (min (amount k) (min (length buf) (length rest))) ≡ 0
    → remaining ≤ fuel
    → read_file amount k buf rest total remaining fuel ≡ some (buf, total)
unfolding read_file
read-stop amount k buf rest total zero fuel e h = refl
read-stop amount k buf rest total (suc r) zero e h = absurd (omega (arith, h))
read-stop amount k buf rest total (suc r) (suc fuel) e h =
    let none_read : min (amount k) (min (length buf) (length rest)) ≡ 0 = omega (arith, e) in
    rw (none_read, read_file) refl

-- The first read fills the buffer as far as the file goes.
pub read-whole :
    (amount : ℕ → ℕ) (rest : Bytes) (n m : ℕ)
    → n ≤ amount 0
    → min n (length rest) ≡ m
    → read_file amount 0 (zeros n) rest 0 n n ≡ some (take m rest ++ drop m (zeros n), m)
read-whole amount rest n zero h e =
    read-stop amount 0 (zeros n) rest 0 n n (omega (arith, h, e, length-zeros n)) (omega arith)
read-whole amount rest zero (suc m) h e = absurd (omega (arith, e))
read-whole amount rest (suc r) (suc m) h e =
    let buf = take (suc m) rest ++ drop (suc m) (zeros (suc r)) in
    read-step amount 0 (zeros (suc r)) rest 0 r r (suc m)
      (omega (arith, h, e, length-zeros (suc r))) (omega arith)
    ∙ read-stop amount 1 buf (drop (suc m) rest) (0 + suc m) (suc r - suc m) r
        (omega (arith, e, length-drop (suc m) rest)) (omega arith)
    ∙ (let sum : 0 + suc m ≡ suc m = omega arith in ap (λ i. some (buf, i)) sum)

-- Two reads fill the count, and the second one starts at the beginning of the buffer again.
pub read-twice :
    (amount : ℕ → ℕ) (rest : Bytes) (n k : ℕ)
    → length rest ≡ n
    → 1 ≤ k
    → k < n
    → amount 0 ≡ k
    → n ≤ amount 1
    → (end : Bytes) × (length (drop k rest ++ end) ≡ n)
      × (read_file amount 0 (zeros n) rest 0 n n ≡ some (drop k rest ++ end, n))
read-twice amount rest n k size some_read partial first second =
    let zs = length-zeros n in
    let buf = take k rest ++ drop k (zeros n) in
    let long : length buf ≡ n =
      length-append (take k rest) (drop k (zeros n))
      ∙ omega (arith, size, partial, length-take k rest, length-drop k (zeros n), zs) in
    let tail = drop k rest in
    let left : length tail ≡ n - k = omega (arith, size, length-drop k rest) in
    let filled = take (n - k) tail ++ drop (n - k) buf in
    let over : filled ≡ tail ++ drop (n - k) buf =
      ap (λ t. t ++ drop (n - k) buf) (take-all (n - k) tail (omega (arith, left))) in
    let sum : (0 + k) + (n - k) ≡ n = omega (arith, partial) in
    (
      drop (n - k) buf,
      length-append tail (drop (n - k) buf)
          ∙ omega (arith, left, long, partial, length-drop (n - k) buf),
      read-once amount 0 (zeros n) rest 0 n n k (omega (arith, size, partial, first, zs)) some_read
            (omega (arith, partial)) (omega (arith, partial))
          ∙ read-once amount 1 buf tail (0 + k) (n - k) (n - 1) (n - k)
              (omega (arith, long, left, partial, second)) (omega (arith, partial))
              (omega (arith, partial)) (omega (arith, partial, some_read))
          ∙ read-stop amount 2 filled (drop (n - k) tail) ((0 + k) + (n - k)) ((n - k) - (n - k))
              ((n - 1) - 1) (omega arith) (omega arith)
          ∙ ap (λ i. some (filled, i)) sum
          ∙ ap (λ b. some (b, n)) over,
    )
