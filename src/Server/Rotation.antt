-- ===== src/Server/Rotation.antt =====
-- The rotation through the range of local ports.
use tsi.Base.{
  ◌≡◌, refl, sym, ap, ◌∙◌, ℕ, zero, suc, ◌+◌, ◌-◌, ◌≤◌, ◌<◌, ◌⊎◌, inl, inr, false, arith,
  if◌then◌else◌,
}
use tsi.Base.{leb, subst, leb→le, Bool-cases}
use tsi.Base.Int.{ℤ, pos}
use tsi.Server.Ports.{
  PortRange, Attempt, connected, address_in_use, refused, Opened, from_port, os_failure,
  no_free_port, next_port, try_ports, open_connection,
}

abbrev pub range_of : ℕ → ℕ → ℕ → PortRange
range_of a b p = record { local_port = pos p; lower = pos a; upper = pos b }

-- The port after `q` in the rotation.
abbrev pub next : ℕ → ℕ → ℕ → ℕ
next a b q = if leb (suc q) b then suc q else a

-- The port after `i` steps.
rotated : ℕ → ℕ → ℕ → ℕ → ℕ
rotated a b zero q = q
rotated a b (suc i) q = rotated a b i (next a b q)

-- What each outcome means for a range from `a` to `b` that began at `p`.
abbrev pub Honest : (ℕ → ℤ → Attempt) → ℕ → ℕ → ℕ → Opened → PortRange → Type 0
Honest attempt a b p (from_port c) r =
    (q : ℕ) × (j : ℕ) × (c ≡ pos q)
    × (a ≤ q)
    × (q ≤ b)
    × (attempt j (pos q) ≡ connected)
    × (r ≡ range_of a b (next a b q))
Honest attempt a b p os_failure r = r ≡ range_of a b p
Honest attempt a b p no_free_port r = r ≡ range_of a b p

module _ (attempt : ℕ → ℤ → Attempt) (r : PortRange) (n k : ℕ) (c : ℤ) where
  try_ports-connected :
      attempt k c ≡ connected
      → try_ports attempt r (suc n) k c ≡ (from_port c, record r { local_port = next_port r c })
  unfolding try_ports
  try_ports-connected e = rw (e, try_ports) refl

  try_ports-refused : attempt k c ≡ refused → try_ports attempt r (suc n) k c ≡ (os_failure, r)
  unfolding try_ports
  try_ports-refused e = rw (e, try_ports) refl

  try_ports-in_use :
      attempt k c ≡ address_in_use
      → try_ports attempt r (suc n) k c ≡ try_ports attempt r n (suc k) (next_port r c)
  unfolding try_ports
  try_ports-in_use e = rw (e, try_ports) refl

Attempt-cases : (o : Attempt) → (o ≡ connected) ⊎ ((o ≡ address_in_use) ⊎ (o ≡ refused))
Attempt-cases connected = inl refl
Attempt-cases address_in_use = inr (inl refl)
Attempt-cases refused = inr (inr refl)

next_port-pos : (a b p q : ℕ) → next_port (range_of a b p) (pos q) ≡ pos (next a b q)
next_port-pos a b p q = ground arith

next-bounds : (a b q : ℕ) → a ≤ b → a ≤ q → (a ≤ next a b q) × (next a b q ≤ b)
next-bounds a b q w l = ground (arith, leb→le (suc q) b)

try_ports-none :
    (attempt : ℕ → ℤ → Attempt) (r : PortRange) (k : ℕ) (c : ℤ)
    → try_ports attempt r zero k c ≡ (no_free_port, r)
unfolding try_ports
try_ports-none attempt r k c = refl

module _ (attempt : ℕ → ℤ → Attempt) (a b : ℕ) where
  abbrev search : ℕ → ℕ → ℕ → ℕ → Opened × PortRange
  search p n k q = try_ports attempt (range_of a b p) n k (pos q)

  abbrev HonestRun : ℕ → Opened × PortRange → Type 0
  HonestRun p o = Honest attempt a b p o.0 o.1

  stepped :
      (n k q : ℕ)
      → attempt k (pos q) ≡ address_in_use
      → (p : ℕ) → search p (suc n) k q ≡ search p n (suc k) (next a b q)
  stepped n k q e p =
      try_ports-in_use attempt (range_of a b p) n k (pos q) e
      ∙ ap (try_ports attempt (range_of a b p) n (suc k)) (next_port-pos a b p q)

  try_ports-Honest : (p n k q : ℕ) → a ≤ b → a ≤ q → q ≤ b → HonestRun p (search p n k q)
  try_ports-Honest p zero k q w l u =
      subst (HonestRun p) (sym (try_ports-none attempt (range_of a b p) k (pos q))) refl
  try_ports-Honest p (suc n) k q w l u = elim (Attempt-cases (attempt k (pos q))) [
    | inl e ↦
        subst (HonestRun p) (sym (try_ports-connected attempt (range_of a b p) n k (pos q) e)) (
          q,
          k,
          refl,
          l,
          u,
          e,
          ap (λ x. record (range_of a b p) { local_port = x }) (next_port-pos a b p q),
        )
    | inr (inl e) ↦ subst (HonestRun p) (sym (stepped n k q e p)) (
        try_ports-Honest p n (suc k) (next a b q) w (next-bounds a b q w l).0
          (next-bounds a b q w l).1)
    | inr (inr e) ↦
        subst (HonestRun p) (sym (try_ports-refused attempt (range_of a b p) n k (pos q) e)) refl
  ]

  -- Every attempt of a search that gives up met a port in use, in the order of the rotation.
  try_ports-all_in_use :
      (p n k q : ℕ)
      → (search p n k q).0 ≡ no_free_port
      → (i : ℕ) → i < n
      → attempt (k + i) (pos (rotated a b i q)) ≡ address_in_use
  unfolding rotated
  try_ports-all_in_use p zero k q h i less = absurd (omega arith)
  try_ports-all_in_use p (suc n) k q h zero less = elim (Attempt-cases (attempt k (pos q))) [
    | inl e ↦
        absurd (cc (ap (λ o. o.0) (try_ports-connected attempt (range_of a b p) n k (pos q) e), h))
    | inr (inl e) ↦ subst (λ j. attempt j (pos q) ≡ address_in_use) (omega arith) e
    | inr (inr e) ↦
        absurd (cc (ap (λ o. o.0) (try_ports-refused attempt (range_of a b p) n k (pos q) e), h))
  ]
  try_ports-all_in_use p (suc n) k q h (suc i) less = elim (Attempt-cases (attempt k (pos q))) [
    | inl e ↦
        absurd (cc (ap (λ o. o.0) (try_ports-connected attempt (range_of a b p) n k (pos q) e), h))
    | inr (inl e) ↦
        subst (λ j. attempt j (pos (rotated a b i (next a b q))) ≡ address_in_use) (omega arith)
          (try_ports-all_in_use p n (suc k) (next a b q)
            (sym (ap (λ o. o.0) (stepped n k q e p)) ∙ h) i (omega arith))
    | inr (inr e) ↦
        absurd (cc (ap (λ o. o.0) (try_ports-refused attempt (range_of a b p) n k (pos q) e), h))
  ]

rotated-up : (a b i q : ℕ) → q + i ≤ b → rotated a b i q ≡ q + i
unfolding rotated
rotated-up a b zero q h = omega arith
rotated-up a b (suc i) q h = ground (arith, rotated-up a b i (suc q))

rotated-split : (a b i j q : ℕ) → rotated a b (i + j) q ≡ rotated a b j (rotated a b i q)
unfolding rotated
rotated-split a b zero j q = let e : zero + j ≡ j = omega arith in ap (λ n. rotated a b n q) e
rotated-split a b (suc i) j q =
    let e : suc i + j ≡ suc (i + j) = omega arith in
    ap (λ n. rotated a b n q) e ∙ rotated-split a b i j (next a b q)

-- From the highest port the rotation goes back to the lowest.
rotated-wrap : (a b j : ℕ) → rotated a b (suc j) b ≡ rotated a b j a
unfolding rotated
rotated-wrap a b j = ap (rotated a b j) (ground arith)

-- Within as many steps as there are ports, the rotation comes to every port.
rotated-visits :
    (a b p c : ℕ)
    → a ≤ p
    → p ≤ b
    → a ≤ c
    → c ≤ b
    → (i : ℕ) × (i < b + 1 - a) × (rotated a b i p ≡ c)
rotated-visits a b p c ap' pb ac cb = elim (Bool-cases (leb p c)) [
  | inl e ↦
      let le = leb→le p c e in
      (c - p, omega arith, rotated-up a b (c - p) p (omega arith) ∙ omega arith)
  | inr e ↦
      let less = not_leb p c e in
      (
        (b - p) + suc (c - a),
        omega arith,
        rotated-split a b (b - p) (suc (c - a)) p
            ∙ ap (rotated a b (suc (c - a))) (rotated-up a b (b - p) p (omega arith) ∙ omega arith)
            ∙ rotated-wrap a b (c - a)
            ∙ rotated-up a b (c - a) a (omega arith)
            ∙ omega arith,
      )
]
  where
    not_leb : (m n : ℕ) → leb m n ≡ false → n < m
    not_leb m n h = ground arith

open_connection-search :
    (attempt : ℕ → ℤ → Attempt) (a b p : ℕ)
    → 0 < p
    → open_connection attempt (range_of a b p)
      ≡ try_ports attempt (range_of a b p) (b + 1 - a) 0 (pos p)
unfolding open_connection
open_connection-search attempt a b p h = ground arith

-- With a range of positive local ports from `a` to `b` and a first port `p` of that range, a socket that
-- `open_connection` returns was connected from a port of the range, and the next search begins with
-- the port after it, or with the lowest after the highest. On the two errors the range stays as it was.
pub open_connection-Honest :
    (attempt : ℕ → ℤ → Attempt) (a b p : ℕ)
    → 0 < a
    → a ≤ p
    → p ≤ b
    → let out = open_connection attempt (range_of a b p) in Honest attempt a b p out.0 out.1
open_connection-Honest attempt a b p h l u =
    subst (λ o. Honest attempt a b p o.0 o.1)
      (sym (open_connection-search attempt a b p (omega arith)))
      (try_ports-Honest attempt a b p (b + 1 - a) 0 p (omega arith) l u)

-- With a range of positive local ports from `a` to `b` and a first port `p` of that range: if
-- `open_connection` reports that no port is free, then it has tried every port of the range and has
-- met each of them in use.
pub open_connection-no_free_port :
    (attempt : ℕ → ℤ → Attempt) (a b p c : ℕ)
    → 0 < a
    → a ≤ p
    → p ≤ b
    → a ≤ c
    → c ≤ b
    → (open_connection attempt (range_of a b p)).0 ≡ no_free_port
    → (j : ℕ) × (attempt j (pos c) ≡ address_in_use)
open_connection-no_free_port attempt a b p c h l u l' u' none_free =
    let (i, less, at_c) = rotated-visits a b p c l u l' u' in
    let gave_up =
      sym (ap (λ o. o.0) (open_connection-search attempt a b p (omega arith))) ∙ none_free in
    (
      0 + i,
      subst (λ x. attempt (0 + i) (pos x) ≡ address_in_use) at_c
          (try_ports-all_in_use attempt a b p (b + 1 - a) 0 p gave_up i less),
    )
