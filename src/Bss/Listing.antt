-- ===== src/Bss/Listing.antt =====
-- Which state of a job is reported.
use Prim.Native.Nat.{max}
use tsi.Base.{
  ◌⊎◌, ◌≡◌, refl, sym, ap, ◌∙◌, ◌≤◌, ℕ, suc, Option, none, some, List, [], ◌∷◌, Bool, true, false,
  arith,
}
use tsi.Base.{inl, inr, ◌==◌, text_eq, text_beq, text_beq_iff, if◌then◌else◌, ltb, Bool-cases}
use tsi.Base.Dict.{Dict, lookup, insert, lookup-insert}
use tsi.Base.Text.{Text}
use tsi.Bss.{Status, rank, Info, Entry, entry_of, merge, add_line, collect_states}

-- The rank of what is known of a job: 0 for nothing, and else one more than that of its state.
abbrev pub known_rank : Option Entry → ℕ
known_rank none = 0
known_rank (some e) = suc (rank e.ustate)

module _ (convert_status : Text → Status) where
  -- The highest rank that a job has among the lines.
  pub highest : Text → List (Option Info) → ℕ
  highest bssid [] = 0
  highest bssid (none ∷ lines) = highest bssid lines
  highest bssid (some info ∷ lines) =
      let rest = highest bssid lines in
      if info.bssid == bssid then max (suc (rank (convert_status info.state))) rest else rest

  known_rank-insert :
      (b bssid : Text) (new : Entry) (states : Dict Text Entry)
      → known_rank (lookup b (insert bssid new states))
        ≡ (if text_beq bssid b then suc (rank new.ustate) else known_rank (lookup b states))
  known_rank-insert b bssid new states =
      ap known_rank (lookup-insert bssid b new states) ∙ push (text_beq bssid b)
    where
      push :
          (x : Bool)
          → known_rank (if x then some new else lookup b states)
            ≡ (if x then suc (rank new.ustate) else known_rank (lookup b states))
      push true = refl
      push false = refl

  known_rank-kept :
      (b bssid : Text) (have new : Entry) (states : Dict Text Entry)
      → lookup bssid states ≡ some have
      → rank new.ustate ≤ rank have.ustate
      → known_rank (lookup b states) ≡ (
          if text_beq bssid b
          then max (suc (rank have.ustate)) (suc (rank new.ustate))
          else known_rank (lookup b states))
  known_rank-kept b bssid have new states h le = elim (Bool-cases (text_beq bssid b)) [
    | inl e ↦ rw e (
        ap (λ x. known_rank (lookup x states)) (sym ((text_beq_iff bssid b).0 e))
        ∙ ap known_rank h
        ∙ omega (arith, le))
    | inr e ↦ rw e refl
  ]

  known_rank-merge :
      (b bssid : Text) (new : Entry) (have : Option Entry) (states : Dict Text Entry)
      → lookup bssid states ≡ have
      → known_rank (lookup b (merge convert_status bssid new have states)) ≡ (
          if text_beq bssid b
          then max (known_rank have) (suc (rank new.ustate))
          else known_rank (lookup b states))
  unfolding merge
  known_rank-merge b bssid new none states h = ground (arith, known_rank-insert b bssid new states)
  known_rank-merge b bssid new (some have) states h =
      elim (Bool-cases (ltb (rank have.ustate) (rank new.ustate))) [
        | inl e ↦
            rw (e, merge)
              (known_rank-insert b bssid new states
                ∙ ap (λ n. if text_beq bssid b then n else known_rank (lookup b states))
                    (ground arith))
        | inr e ↦ rw (e, merge) (known_rank-kept b bssid have new states h (ground arith))
      ]

  -- The rank of a line joins those of the rest.
  absorb :
      (b : Text) (info : Info) (lines : List (Option Info)) (states : Dict Text Entry)
      → (text_beq info.bssid b ≡ true) ⊎ (text_beq info.bssid b ≡ false)
      → max
          (if text_beq info.bssid b
            then max
                (known_rank (lookup info.bssid states))
                (suc (rank (convert_status info.state)))
            else known_rank (lookup b states))
          (highest b lines)
        ≡ max (known_rank (lookup b states)) (highest b (some info ∷ lines))
  unfolding highest
  absorb b info lines states (inl e) =
      let same = ap (λ x. known_rank (lookup x states)) ((text_beq_iff info.bssid b).0 e) in
      rw e (omega (arith, same))
  absorb b info lines states (inr e) = rw e (omega arith)

  known_rank-collect :
      (b : Text) (lines : List (Option Info)) (states : Dict Text Entry)
      → known_rank (lookup b (collect_states convert_status lines states))
        ≡ max (known_rank (lookup b states)) (highest b lines)
  unfolding collect_states highest add_line
  known_rank-collect b [] states = omega arith
  known_rank-collect b (none ∷ lines) states = known_rank-collect b lines states
  known_rank-collect b (some info ∷ lines) states =
      let new = entry_of convert_status info in
      let merged = known_rank-merge b info.bssid new (lookup info.bssid states) states refl in
      known_rank-collect b lines (add_line convert_status (some info) states)
      ∙ ap (λ n. max n (highest b lines)) merged
      ∙ absorb b info lines states (Bool-cases (text_beq info.bssid b))

-- A job has an entry exactly if a line names it, and the entry has the highest state, in the order
-- COMPLETED, QUEUED, SUSPENDED, RUNNING, UNKNOWN, that any of its lines has.
pub collect_states-highest :
    (convert_status : Text → Status) (b : Text) (lines : List (Option Info))
    → known_rank (lookup b (collect_states convert_status lines []))
      ≡ highest convert_status b lines
unfolding lookup
collect_states-highest convert_status b lines =
    known_rank-collect convert_status b lines [] ∙ omega arith
