-- ===== src/Acl/Support.antt =====
-- Which kind of access control lists lib/ACL.py's check_support finds for a path.
use tsi.Base.{
  ◌≡◌, refl, sym, ap, subst, ℕ, ◌≤◌, ◌<◌, ◌⊎◌, inl, inr, List, [], ◌∷◌, arith, All, Any, Any-map,
  ltb, Bool-cases,
}
use tsi.Base.Text.{Text, txt}
use tsi.Acl.{Site, size, best_match, check_support}

module _ (site : Site) (path : Text) where
  -- Not longer than this.
  abbrev pub AtMost : ℕ → List (Text × Text) → Type 0
  AtMost n = All (λ e. size site path e.0 ≤ n)

  -- The best match so far is one of the entries, or it is what the search began with.
  abbrev From : ℕ × Text → List (Text × Text) → ℕ × Text → Type 0
  From start entries best =
      ((start.0 < best.0) × Any (λ e. (size site path e.0 ≡ best.0) × (e.1 ≡ best.1)) entries)
      ⊎ best ≡ start

  Best : List (Text × Text) → ℕ × Text → ℕ × Text → Type 0
  Best entries start best = (start.0 ≤ best.0) × AtMost best.0 entries × From start entries best

  longer-Best :
      (key kind : Text) (more : List (Text × Text)) (start best : ℕ × Text)
      → start.0 < size site path key
      → Best more (size site path key, kind) best
      → Best ((key, kind) ∷ more) start best
  unfolding Best
  longer-Best key kind more start best less (grown, others, inl (more_than, found)) =
      (omega (arith, less, grown), (grown, others), inl (omega (arith, less, more_than), inr found))
  longer-Best key kind more start best less (grown, others, inr same) = (
    omega (arith, less, grown),
    (grown, others),
    inl (
      omega (arith, less, ap (λ b. b.0) same),
      inl (sym (ap (λ b. b.0) same), sym (ap (λ b. b.1) same)),
    ),
  )

  shorter-Best :
      (key kind : Text) (more : List (Text × Text)) (start best : ℕ × Text)
      → size site path key ≤ start.0
      → Best more start best
      → Best ((key, kind) ∷ more) start best
  unfolding Best
  shorter-Best key kind more start best less (grown, others, inl (more_than, found)) =
      (grown, (omega (arith, less, grown), others), inl (more_than, inr found))
  shorter-Best key kind more start best less (grown, others, inr same) =
      (grown, (omega (arith, less, grown), others), inr same)

  best_match-Best :
      (entries : List (Text × Text)) (start : ℕ × Text)
      → Best entries start (best_match site path entries start)
  unfolding best_match Best
  best_match-Best [] start = (omega arith, tt, inr refl)
  best_match-Best ((key, kind) ∷ more) start =
      elim (Bool-cases (ltb start.0 (size site path key))) [
        | inl e ↦
            let same : best_match site path ((key, kind) ∷ more) start
                ≡ best_match site path more (size site path key, kind) =
              rw (e, best_match) refl in
            subst (Best ((key, kind) ∷ more) start) (sym same) (
              longer-Best key kind more start (best_match site path more (size site path key, kind))
                (ground (arith, e)) (best_match-Best more (size site path key, kind)))
        | inr e ↦
            let same : best_match site path ((key, kind) ∷ more) start
                ≡ best_match site path more start =
              rw (e, best_match) refl in
            subst (Best ((key, kind) ∷ more) start) (sym same) (
              shorter-Best key kind more start (best_match site path more start) (ground (arith, e))
                (best_match-Best more start))
      ]

-- The kind of lists that is found for a path is that of an entry of the configuration whose match is at
-- least as long as that of every entry and not empty, or there is no match at all and the kind is NONE.
pub check_support-longest :
    (site : Site) (path : Text)
    → Any
        (λ e.
          (e.1 ≡ check_support site path)
          × (1 ≤ size site path e.0)
          × AtMost site path (size site path e.0) site.acl)
        site.acl
      ⊎ ((check_support site path ≡ txt "NONE") × AtMost site path 0 site.acl)
unfolding check_support Best
check_support-longest site path =
    conclude (best_match site path site.acl (0, txt "NONE"))
      (best_match-Best site path site.acl (0, txt "NONE"))
  where
    conclude :
        (best : ℕ × Text)
        → Best site path site.acl (0, txt "NONE") best
        → Any
            (λ e.
              (e.1 ≡ best.1)
              × (1 ≤ size site path e.0)
              × AtMost site path (size site path e.0) site.acl)
            site.acl
          ⊎ ((best.1 ≡ txt "NONE") × AtMost site path 0 site.acl)
    conclude best (grown, others, inr none_found) = inr (
      ap (λ b. b.1) none_found,
      subst (λ i. AtMost site path i site.acl) (ap (λ b. b.0) none_found) others,
    )
    conclude best (grown, others, inl (some_match, found)) = inl (
        Any-map (λ e. (size site path e.0 ≡ best.0) × (e.1 ≡ best.1))
          (λ e.
            (e.1 ≡ best.1)
            × (1 ≤ size site path e.0)
            × AtMost site path (size site path e.0) site.acl)
          site.acl
          (λ e (long, kind). (
            kind,
            omega (arith, long, some_match),
            subst (λ i. AtMost site path i site.acl) (sym long) others,
          ))
          found)
