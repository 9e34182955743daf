-- ===== src/Bss/Children.antt =====
-- Which child processes stay in the list.
use tsi.Base.{◌≡◌, ◌≢◌, refl, ℕ, zero, suc, List, [], ◌∷◌, true, arith}
use tsi.Base.{inl, inr, contains, length, Option-cases, int_eq}
use tsi.Base.Int.{ℤ, int_beq_iff}
use tsi.Bss.{
  Waited, ended, running, no_child, is_finished, child_at, remove, reap, cleanup_from, cleanup,
}

contains-remove :
    (c p : ℤ) (cs : List ℤ) → p ≢ c → contains cs p ≡ true → contains (remove c cs) p ≡ true
unfolding remove contains
contains-remove c p [] n h = h
contains-remove c p (x ∷ cs) n h =
    ground (arith, contains-remove c p cs n, int_beq_iff x c, int_beq_iff p x, int_beq_iff p c)

module _ (waitpid : ℤ → Waited) where
  running-reap :
      (c p : ℤ) (cs : List ℤ)
      → waitpid p ≡ running
      → contains cs p ≡ true
      → contains (reap (is_finished (waitpid c)) c cs) p ≡ true
  unfolding reap
  running-reap c p cs r h = go (waitpid c) refl
    where
      go : (w : Waited) → waitpid c ≡ w → contains (reap (is_finished w) c cs) p ≡ true
      go ended e = contains-remove c p cs (λ same. cc) h
      go running e = h
      go no_child e = contains-remove c p cs (λ same. cc) h

  running-cleanup_from :
      (n i : ℕ) (p : ℤ) (cs : List ℤ)
      → waitpid p ≡ running
      → contains cs p ≡ true
      → contains (cleanup_from waitpid n i cs) p ≡ true
  unfolding cleanup_from
  running-cleanup_from zero i p cs r h = h
  running-cleanup_from (suc n) i p cs r h = elim (Option-cases (child_at i cs)) [
    | inl e ↦ rw (e, cleanup_from) h
    | inr (c, e) ↦
        rw (e, cleanup_from)
          (running-cleanup_from n (suc i) p (reap (is_finished (waitpid c)) c cs) r
            (running-reap c p cs r h))
  ]

-- A child that still runs stays in the list of children.
pub cleanup-running :
    (waitpid : ℤ → Waited) (children : List ℤ) (p : ℤ)
    → waitpid p ≡ running
    → contains children p ≡ true
    → contains (cleanup waitpid children) p ≡ true
unfolding cleanup
cleanup-running waitpid children p r h =
    running-cleanup_from waitpid (length children) 0 p children r h
