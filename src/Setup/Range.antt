-- ===== src/Setup/Range.antt =====
-- The range of local ports that the setting gives.
use tsi.Base.{
  ◌≢◌, ◌≡◌, refl, sym, ap, ◌∙◌, ℕ, ◌<◌, Option, none, some, List, [], ◌∷◌, Bool, true, false, arith,
}
use tsi.Base.{ltb→lt}
use tsi.Base.Int.{ℤ, pos, negsuc, is_positive, int_leb, minus_one}
use tsi.Base.Text.{Text, split, strip, parse_int}
use tsi.Server.Ports.{PortRange}
use tsi.Server.Rotation.{range_of}
use tsi.Setup.{range_unless, checked_range, range_of_pieces, setup_portrange}

-- A range of positive ports that begins with its lowest.
abbrev pub Proper : PortRange → Type 0
Proper r = (a : ℕ) × (b : ℕ) × (0 < a) × (a < b) × (r ≡ range_of a b a)

range_unless-some :
    (b : Bool) (l u : ℤ) (r : PortRange)
    → range_unless b l u ≡ some r
    → (b ≡ false) × (r ≡ record { local_port = l; lower = l; upper = u })
unfolding range_unless
range_unless-some true l u r h = absurd (cc)
range_unless-some false l u r h = (refl, cc)

proper :
    (l u : ℤ)
    → int_leb u l ≡ false
    → is_positive l ≡ true
    → (r : PortRange) → r ≡ record { local_port = l; lower = l; upper = u }
    → Proper r
proper (negsuc l) u above p r e = absurd (cc)
proper (pos l) (negsuc u) above p r e = absurd (cc)
proper (pos l) (pos u) above p r e = (l, u, ltb→lt 0 l p, ground arith, e)

checked_range-Proper :
    (l u : Option ℤ) (r : PortRange)
    → checked_range l u ≡ some r
    → is_positive r.local_port ≡ true
    → Proper r
unfolding checked_range
checked_range-Proper none u r h p = absurd (cc)
checked_range-Proper (some l) none r h p = absurd (cc)
checked_range-Proper (some l) (some u) r h p =
    let (above, e) = range_unless-some (int_leb u l) l u r h in
    proper l u above (sym (ap (λ (x : PortRange). is_positive x.local_port) e) ∙ p) r e

range_of_pieces-Proper :
    (pieces : List Text) (r : PortRange)
    → range_of_pieces pieces ≡ some r
    → is_positive r.local_port ≡ true
    → Proper r
unfolding range_of_pieces
range_of_pieces-Proper [] r h p = absurd (cc)
range_of_pieces-Proper (l ∷ []) r h p = absurd (cc)
range_of_pieces-Proper (l ∷ u ∷ []) r h p = checked_range-Proper (parse_int l) (parse_int u) r h p
range_of_pieces-Proper (l ∷ u ∷ x ∷ more) r h p = absurd (cc)

-- A setting that is accepted and switches the use of a range on, since its first port is positive,
-- gives a range of positive ports with its lowest below its highest, from which the search for a local
-- port begins with the lowest.
pub setup_portrange-Proper :
    (spec : Option Text) (r : PortRange)
    → setup_portrange spec ≡ some r
    → is_positive r.local_port ≡ true
    → Proper r
unfolding setup_portrange
setup_portrange-Proper none r h p = absurd (no_range r h p)
  where
    no_range :
        (x : PortRange)
        → some (record { local_port = pos 0; lower = minus_one; upper = minus_one }) ≡ some x
        → is_positive x.local_port ≢ true
    no_range x e q = absurd (
        cc (
          ap (λ (o : Option PortRange). elim o [ none ↦ false | some y ↦ is_positive y.local_port ])
              e,
          q,
        ))
setup_portrange-Proper (some spec) r h p = range_of_pieces-Proper (split b':' (strip spec)) r h p
