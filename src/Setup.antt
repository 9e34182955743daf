-- ===== src/Setup.antt =====
-- lib/TSI.py: what `finish_setup` makes of the settings.
pub mod Machines
pub mod Range
pub mod ConfigFile
pub mod Flags
pub mod Reading
pub mod WholeFile
mod Tests
use tsi.Base.{
  Option, none, some, List, [], ◌∷◌, ◌++◌, Bool, true, false, ◌==◌, text_eq, contains,
  if◌then◌else◌,
}
use tsi.Base.Int.{ℤ, pos, minus_one, int_leb}
use tsi.Base.Text.{Text, strip, split, parse_int}
use tsi.Server.Ports.{PortRange}

range_unless : Bool → ℤ → ℤ → Option PortRange
range_unless true l u = none
range_unless false l u = some (record { local_port = l; lower = l; upper = u })

-- `if upper<=lower: raise Exception()`
checked_range : Option ℤ → Option ℤ → Option PortRange
checked_range (some l) (some u) = range_unless (int_leb u l) l u
checked_range (some l) none = none
checked_range none u = none

-- Exactly two pieces.
range_of_pieces : List Text → Option PortRange
range_of_pieces (l ∷ u ∷ []) = checked_range (parse_int l) (parse_int u)
range_of_pieces [] = none
range_of_pieces (l ∷ []) = none
range_of_pieces (l ∷ u ∷ x ∷ more) = none

-- `none` in the result is the `Exception` that the setting is invalid.
unfoldable pub setup_portrange : Option Text → Option PortRange
unfolding range_of_pieces checked_range range_unless
setup_portrange none = some (record { local_port = pos 0; lower = minus_one; upper = minus_one })
setup_portrange (some rangespec) = range_of_pieces (split b':' (strip rangespec))

-- `if ip not in ips: ips.append(ip)`
unfoldable pub add_ip : Text → List Text → List Text
add_ip ip ips = if contains ips ip then ips else ips ++ ip ∷ []

unfoldable pub add_ips : List Text → List Text → List Text
unfolding add_ip
add_ips [] ips = ips
add_ips (ip ∷ more) ips = add_ips more (add_ip ip ips)

-- A machine that cannot be resolved is passed over.
unfoldable pub add_machine : Option (List Text) → List Text → List Text
unfolding add_ips
add_machine none ips = ips
add_machine (some found) ips = add_ips found ips

-- `resolve` is `socket.getaddrinfo`, with the addresses it gives, or `none` where it raises.
module _ (resolve : Text → Option (List Text)) where
  pub allowed_from : List Text → List Text → List Text
  unfolding add_machine
  allowed_from [] ips = ips
  allowed_from (machine ∷ more) ips = allowed_from more (add_machine (resolve (strip machine)) ips)

  pub setup_allowed_ips : Text → List Text
  unfolding allowed_from
  setup_allowed_ips unicorex_machine = allowed_from (split b',' unicorex_machine) []
