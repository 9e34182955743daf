-- ===== src/Server/Ports.antt =====
-- lib/Server.py, `open_connection`: a connection from a local port of the configured range.
use tsi.Base.{ℕ, zero, suc, ◌+◌, ◌-◌, if◌then◌else◌}
use tsi.Base.Int.{ℤ, pos, negsuc, is_positive, int_leb}

-- `tsi.local_portrange`: the port to begin with, and the bounds. The first is 0 without a range.
pub record PortRange : Type 0 where
  pub local_port : ℤ
  pub lower : ℤ
  pub upper : ℤ

-- What `socket.create_connection` gives: the socket, an `OSError` with `EADDRINUSE`, or another one.
pub data Attempt : Type 0 where
  connected address_in_use refused : Attempt

-- What `open_connection` gives: a socket from a local port, an `OSError`, or the `Exception` that no
-- port of the range is free.
pub data Opened : Type 0 where
  from_port : ℤ → Opened
  os_failure no_free_port : Opened

abbrev pub int_suc : ℤ → ℤ
int_suc (pos n) = pos (suc n)
int_suc (negsuc zero) = pos 0
int_suc (negsuc (suc n)) = negsuc n

-- `_upper - _lower + 1`, as a number of rounds: none if it is negative.
abbrev pub rounds : ℤ → ℤ → ℕ
rounds (pos a) (pos b) = (b + 1) - a
rounds (pos a) (negsuc b) = 0
rounds (negsuc a) (pos b) = a + b + 2
rounds (negsuc a) (negsuc b) = (a + 1) - b

-- The port after this one, and the lowest after the highest.
abbrev pub next_port : PortRange → ℤ → ℤ
next_port r port = if int_leb (int_suc port) r.upper then int_suc port else r.lower

-- The loop over a range. The outcome of an attempt may depend on how many came before it.
unfoldable pub try_ports : (ℕ → ℤ → Attempt) → PortRange → ℕ → ℕ → ℤ → Opened × PortRange
try_ports attempt r zero attempts port = (no_free_port, r)
try_ports attempt r (suc n) attempts port =
    let rest = try_ports attempt r n (suc attempts) (next_port r port) in
    elim (attempt attempts port) [
      | connected ↦ (from_port port, record r { local_port = next_port r port })
      | address_in_use ↦ rest
      | refused ↦ (os_failure, r)
    ]

-- The one attempt without a range.
abbrev single_attempt : Attempt → PortRange → Opened × PortRange
single_attempt connected r = (from_port r.local_port, r)
single_attempt address_in_use r = (os_failure, r)
single_attempt refused r = (os_failure, r)

unfoldable pub open_connection : (ℕ → ℤ → Attempt) → PortRange → Opened × PortRange
open_connection attempt r =
    if is_positive r.local_port
    then try_ports attempt r (rounds r.lower r.upper) 0 r.local_port
    else single_attempt (attempt 0 r.local_port) r
