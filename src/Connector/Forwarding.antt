-- ===== src/Connector/Forwarding.antt =====
-- lib/Connector.py: Forwarder, which connects two sockets.
use tsi.Base.{
  ℕ, zero, suc, ◌+◌, ◌*◌, ◌/◌, Option, none, some, List, [], ◌∷◌, ◌++◌, Bool, take, drop, length,
  ltb, if◌then◌else◌, ◌==◌, nat_eq,
}
use tsi.Base.Exec.{Result, ok, err, value_error}
use tsi.Base.Text.{Text, txt, split, starts_with}
use tsi.Utils.{extract_parameter}
use tsi.Connector.Data.{Bytes}

-- What is done with the request: the process ends, or it connects.
pub data Started : Type 0 where
  exited : ℕ → Started
  unix_socket : Text → Started
  tcp_socket : Text → Text → Started

-- Exactly two pieces.
unfoldable pub host_and_port : List Text → Result Started
host_and_port (host ∷ port ∷ []) = ok (tcp_socket host port)
host_and_port [] = err value_error
host_and_port (host ∷ []) = err value_error
host_and_port (host ∷ port ∷ x ∷ more) = err value_error

unfoldable pub connect_to : Option Text → Result Started
unfolding host_and_port
connect_to none = ok (exited 1)
connect_to (some service) =
    if starts_with service (txt "file:")
    then ok (unix_socket (drop 5 service))
    else host_and_port (split b':' service)

unfoldable pub start_forwarding : Text → Result Started
unfolding connect_to
start_forwarding message = connect_to (extract_parameter message (txt "FORWARDING_CONNECT_TO") none)

-- One read from the source: what was received, how much of it `send` took, and the milliseconds since the
-- start, plus one. An error ends the list.
pub record Chunk : Type 0 where
  pub buffer : Bytes
  pub accepted : ℕ
  pub interval : ℕ

-- `1000 * total / interval < rate_limit`
abbrev pub slow_enough : ℕ → ℕ → ℕ → Bool
slow_enough rate_limit total interval = ltb (1000 * total) (rate_limit * interval)

-- The sleeping time after a chunk, in milliseconds: it is halved below the limit, and grows above it.
unfoldable pub next_sleep : ℕ → ℕ → ℕ → ℕ → ℕ
next_sleep zero total interval sleep_time = sleep_time
next_sleep (suc limit) total interval sleep_time =
    if slow_enough (suc limit) total interval then sleep_time / 2 else sleep_time + 5

-- Only above the limit does the loop sleep.
unfoldable pub sleeps_of : ℕ → ℕ → ℕ → ℕ → List ℕ
sleeps_of zero total interval sleep_time = []
sleeps_of (suc limit) total interval sleep_time =
    if slow_enough (suc limit) total interval then [] else sleep_time ∷ []

-- What the destination gets, and the sleeps: a part of a chunk that `send` does not take is not sent again.
unfoldable pub transfer : ℕ → ℕ → ℕ → List Chunk → Bytes × List ℕ
unfolding next_sleep sleeps_of
transfer rate_limit total sleep_time [] = ([], [])
transfer rate_limit total sleep_time (chunk ∷ chunks) =
    let total' = total + length chunk.buffer in
    let sleep_time' = next_sleep rate_limit total' chunk.interval sleep_time in
    let (out, sleeps) = transfer rate_limit total' sleep_time' chunks in
    if length chunk.buffer == 0 then ([], []) else (
      take chunk.accepted chunk.buffer ++ out,
      sleeps_of rate_limit total' chunk.interval sleep_time' ++ sleeps,
    )
