-- ===== src/Server/Tests.antt =====
-- The server, run.
use tsi.Base.{
  ◌==◌, int_eq, ◌≡◌, refl, ℕ, ◌+◌, arith, none, some, [], ◌∷◌, false, text_eq, length,
  if◌then◌else◌,
}
use tsi.Base.Int.{ℤ, pos}
use tsi.Base.Text.{txt}
use tsi.Server.Ports.{Attempt, connected, address_in_use, try_ports, open_connection}
use tsi.Server.Rotation.{range_of, Honest, open_connection-Honest, open_connection-no_free_port}
use tsi.Server.{Config, Connection, message, connect}
use tsi.Server.Numbers.{numbers, count_from, connect-numbers}

-- The port 5 is in use, the others are free.
abbrev five_in_use : ℕ → ℤ → Attempt
five_in_use _ port = if port == pos 5 then address_in_use else connected

open_connection-Honest_example :
    Honest five_in_use 4 6 5
      (open_connection five_in_use (range_of 4 6 5)).0
      (open_connection five_in_use (range_of 4 6 5)).1
open_connection-Honest_example =
    open_connection-Honest five_in_use 4 6 5 (omega arith) (omega arith) (omega arith)

abbrev all_in_use : ℕ → ℤ → Attempt
all_in_use _ _ = address_in_use

open_connection-no_free_port_example : (j : ℕ) × (all_in_use j (pos 6) ≡ address_in_use)
unfolding open_connection try_ports
open_connection-no_free_port_example =
    open_connection-no_free_port all_in_use 4 6 5 6 (omega arith) (omega arith) (omega arith)
      (omega arith) (omega arith) refl

abbrev config : Config
config = record {
  keystore = none;
  allowed_ips = some (txt "1" ∷ []);
  allowed_dns = [];
  unicorex_port = none;
  local_portrange = range_of 4 6 5;
  settings = [];
  worker_id = 1;
}

abbrev connection : Connection
connection = record {
  accept_fails = false;
  host = txt "1";
  subject = [];
  received = message (txt "newtsiprocess 9");
  reply_fails = false;
  attempt = λ _ _. five_in_use;
  handshake_fails = λ _. false;
}

connect-numbers_example :
    (numbers (connect config (connection ∷ connection ∷ [])).0
      ≡ count_from 1 (length (numbers (connect config (connection ∷ connection ∷ [])).0)))
    × ((connect config (connection ∷ connection ∷ [])).1.worker_id
        ≡ 1 + length (numbers (connect config (connection ∷ connection ∷ [])).0))
connect-numbers_example = connect-numbers config (connection ∷ connection ∷ [])
