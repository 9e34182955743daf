-- ===== src/Server.antt =====
-- lib/Server.py: the loop that accepts connections, and the commands that it takes.
pub mod Ports
pub mod Rotation
pub mod Admission
pub mod Numbers
pub mod Addresses
mod Tests
use tsi.Base.{
  ℕ, zero, suc, Option, none, some, List, [], ◌∷◌, ◌++◌, Bool, true, false, not, ◌==◌, text_eq,
}
use tsi.Base.{contains, if◌then◌else◌}
use tsi.Base.Int.{ℤ}
use tsi.Base.Dict.{Dict, insert}
use tsi.Base.Exec.{Error, Result, ok, err, os_error, value_error, ◌>>=?◌}
use tsi.Base.Text.{Text, txt, newline, strip}
use tsi.Base.Format.{cut_at}
use tsi.Utils.Access.{Rdn, Subject, check_access}
use tsi.Server.Ports.{
  PortRange, Attempt, Opened, from_port, os_failure, no_free_port, open_connection,
}

-- The settings that the loop reads and writes. `none` is a missing key; `allowed_dns` has the entries
-- that `convert_dn` made.
pub record Config : Type 0 where
  pub keystore : Option Text
  pub allowed_ips : Option (List Text)
  pub allowed_dns : List (List Rdn)
  pub unicorex_port : Option Text
  pub local_portrange : PortRange
  pub settings : Dict Text Text
  pub worker_id : ℕ

-- What `recv` and the decoding of what it returns give.
pub data Received : Type 0 where
  message : Text → Received
  read_failure undecodable : Received

-- What the network does with one connection: its peer, and how each call on it and on the sockets
-- of the callback turns out, for the port that is called back. The callback's sockets are numbered.
pub record Connection : Type 0 where
  pub accept_fails : Bool
  pub host : Text
  pub subject : Subject
  pub received : Received
  pub reply_fails : Bool
  pub attempt : Text → ℕ → ℕ → ℤ → Attempt
  pub handshake_fails : ℕ → Bool

-- The child process: the worker with its two sockets, the forwarder with its message, or an error
-- in taking the message apart.
pub data Child : Type 0 where
  worker : Child
  forwarder : Text → Child
  raised : Error → Child

-- What a connection comes to: it is closed, the server exits, an exception ends the loop, or a child
-- of this number is forked.
pub data Round : Type 0 where
  closed exited : Round
  crashed : Round
  forked : ℕ → Child → Round

-- `True`, or the `EnvironmentError`.
unfoldable pub permit : Bool → Result Bool
permit true = ok true
permit false = err os_error

-- Without a list every address is allowed.
unfoldable pub in_allowed : Option (List Text) → Text → Result Bool
unfolding permit
in_allowed none host = ok true
in_allowed (some ips) host = permit (contains ips host)

unfoldable pub verify_ip : Config → Text → Result Bool
verify_ip config host = in_allowed config.allowed_ips host

-- `verify_peer` of lib/SSL.py. An error that is no `OSError` ends the loop.
unfoldable pub verify_peer : Config → Subject → Result Bool
verify_peer config subject = check_access subject config.allowed_dns >>=? permit

-- The port is that of the configuration, or the first word of the parameters.
unfoldable pub get_unicorex_port : Config → Text → Text
get_unicorex_port config params = elim config.unicorex_port [
  | some port ↦ port
  | none ↦ elim (cut_at b' ' params) [ none ↦ params | some (port, _) ↦ port ]
]

-- The message of the forwarding child: `_, service_spec, user_spec = params.split(" ", 2)`.
forwarding_message : Text → Text → Text
forwarding_message service_spec user_spec =
    txt "#TSI_FORWARDING_CONNECT_TO "
    ++ (service_spec ++ (newline ∷ (txt "#TSI_IDENTITY " ++ (user_spec ++ newline ∷ []))))

unfoldable pub forwarding_child : Text → Child
unfolding forwarding_message
forwarding_child params = elim (cut_at b' ' params) [
  | none ↦ raised value_error
  | some (_, rest) ↦ elim (cut_at b' ' rest) [
    | none ↦ raised value_error
    | some (service_spec, user_spec) ↦ forwarder (forwarding_message service_spec user_spec)
  ]
]

-- What opening one socket comes to: it is open, an `OSError`, or the end of the loop.
pub data Callback : Type 0 where
  opened os_raised loop_ends : Callback

module _ (conn : Connection) (unicorex_port : Text) where
  -- One socket of the callback; the range of ports moves on although the handshake fails.
  finish_socket : Bool → ℕ → Opened × PortRange → Callback × PortRange
  finish_socket ssl i (from_port _, r) =
      if ssl then (if conn.handshake_fails i then (os_raised, r) else (opened, r)) else (opened, r)
  finish_socket ssl i (os_failure, r) = (os_raised, r)
  finish_socket ssl i (no_free_port, r) = (loop_ends, r)

  pub open_socket : Bool → ℕ → PortRange → Callback × PortRange
  unfolding finish_socket
  open_socket ssl i r = finish_socket ssl i (open_connection (conn.attempt unicorex_port i) r)

  -- So many sockets, one after the other.
  pub open_sockets : Bool → ℕ → ℕ → PortRange → Callback × PortRange
  open_sockets ssl zero i r = (opened, r)
  open_sockets ssl (suc n) i r =
      let first = open_socket ssl i r in
      let rest = open_sockets ssl n (suc i) first.1 in
      elim first.0 [ opened ↦ rest | os_raised ↦ first | loop_ends ↦ first ]

abbrev pub is_some : Option Text → Bool
is_some none = false
is_some (some _) = true

abbrev pub ssl_mode : Config → Bool
ssl_mode config = is_some config.keystore

-- Fork, and what the parent keeps.
after_callback : Config → Child → Callback × PortRange → Round × Config
after_callback config child (opened, r) = (
  forked config.worker_id child,
  record config { local_portrange = r; worker_id = suc config.worker_id },
)
after_callback config child (os_raised, r) = (closed, record config { local_portrange = r })
after_callback config child (loop_ends, r) = (crashed, record config { local_portrange = r })

unfoldable pub call_back : Config → Connection → ℕ → Text → Child → Round × Config
unfolding after_callback get_unicorex_port
call_back config conn num_conns params child =
    if conn.reply_fails
    then (closed, config)
    else after_callback config child (
        open_sockets conn (get_unicorex_port config params) (ssl_mode config) num_conns 0
          config.local_portrange)

-- `key, value = params.split(" ", 1)`
unfoldable pub store_setting : Config → Option (Text × Text) → Round × Config
store_setting config none = (crashed, config)
store_setting config (some (key, value)) =
    (closed, record config { settings = insert key value config.settings })

unfoldable pub set_value : Config → Text → Round × Config
set_value config params = store_setting config (cut_at b' ' params)

unfoldable pub run_command : Config → Connection → Text → Text → Round × Config
run_command config conn cmd params =
    if cmd == txt "shutdown"
    then (exited, config)
    else if cmd == txt "start-forwarding"
    then call_back config conn 1 params (forwarding_child params)
    else if cmd == txt "newtsiprocess"
    then call_back config conn 2 params worker
    else if cmd == txt "set"
    then set_value config params
    else (closed, config)

-- `cmd, params = msg.split(" ", 1)`; a message without a space is the empty command.
unfoldable pub run_words : Config → Connection → Option (Text × Text) → Round × Config
run_words config conn none = run_command config conn [] []
run_words config conn (some (cmd, params)) = run_command config conn cmd params

unfoldable pub handle_message : Config → Connection → Text → Round × Config
handle_message config conn msg = run_words config conn (cut_at b' ' msg)

unfoldable pub receive : Config → Connection → Received → Round × Config
receive config conn (message bytes) = handle_message config conn (strip bytes)
receive config conn read_failure = (closed, config)
receive config conn undecodable = (crashed, config)

unfoldable pub check_ip : Config → Connection → Result Bool → Round × Config
check_ip config conn (ok _) = receive config conn conn.received
check_ip config conn (err _) = (closed, config)

unfoldable pub check_peer : Config → Connection → Result Bool → Round × Config
check_peer config conn (ok _) = check_ip config conn (verify_ip config conn.host)
check_peer config conn (err os_error) = (closed, config)
check_peer config conn (err _) = (crashed, config)

-- The checks of a connection that was accepted.
unfoldable pub verify_connection : Config → Connection → Round × Config
verify_connection config conn =
    if ssl_mode config
    then check_peer config conn (verify_peer config conn.subject)
    else check_ip config conn (verify_ip config conn.host)

-- One round of the loop of `connect`. An error of `accept`, which with TLS is also a failed handshake,
-- ends the loop with `None`, which `main` cannot take apart.
unfoldable pub handle_connection : Config → Connection → Round × Config
handle_connection config conn =
    if conn.accept_fails then (crashed, config) else verify_connection config conn

-- The rounds, from this one on.
unfoldable pub and_then : Round → Config → List Round × Config → List Round × Config
and_then closed config rest = (closed ∷ rest.0, rest.1)
and_then exited config rest = (exited ∷ [], config)
and_then crashed config rest = (crashed ∷ [], config)
and_then (forked i child) config rest = (forked i child ∷ rest.0, rest.1)

-- The loop in the parent, until it exits or crashes, or for as long as connections come in.
unfoldable pub connect : Config → List Connection → List Round × Config
unfolding and_then
connect config [] = ([], config)
connect config (conn ∷ conns) =
    let step = handle_connection config conn in and_then step.0 step.1 (connect step.1 conns)
