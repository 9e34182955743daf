-- ===== src/Server/Numbers.antt =====
-- The numbers of the workers that one run of the server forks.
use tsi.Base.{◌≡◌, refl, ap, ◌∙◌, ℕ, zero, suc, ◌+◌, List, [], ◌∷◌, Bool, arith}
use tsi.Base.{length}
use tsi.Base.{Option, none, some, ◌==◌, text_eq, subst}
use tsi.Base.Exec.{
  Result, ok, err, os_error, runtime_error, key_error, value_error, type_error, index_error,
  attribute_error, zero_division_error,
}
use tsi.Base.Text.{Text, txt, strip}
use tsi.Base.Format.{cut_at}
use tsi.Server.Ports.{PortRange}
use tsi.Server.{
  Config, Connection, Received, message, read_failure, undecodable, Child, worker, Round, closed,
  exited, crashed, forked, Callback, opened, os_raised, loop_ends, verify_ip, verify_peer,
  forwarding_child, ssl_mode, after_callback, call_back, set_value, store_setting, run_words,
  run_command, handle_message, receive, check_ip, check_peer, verify_connection, handle_connection,
  and_then, connect,
}
use tsi.Server.Admission.{handle_connection-Admitted, either}

-- The numbers of the forked children, in the order of the rounds.
pub numbers : List Round → List ℕ
numbers [] = []
numbers (closed ∷ rs) = numbers rs
numbers (exited ∷ rs) = numbers rs
numbers (crashed ∷ rs) = numbers rs
numbers (forked i child ∷ rs) = i ∷ numbers rs

-- `n` numbers, from `start` on.
pub count_from : ℕ → ℕ → List ℕ
count_from start zero = []
count_from start (suc n) = start ∷ count_from (suc start) n

-- How many children a round forks.
abbrev forks : Round → ℕ
forks closed = 0
forks exited = 0
forks crashed = 0
forks (forked i child) = 1

module _ (config : Config) (conn : Connection) where
  abbrev Counts : Round × Config → Type 0
  Counts out = out.1.worker_id ≡ config.worker_id + forks out.0

  after_callback-Counts :
      (child : Child) (r : Callback × PortRange) → Counts (after_callback config child r)
  unfolding after_callback
  after_callback-Counts child (opened, r) = omega arith
  after_callback-Counts child (os_raised, r) = omega arith
  after_callback-Counts child (loop_ends, r) = omega arith

  stays : (round : Round) → forks round ≡ 0 → Counts (round, config)
  stays round h = omega (arith, h)

  call_back-Counts :
      (n : ℕ) (params : Text) (child : Child) → Counts (call_back config conn n params child)
  unfolding call_back
  call_back-Counts n params child =
      either Counts conn.reply_fails _ _ (λ _. omega arith) (λ _. after_callback-Counts child _)

  store_setting-Counts : (words : Option (Text × Text)) → Counts (store_setting config words)
  unfolding store_setting
  store_setting-Counts none = omega arith
  store_setting-Counts (some w) = omega arith

  run_command-Counts : (cmd params : Text) → Counts (run_command config conn cmd params)
  unfolding run_command set_value
  run_command-Counts cmd params =
      either Counts (cmd == txt "shutdown") _ _ (λ _. stays exited refl)
        (λ _.
          either Counts (cmd == txt "start-forwarding") _ _
            (λ _. call_back-Counts 1 params (forwarding_child params))
            (λ _.
              either Counts (cmd == txt "newtsiprocess") _ _ (λ _. call_back-Counts 2 params worker)
                (λ _.
                  either Counts (cmd == txt "set") _ _
                    (λ _. store_setting-Counts (cut_at b' ' params)) (λ _. stays closed refl))))

  run_words-Counts : (words : Option (Text × Text)) → Counts (run_words config conn words)
  unfolding run_words
  run_words-Counts none = run_command-Counts [] []
  run_words-Counts (some (cmd, params)) = run_command-Counts cmd params

  receive-Counts : (r : Received) → Counts (receive config conn r)
  unfolding receive handle_message
  receive-Counts (message text) = run_words-Counts (cut_at b' ' (strip text))
  receive-Counts read_failure = stays closed refl
  receive-Counts undecodable = stays crashed refl

  check_ip-Counts : (verdict : Result Bool) → Counts (check_ip config conn verdict)
  unfolding check_ip
  check_ip-Counts (ok b) = receive-Counts conn.received
  check_ip-Counts (err x) = stays closed refl

  check_peer-Counts : (verdict : Result Bool) → Counts (check_peer config conn verdict)
  unfolding check_peer
  check_peer-Counts (ok b) = check_ip-Counts (verify_ip config conn.host)
  check_peer-Counts (err (runtime_error r)) = stays crashed refl
  check_peer-Counts (err os_error) = stays closed refl
  check_peer-Counts (err key_error) = stays crashed refl
  check_peer-Counts (err value_error) = stays crashed refl
  check_peer-Counts (err type_error) = stays crashed refl
  check_peer-Counts (err index_error) = stays crashed refl
  check_peer-Counts (err attribute_error) = stays crashed refl
  check_peer-Counts (err zero_division_error) = stays crashed refl

  verify_connection-Counts : Counts (verify_connection config conn)
  unfolding verify_connection
  verify_connection-Counts =
      either Counts (ssl_mode config) _ _ (λ _. check_peer-Counts (verify_peer config conn.subject))
        (λ _. check_ip-Counts (verify_ip config conn.host))

  handle_connection-Counts : Counts (handle_connection config conn)
  unfolding handle_connection
  handle_connection-Counts =
      either Counts conn.accept_fails _ _ (λ _. stays crashed refl) (λ _. verify_connection-Counts)

-- The numbers from here on are consecutive.
Consecutive : ℕ → List Round × Config → Type 0
Consecutive start out =
    (numbers out.0 ≡ count_from start (length (numbers out.0)))
    × (out.1.worker_id ≡ start + length (numbers out.0))

and_then-Consecutive :
    (start : ℕ) (round : Round) (config : Config) (rest : List Round × Config)
    → config.worker_id ≡ start + forks round
    → ((i : ℕ) (child : Child) → round ≡ forked i child → i ≡ start)
    → Consecutive config.worker_id rest
    → Consecutive start (and_then round config rest)
unfolding Consecutive and_then numbers count_from
and_then-Consecutive start closed config rest e f h =
    let same : config.worker_id ≡ start = e ∙ omega arith in
    (
      subst (λ n. numbers rest.0 ≡ count_from n (length (numbers rest.0))) same h.0,
      omega (arith, h.1, same),
    )
and_then-Consecutive start exited config rest e f h = (refl, omega (arith, e))
and_then-Consecutive start crashed config rest e f h = (refl, omega (arith, e))
and_then-Consecutive start (forked i child) config rest e f h =
    let next : config.worker_id ≡ suc start = e ∙ omega arith in
    (
      ap (λ n. n ∷ numbers rest.0) (f i child refl)
          ∙ ap (◌∷◌ start)
              (subst (λ n. numbers rest.0 ≡ count_from n (length (numbers rest.0))) next h.0),
      omega (arith, h.1, next),
    )

-- The children have consecutive numbers, from the number of the configuration on, so that no two are
-- the same; the number that the configuration is left with is the one after the last.
pub connect-numbers :
    (config : Config) (conns : List Connection)
    → let out = connect config conns in
      (numbers out.0 ≡ count_from config.worker_id (length (numbers out.0)))
      × (out.1.worker_id ≡ config.worker_id + length (numbers out.0))
unfolding connect numbers count_from Consecutive
connect-numbers config [] = (refl, omega arith)
connect-numbers config (conn ∷ conns) =
    let step = handle_connection config conn in
    and_then-Consecutive config.worker_id step.0 step.1 (connect step.1 conns)
      (handle_connection-Counts config conn)
      (λ i child e. (handle_connection-Admitted config conn i child e).number)
      (connect-numbers step.1 conns)
