-- ===== src/Server/Admission.antt =====
-- Who gets a child process, and with which number.
use tsi.Base.{
  ◌≢◌, ◌≡◌, refl, sym, ap, ◌∙◌, ℕ, suc, ◌⊎◌, inl, inr, Option, none, some, List, [], Bool, true,
  false,
}
use tsi.Base.{◌==◌, text_eq, text_beq, text_beq_iff, contains, if◌then◌else◌}
use tsi.Base.Exec.{
  Result, ok, err, os_error, ◌>>=?◌, runtime_error, key_error, value_error, type_error, index_error,
  attribute_error, zero_division_error,
}
use tsi.Base.Text.{Text, txt, strip}
use tsi.Base.Format.{cut_at}
use tsi.Utils.Access.{check_access}
use tsi.Server.Ports.{PortRange}
use tsi.Server.{
  Config, Connection, Received, message, read_failure, undecodable, Child, worker, Round, forked,
  Callback, opened, os_raised, loop_ends, verify_ip, verify_peer, forwarding_child, ssl_mode,
  after_callback, call_back, open_sockets, get_unicorex_port, permit, in_allowed, set_value,
  store_setting, run_words, run_command, handle_message, receive, check_ip, check_peer,
  verify_connection, handle_connection,
}

-- The command of a message that a child is forked for, and the child.
pub data Command (msg : Text) (child : Child) : Type 0 where
  new_process :
      (params : Text)
      → cut_at b' ' msg ≡ some (txt "newtsiprocess", params)
      → child ≡ worker
      → Command msg child
  forwarding :
      (params : Text)
      → cut_at b' ' msg ≡ some (txt "start-forwarding", params)
      → child ≡ forwarding_child params
      → Command msg child

-- The address is in the list, where there is one.
pub Listed : Option (List Text) → Text → Type 0
Listed none host = Unit
Listed (some ips) host = contains ips host ≡ true

-- What has been checked of a connection that a child was forked for.
pub record Admitted (config : Config) (conn : Connection) (i : ℕ) (child : Child) (after : Config)
    : Type 0 where
  pub peer : ssl_mode config ≡ true → check_access conn.subject config.allowed_dns ≡ ok true
  pub address : Listed config.allowed_ips conn.host
  pub number : i ≡ config.worker_id
  pub next_number : after.worker_id ≡ suc config.worker_id
  pub text : Text
  pub sent : conn.received ≡ message text
  pub command : Command (strip text) child

-- What holds of a fork holds of either branch of a test.
pub either :
    {A : Type 0} (P : A → Type 0) (b : Bool) (x y : A)
    → (b ≡ true → P x)
    → (b ≡ false → P y)
    → P (if b then x else y)
either P true x y f g = f refl
either P false x y f g = g refl

module _ (config : Config) (conn : Connection) where
  -- If it is a fork, it has the next number and this child.
  abbrev Forks : Child → Round × Config → Type 0
  Forks expected out =
      (i : ℕ) (child : Child)
      → out.0 ≡ forked i child
      → (i ≡ config.worker_id) × (child ≡ expected) × (out.1.worker_id ≡ suc config.worker_id)

  after_callback-Forks :
      (expected : Child) (r : Callback × PortRange)
      → Forks expected (after_callback config expected r)
  unfolding after_callback
  after_callback-Forks expected (opened, r) i child h = (cc, cc, refl)
  after_callback-Forks expected (os_raised, r) i child h = absurd (cc)
  after_callback-Forks expected (loop_ends, r) i child h = absurd (cc)

  call_back-Forks :
      (n : ℕ) (params : Text) (expected : Child)
      → Forks expected (call_back config conn n params expected)
  unfolding call_back
  call_back-Forks n params expected =
      either (Forks expected) conn.reply_fails _ _ (λ _ i child h. absurd (cc))
        (λ _. after_callback-Forks expected (
          open_sockets conn (get_unicorex_port config params) (ssl_mode config) n 0
            config.local_portrange))

  store_setting-closed :
      (words : Option (Text × Text)) (i : ℕ) (child : Child)
      → (store_setting config words).0 ≢ forked i child
  unfolding store_setting
  store_setting-closed none i child h = cc
  store_setting-closed (some a) i child h = cc

  -- What is known of a fork after the message has been cut into the command and the rest.
  abbrev Commanded : Text → Text → Round × Config → Type 0
  Commanded cmd params out =
      (i : ℕ) (child : Child)
      → out.0 ≡ forked i child
      → (i ≡ config.worker_id)
        × (out.1.worker_id ≡ suc config.worker_id)
        × (((cmd ≡ txt "newtsiprocess") × (child ≡ worker))
            ⊎ ((cmd ≡ txt "start-forwarding") × (child ≡ forwarding_child params)))

  run_command-Commanded :
      (cmd params : Text) → Commanded cmd params (run_command config conn cmd params)
  unfolding run_command set_value
  run_command-Commanded cmd params =
      either (Commanded cmd params) (cmd == txt "shutdown") _ _ (λ _ i child h. absurd (cc))
        (λ _.
          either (Commanded cmd params) (cmd == txt "start-forwarding") _ _
            (λ e i child h.
              let (n, c, w) = call_back-Forks 1 params (forwarding_child params) i child h in
              (n, w, inr ((text_beq_iff cmd (txt "start-forwarding")).0 e, c)))
            (λ _.
              either (Commanded cmd params) (cmd == txt "newtsiprocess") _ _
                (λ e i child h.
                  let (n, c, w) = call_back-Forks 2 params worker i child h in
                  (n, w, inl ((text_beq_iff cmd (txt "newtsiprocess")).0 e, c)))
                (λ _.
                  either (Commanded cmd params) (cmd == txt "set") _ _
                    (λ _ i child h. absurd (store_setting-closed (cut_at b' ' params) i child h))
                    (λ _ i child h. absurd (cc)))))

  abbrev Spoken : Text → Round × Config → Type 0
  Spoken msg out =
      (i : ℕ) (child : Child)
      → out.0 ≡ forked i child
      → (i ≡ config.worker_id) × (out.1.worker_id ≡ suc config.worker_id) × Command msg child

  run_words-Spoken :
      (msg : Text) (words : Option (Text × Text))
      → cut_at b' ' msg ≡ words
      → Spoken msg (run_words config conn words)
  unfolding run_words text_beq
  run_words-Spoken msg none e i child h = elim (run_command-Commanded [] [] i child h).2 [
    | inl (c, _) ↦ absurd (cc)
    | inr (c, _) ↦ absurd (cc)
  ]
  run_words-Spoken msg (some (cmd, params)) e i child h =
      let (n, w, which) = run_command-Commanded cmd params i child h in
      (
        n,
        w,
        elim which [
          | inl (c, is) ↦ new_process params (e ∙ ap (λ x. some (x, params)) c) is
          | inr (c, is) ↦ forwarding params (e ∙ ap (λ x. some (x, params)) c) is
        ],
      )

  abbrev ReceivedBy : Received → Round × Config → Type 0
  ReceivedBy r out =
      (i : ℕ) (child : Child)
      → out.0 ≡ forked i child
      → (i ≡ config.worker_id)
        × (out.1.worker_id ≡ suc config.worker_id)
        × (text : Text) × (r ≡ message text)
        × Command (strip text) child

  receive-ReceivedBy : (r : Received) → ReceivedBy r (receive config conn r)
  unfolding receive handle_message
  receive-ReceivedBy (message text) i child h =
      let (n, w, c) = run_words-Spoken (strip text) (cut_at b' ' (strip text)) refl i child h in
      (n, w, text, refl, c)
  receive-ReceivedBy read_failure i child h = absurd (cc)
  receive-ReceivedBy undecodable i child h = absurd (cc)

  abbrev Checked : (Result Bool) → Round × Config → Type 0
  Checked verdict out =
      (i : ℕ) (child : Child)
      → out.0 ≡ forked i child
      → (b : Bool) × (verdict ≡ ok b)
        × (i ≡ config.worker_id)
        × (out.1.worker_id ≡ suc config.worker_id)
        × (text : Text) × (conn.received ≡ message text)
        × Command (strip text) child

  check_ip-Checked : (verdict : Result Bool) → Checked verdict (check_ip config conn verdict)
  unfolding check_ip
  check_ip-Checked (ok b) i child h =
      let (n, w, text, sent, c) = receive-ReceivedBy conn.received i child h in
      (b, refl, n, w, text, sent, c)
  check_ip-Checked (err x) i child h = absurd (cc)

permit-true : (allowed b : Bool) → permit allowed ≡ ok b → allowed ≡ true
unfolding permit
permit-true true b h = refl
permit-true false b h = absurd (cc)

in_allowed-Listed :
    (ips : Option (List Text)) (host : Text) (b : Bool)
    → in_allowed ips host ≡ ok b
    → Listed ips host
unfolding in_allowed Listed
in_allowed-Listed none host b h = tt
in_allowed-Listed (some ips) host b h = permit-true (contains ips host) b h

bound-permit : (r : Result Bool) (b : Bool) → (r >>=? permit) ≡ ok b → r ≡ ok true
bound-permit (ok allowed) b h = ap ok (permit-true allowed b h)
bound-permit (err x) b h = absurd (cc)

check_peer-ok :
    (config : Config) (conn : Connection) (verdict : Result Bool) (i : ℕ) (child : Child)
    → (check_peer config conn verdict).0 ≡ forked i child
    → (b : Bool) × (verdict ≡ ok b)
      × (check_peer config conn verdict ≡ check_ip config conn (verify_ip config conn.host))
unfolding check_peer
check_peer-ok config conn (ok b) i child h = (b, refl, refl)
check_peer-ok config conn (err (runtime_error r)) i child h = absurd (cc)
check_peer-ok config conn (err os_error) i child h = absurd (cc)
check_peer-ok config conn (err key_error) i child h = absurd (cc)
check_peer-ok config conn (err value_error) i child h = absurd (cc)
check_peer-ok config conn (err type_error) i child h = absurd (cc)
check_peer-ok config conn (err index_error) i child h = absurd (cc)
check_peer-ok config conn (err attribute_error) i child h = absurd (cc)
check_peer-ok config conn (err zero_division_error) i child h = absurd (cc)

admitted :
    (config : Config) (conn : Connection) (i : ℕ) (child : Child)
    → (ssl_mode config ≡ true → check_access conn.subject config.allowed_dns ≡ ok true)
    → (after : Config) → (check_ip config conn (verify_ip config conn.host)).0 ≡ forked i child
    → (check_ip config conn (verify_ip config conn.host)).1 ≡ after
    → Admitted config conn i child after
unfolding verify_ip
admitted config conn i child peer after h e =
    let (b, verdict, n, w, text, sent, c) =
      check_ip-Checked config conn (verify_ip config conn.host) i child h in
    record {
      peer = peer;
      address = in_allowed-Listed config.allowed_ips conn.host b verdict;
      number = n;
      next_number = ap (λ (x : Config). x.worker_id) (sym e) ∙ w;
      text = text;
      sent = sent;
      command = c;
    }

verify_connection-Admitted :
    (config : Config) (conn : Connection) (i : ℕ) (child : Child)
    → (verify_connection config conn).0 ≡ forked i child
    → Admitted config conn i child (verify_connection config conn).1
unfolding verify_connection verify_peer
verify_connection-Admitted config conn i child =
    either (λ (out : Round × Config). out.0 ≡ forked i child → Admitted config conn i child out.1)
      (ssl_mode config) _ _
      (λ _ h.
        let (b, verdict, same) =
          check_peer-ok config conn (verify_peer config conn.subject) i child h in
        admitted config conn i child
          (λ _. bound-permit (check_access conn.subject config.allowed_dns) b verdict)
          (check_peer config conn (verify_peer config conn.subject)).1
          (ap (λ o. o.0) (sym same) ∙ h) (ap (λ o. o.1) (sym same)))
      (λ off h.
        admitted config conn i child (λ on. absurd (cc))
          (check_ip config conn (verify_ip config conn.host)).1 h refl)

pub handle_connection-Admitted :
    (config : Config) (conn : Connection) (i : ℕ) (child : Child)
    → (handle_connection config conn).0 ≡ forked i child
    → Admitted config conn i child (handle_connection config conn).1
unfolding handle_connection
handle_connection-Admitted config conn i child =
    either (λ (out : Round × Config). out.0 ≡ forked i child → Admitted config conn i child out.1)
      conn.accept_fails _ _ (λ _ h. absurd (cc))
      (λ _. verify_connection-Admitted config conn i child)
