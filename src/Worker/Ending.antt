-- ===== src/Worker/Ending.antt =====
-- The worker stops when its channel has no further message.
use tsi.Base.{
  ◌≡◌, refl, sym, subst, ◌∙◌, ℕ, zero, suc, ◌<◌, Option, none, some, Bool, true, false, arith,
}
use tsi.Base.{◌==◌, nat_eq, text_eq, length, if◌then◌else◌}
use tsi.Base.Exec.{Result, ok, err, Exec, pure, continue, ◌>>=◌}
use tsi.Base.Text.{Text, txt, split}
use tsi.UserCache.{Os}
use tsi.BecomeUser.{Kernel, Session, become_user}
use tsi.Connector.Shrinking.{read_message-shorter}
use tsi.Connector.{Connector, read_message, write_message, failed, reply_ok}
use tsi.Worker.{
  State, Services, Settings, commands, find_command, find_identity, on_session, forks_session,
  switch_user, attempt, report, serve, handle_function, answer, send, end_reply, handle_read,
  next_request, after_round, process,
}

-- The text that is still to be read stays.
pub record KeepsInput {ℓ} {A : Type ℓ} (m : Exec State A) : Type ℓ where
  pub at : (s : State) → (m s).1.connector.control_in ≡ s.connector.control_in

pub KeepsInput-bind {ℓ κ} :
    {A : Type ℓ} {B : Type κ} (m : Exec State A) (f : A → Exec State B)
    → KeepsInput m
    → ((a : A) → KeepsInput (f a))
    → KeepsInput (m >>= f)
KeepsInput-bind {A} {B} m f first second = record { at = λ s. go s (m s) (first.at s) }
  where
    go :
        (s : State) (r : Result A × State)
        → r.1.connector.control_in ≡ s.connector.control_in
        → (continue r.0 f r.1).1.connector.control_in ≡ s.connector.control_in
    go s (ok a, t) e = (second a).at t ∙ e
    go s (err x, t) e = e

pub KeepsInput-if {ℓ} :
    {A : Type ℓ} (b : Bool) (m n : Exec State A)
    → KeepsInput m
    → KeepsInput n
    → KeepsInput (if b then m else n)
KeepsInput-if true m n x y = x
KeepsInput-if false m n x y = y

pub on_session-KeepsInput : {A : Type 0} (m : Exec Session A) → KeepsInput (on_session m)
on_session-KeepsInput m = record { at = λ s. refl }

module _ (os : Os) (kernel : Kernel) (settings : Settings) (services : Services) where
  module _ (command : Text) (functions : (msg : Text) → KeepsInput (services.function command msg))
      (sessions : (user : Text) → KeepsInput (services.open_session user)) where
    switch_user-KeepsInput :
        (found : Option (Text × Text))
        → KeepsInput (switch_user os kernel settings services command found)
    unfolding switch_user
    switch_user-KeepsInput none = record { at = λ s. refl }
    switch_user-KeepsInput (some (user, groups)) =
        KeepsInput-bind _ _
          (KeepsInput-if (forks_session os kernel settings services command) _ (pure tt)
            (sessions user) (record { at = λ s. refl }))
          (λ _.
            KeepsInput-bind
              (on_session (become_user os settings.config kernel user (split b':' groups)))
              (λ _. pure tt)
              (on_session-KeepsInput
                (become_user os settings.config kernel user (split b':' groups)))
              (λ _. record { at = λ s. refl }))

    attempt-KeepsInput : (msg : Text) → KeepsInput (attempt os kernel settings services command msg)
    unfolding attempt
    attempt-KeepsInput msg =
        KeepsInput-if settings.config.switch_uid _ _
          (KeepsInput-bind _ _ (switch_user-KeepsInput (find_identity msg)) (λ _. functions msg))
          (functions msg)

    report-input :
        (r : Result (Unit {0}) × State)
        → (report os kernel settings services r).connector.control_in ≡ r.1.connector.control_in
    unfolding report failed write_message
    report-input (ok _, s) = refl
    report-input (err e, s) = refl

    serve-KeepsInput : (msg : Text) → KeepsInput (serve os kernel settings services command msg)
    unfolding serve
    serve-KeepsInput msg = record {
      at = λ s.
          report-input (attempt os kernel settings services command msg s)
          ∙ (attempt-KeepsInput msg).at s;
    }

    handle_function-KeepsInput :
        (msg : Text) → KeepsInput (handle_function os kernel settings services command msg)
    unfolding handle_function
    handle_function-KeepsInput msg = record {
      at = λ s. pick s (forks_session os kernel settings services command);
    }
      where
        pick :
            (s : State) (b : Bool)
            → (if b
                then (
                  ok tt,
                  record s {
                    connector = (serve os kernel settings services command msg s).1.connector;
                  },
                )
                else serve os kernel settings services command msg s).1.connector.control_in
              ≡ s.connector.control_in
        pick s true = (serve-KeepsInput msg).at s
        pick s false = (serve-KeepsInput msg).at s

    answer_one-KeepsInput :
        (msg : Text) → KeepsInput (answer os kernel settings services msg (some command))
    unfolding answer reply_ok write_message
    answer_one-KeepsInput msg =
        KeepsInput-if (command == txt "TSI_PING")
          (λ s. (ok tt, send (reply_ok (some services.version)) s))
          (handle_function os kernel settings services command msg) (record { at = λ s. refl })
          (handle_function-KeepsInput msg)

  end_reply-input :
      (r : Result (Unit {0}) × State)
      → (end_reply os kernel settings services r).1.connector.control_in ≡ r.1.connector.control_in
  unfolding end_reply write_message
  end_reply-input (ok _, s) = refl
  end_reply-input (err e, s) = refl

  -- A request leaves what follows its message on the channel, if its function does.
  pub next_request-KeepsInput :
      (command msg : Text) (c : Connector) (s : State)
      → read_message s.connector ≡ (ok msg, c)
      → find_command commands msg ≡ some command
      → ((m : Text) → KeepsInput (services.function command m))
      → ((user : Text) → KeepsInput (services.open_session user))
      → (next_request os kernel settings services s).1.connector.control_in ≡ c.control_in
  unfolding next_request handle_read
  next_request-KeepsInput command msg c s got found functions sessions =
      let start = record s { connector = c } in
      rw (got, found)
        (end_reply-input (answer os kernel settings services msg (some command) start)
          ∙ (answer_one-KeepsInput command functions sessions msg).at start)

  module _ (functions : (command msg : Text) → KeepsInput (services.function command msg))
      (sessions : (user : Text) → KeepsInput (services.open_session user)) where
    answer-KeepsInput :
        (msg : Text) (found : Option Text)
        → KeepsInput (answer os kernel settings services msg found)
    unfolding answer failed write_message
    answer-KeepsInput msg none = record { at = λ s. refl }
    answer-KeepsInput msg (some command) =
        answer_one-KeepsInput command (functions command) sessions msg

    -- A round that served a request has taken its message off the channel.
    handle_read-shorter :
        (s : State) (r : Result Text × Connector)
        → ((x : Text) → r.0 ≡ ok x → length r.1.control_in < length s.connector.control_in)
        → let out = handle_read os kernel settings services r.0 (record s { connector = r.1 }) in
          out.0 ≡ ok true → length out.1.connector.control_in < length s.connector.control_in
    unfolding handle_read
    handle_read-shorter s (err e, c) f h = absurd (cc)
    handle_read-shorter s (ok msg, c) f h =
        let start = record s { connector = c } in
        let answered = answer os kernel settings services msg (find_command commands msg) start in
        let same =
          end_reply-input answered ∙ (answer-KeepsInput msg (find_command commands msg)).at start in
        subst (λ t. length t < length s.connector.control_in) (sym same) (f msg refl)

    next_request-shorter :
        (s : State)
        → (next_request os kernel settings services s).0 ≡ ok true
        → length (next_request os kernel settings services s).1.connector.control_in
          < length s.connector.control_in
    unfolding next_request
    next_request-shorter s h =
        handle_read-shorter s (read_message s.connector) (read_message-shorter s.connector) h

    Ended : Option (Result (Unit {0}) × State) → Type 0
    Ended o = (out : Result (Unit {0}) × State) × (o ≡ some out)

    after_round-Ended :
        (next : State → Option (Result (Unit {0}) × State)) (r : Result Bool × State)
        → (r.0 ≡ ok true → Ended (next r.1))
        → Ended (after_round os kernel settings services next r)
    unfolding after_round Ended
    after_round-Ended next (err e, s) f = ((err e, s), refl)
    after_round-Ended next (ok false, s) f = ((ok tt, s), refl)
    after_round-Ended next (ok true, s) f = one settings.one_shot
      where
        one :
            (b : Bool)
            → (out : Result (Unit {0}) × State) × ((if b then some (ok tt, s) else next s)
                ≡ some out)
        one true = ((ok tt, s), refl)
        one false = f refl

    process-Ended :
        (n : ℕ) (s : State)
        → length s.connector.control_in < n
        → Ended (process os kernel settings services n s)
    unfolding process
    process-Ended zero s h = absurd (omega arith)
    process-Ended (suc n) s h =
        after_round-Ended (process os kernel settings services n)
          (next_request os kernel settings services s)
          (λ served.
            process-Ended n (next_request os kernel settings services s).1
              (omega (arith, h, next_request-shorter s served)))

-- For functions of the table and sessions that read nothing from the control channel: the loop of a
-- worker ends, after at most as many rounds as there are characters in the channel and one more.
process-ends :
    (os : Os) (kernel : Kernel) (settings : Settings) (services : Services) (s : State)
    → ((command msg : Text) → KeepsInput (services.function command msg))
    → ((user : Text) → KeepsInput (services.open_session user))
    → (out : Result (Unit {0}) × State) × (process os kernel settings services
          (suc (length s.connector.control_in))
          s
        ≡ some out)
unfolding Ended
process-ends os kernel settings services s functions sessions =
    process-Ended os kernel settings services functions sessions
      (suc (length s.connector.control_in)) s (omega arith)
