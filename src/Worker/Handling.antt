-- ===== src/Worker/Handling.antt =====
-- When the function of a request runs, and as whom.
use tsi.Base.{◌≡◌, refl, ap, ◌∙◌, Option, none, some, Bool, true, false}
use tsi.Base.{if◌then◌else◌}
use tsi.Base.Exec.{Error, Result, ok, err, Exec, pure, continue, ◌>>◌, runtime_error, no_identity}
use tsi.Base.Text.{Text, split}
use tsi.UserCache.{Os}
use tsi.BecomeUser.{Kernel, Session, become_user, restore_id}
use tsi.Connector.{failed}
use tsi.Worker.{
  on_session, State, Services, Settings, send, find_identity, forks_session, switch_user, attempt,
  report, serve,
}

module _ (os : Os) (kernel : Kernel) (settings : Settings) (services : Services)
    (command msg : Text) (s : State) where
  -- The end of a request: back to the identity of the server.
  pub restored : State → Result (Unit {0}) × State
  restored s' =
      let r = restore_id os settings.config kernel s'.session in (r.0, record s' { session = r.1 })

  -- After a failure the reply is its text.
  abbrev refused : Error → Session → State
  refused e t = send (failed (some (services.describe e))) (record s { session = t })

  -- What the switch to the user comes to.
  pub after_switch : Result Bool × Session → Result (Unit {0}) × State
  after_switch (err e, t) = restored (refused e t)
  after_switch (ok _, t) = restored (
      report os kernel settings services (services.function command msg (record s { session = t })))

  -- What the user line of the message comes to.
  pub after_identity : Option (Text × Text) → Result (Unit {0}) × State
  after_identity none = restored (refused (runtime_error no_identity) s.session)
  after_identity (some (user, groups)) =
      after_switch (become_user os settings.config kernel user (split b':' groups) s.session)

  abbrev finish : Result (Unit {0}) × State → Result (Unit {0}) × State
  finish out =
      on_session (restore_id os settings.config kernel) (report os kernel settings services out)

  abbrev done : Exec State (Unit {0})
  done = pure tt

  after_switch-finish :
      (r : Result Bool × Session)
      → finish (((on_session (λ _. r) >> done) >> services.function command msg) s) ≡ after_switch r
  unfolding after_switch report restored
  after_switch-finish (ok b, t) = refl
  after_switch-finish (err e, t) = refl

  switch_user-no_session :
      (user groups : Text)
      → forks_session os kernel settings services command ≡ false
      → switch_user os kernel settings services command (some (user, groups)) s
        ≡ (on_session (become_user os settings.config kernel user (split b':' groups)) >> done) s
  unfolding switch_user
  switch_user-no_session user groups h =
      ap
        (λ b.
          ((if b then services.open_session user else done)
              >> (on_session (become_user os settings.config kernel user (split b':' groups))
                  >> done))
            s)
        h

  switch_user-finish :
      (found : Option (Text × Text))
      → forks_session os kernel settings services command ≡ false
      → finish (
          (switch_user os kernel settings services command found >> services.function command msg)
            s)
        ≡ after_identity found
  unfolding switch_user after_identity restored report
  switch_user-finish none h = refl
  switch_user-finish (some (user, groups)) h =
      ap (λ out. finish (continue out.0 (λ _. services.function command msg) out.1))
        (switch_user-no_session user groups h)
      ∙ after_switch-finish
          (become_user os settings.config kernel user (split b':' groups) s.session)

  attempt-switching :
      settings.config.switch_uid ≡ true
      → attempt os kernel settings services command msg s
        ≡ (switch_user os kernel settings services command (find_identity msg)
              >> services.function command msg)
            s
  unfolding attempt
  attempt-switching on =
      ap
        (λ b.
          (if b
              then (switch_user os kernel settings services command (find_identity msg)
                  >> services.function command msg)
              else services.function command msg)
            s)
        on

-- With switching on and no session to open, the function of a request runs only after the message has
-- named a user and the switch to that user has succeeded, and it starts in the session that the
-- switch left. Otherwise the reply is the failure alone, and the function does not run. In each case
-- the identity is restored at the end, also after an exception of the function, which is reported.
pub serve-after_identity :
    (os : Os) (kernel : Kernel) (settings : Settings) (services : Services) (command msg : Text)
    (s : State)
    → settings.config.switch_uid ≡ true
    → forks_session os kernel settings services command ≡ false
    → serve os kernel settings services command msg s
      ≡ after_identity os kernel settings services command msg s (find_identity msg)
unfolding serve
serve-after_identity os kernel settings services command msg s on no_session =
    ap (finish os kernel settings services command msg s)
      (attempt-switching os kernel settings services command msg s on)
    ∙ switch_user-finish os kernel settings services command msg s (find_identity msg) no_session
