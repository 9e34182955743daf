-- ===== src/Worker.antt =====
-- lib/TSI.py: the loop of a worker, from the message of a request to the reply.
pub mod Dispatch
pub mod Handling
pub mod Functions
pub mod UserInfo
pub mod Table
pub mod Quiet
pub mod Serving
pub mod Ending
mod Tests
use tsi.Base.{
  ℕ, zero, suc, ◌+◌, Option, none, some, List, [], ◌∷◌, ◌++◌, Bool, true, false, not, ◌==◌, text_eq,
  nat_eq, ◌&&◌, ◌||◌,
}
use tsi.Base.{contains, if◌then◌else◌, length, drop}
use tsi.Base.Int.{ℤ}
use tsi.Base.Exec.{
  Error, Result, ok, err, Exec, pure, throw, ◌>>=◌, ◌>>=?◌, ◌>>◌, continue, runtime_error,
  no_identity,
}
use tsi.Base.Text.{Text, txt, newline, is_space, split, starts_with}
use tsi.Base.Format.{occurs}
use tsi.UserCache.{Os}
use tsi.BecomeUser.{Config, Process, Kernel, Session, become_user, restore_id}
use tsi.Connector.{Connector, read_message, write_message, failed, reply_ok, end_of_message}

-- The keys of the table of functions, in its order.
abbrev pub commands : List Text
commands =
    txt "TSI_PING"
    ∷ txt "TSI_PING_UID"
    ∷ txt "TSI_GET_USER_INFO"
    ∷ txt "TSI_EXECUTESCRIPT"
    ∷ txt "TSI_GETFILECHUNK"
    ∷ txt "TSI_PUTFILECHUNK"
    ∷ txt "TSI_LS"
    ∷ txt "TSI_DF"
    ∷ txt "TSI_UFTP"
    ∷ txt "TSI_SUBMIT"
    ∷ txt "TSI_RUN_ON_LOGIN_NODE"
    ∷ txt "TSI_GETSTATUSLISTING"
    ∷ txt "TSI_GETPROCESSLISTING"
    ∷ txt "TSI_GETJOBDETAILS"
    ∷ txt "TSI_GET_PARTITIONS"
    ∷ txt "TSI_ABORTJOB"
    ∷ txt "TSI_HOLDJOB"
    ∷ txt "TSI_RESUMEJOB"
    ∷ txt "TSI_GET_COMPUTE_BUDGET"
    ∷ txt "TSI_MAKE_RESERVATION"
    ∷ txt "TSI_QUERY_RESERVATION"
    ∷ txt "TSI_CANCEL_RESERVATION"
    ∷ txt "TSI_FILE_ACL"
    ∷ []

-- What the pattern `.*#<command>\n` finds.
abbrev pub call_of : Text → Text
call_of command = b'#' ∷ (command ++ newline ∷ [])

-- The first command of the table that the message has, wherever it stands.
unfoldable pub find_command : List Text → Text → Option Text
unfolding occurs
find_command [] msg = none
find_command (c ∷ cs) msg =
    let rest = find_command cs msg in if occurs (call_of c) msg then some c else rest

-- The characters that are no space (`\S*`), and the rest.
unfoldable pub word : Text → Text × Text
unfolding is_space
word [] = ([], [])
word (c ∷ s) = let rest = word s in if is_space c then ([], c ∷ s) else (c ∷ rest.0, rest.1)

-- A word that is not empty, followed by this character.
unfoldable pub word_before : ℕ → Text × Text → Option (Text × Text)
word_before stop ([], rest) = none
word_before stop (c ∷ w, []) = none
word_before stop (c ∷ w, d ∷ rest) = if d == stop then some (c ∷ w, rest) else none

second_word : Text → Option (Text × Text) → Option (Text × Text)
second_word user none = none
second_word user (some (groups, _)) = some (user, groups)

first_word : Option (Text × Text) → Option (Text × Text)
unfolding second_word word_before word
first_word none = none
first_word (some (user, rest)) = second_word user (word_before newline (word rest))

abbrev pub identity_prefix : Text
identity_prefix = txt "#TSI_IDENTITY "

unfoldable pub identity_here : Text → Option (Text × Text)
unfolding first_word word_before word starts_with
identity_here s =
    if starts_with s identity_prefix
    then first_word (word_before b' ' (word (drop (length identity_prefix) s)))
    else none

-- `re.search(".*#TSI_IDENTITY (\S+) (\S+)\n.*")`: the user and the groups.
unfoldable pub find_identity : Text → Option (Text × Text)
unfolding identity_here
find_identity [] = none
find_identity (c ∷ s) =
    let rest = find_identity s in
    elim (identity_here (c ∷ s)) [ none ↦ rest | some found ↦ some found ]

-- A worker: its channel, and the session whose identity it switches.
pub record State : Type 0 where
  pub connector : Connector
  pub session : Session

-- What lies outside: the texts of exceptions, the functions of the table, and the PAM session.
pub record Services : Type 0 where
  pub describe : Error → Text
  pub version : Text
  pub function : Text → Text → Exec State (Unit {0})
  pub open_session : Text → Exec State (Unit {0})

-- `tsi.open_user_sessions`, and `BSS.cleanup` and `os.chdir` aside, what the loop reads.
pub record Settings : Type 0 where
  pub config : Config
  pub open_user_sessions : Bool
  pub one_shot : Bool

abbrev pub on_session {ℓ} : {A : Type ℓ} → Exec Session A → Exec State A
on_session m s = let r = m s.session in (r.0, record s { session = r.1 })

abbrev pub send : (Connector → Connector) → State → State
send f s = record s { connector = f s.connector }

spawning : List Text
spawning =
    txt "TSI_EXECUTESCRIPT" ∷ txt "TSI_RUN_ON_LOGIN_NODE" ∷ txt "TSI_SUBMIT" ∷ txt "TSI_UFTP" ∷ []

module _ (os : Os) (kernel : Kernel) (settings : Settings) (services : Services) where
  -- `open_user_session`
  abbrev forks_session : Text → Bool
  forks_session command =
      settings.open_user_sessions && contains spawning command && settings.config.switch_uid

  -- The switch to the user of the message.
  pub switch_user : Text → Option (Text × Text) → Exec State (Unit {0})
  switch_user command none = throw (runtime_error no_identity)
  switch_user command (some (user, groups)) = do
    if forks_session command then services.open_session user else pure tt
    on_session (become_user os settings.config kernel user (split b':' groups)) >> pure tt

  -- The body of the `try`.
  pub attempt : Text → Text → Exec State (Unit {0})
  attempt command msg =
      if settings.config.switch_uid
      then (do switch_user command (find_identity msg); services.function command msg)
      else services.function command msg

  -- The `except`: every exception is reported.
  unfoldable pub report : Result (Unit {0}) × State → State
  report (ok _, s) = s
  report (err e, s) = send (failed (some (services.describe e))) s

  -- What runs in the process that serves the request. The identity is restored whatever happened.
  pub serve : Text → Text → Exec State (Unit {0})
  unfolding report
  serve command msg s =
      on_session (restore_id os settings.config kernel) (report (attempt command msg s))

  -- With a session for the user, a child serves the request: only what it wrote to the channel is
  -- there in the parent.
  pub handle_function : Text → Text → Exec State (Unit {0})
  handle_function command msg s =
      if forks_session command
      then (ok tt, record s { connector = (serve command msg s).1.connector })
      else serve command msg s

  -- What the loop does with one message.
  pub answer : Text → Option Text → Exec State (Unit {0})
  answer msg none s = (ok tt, send (failed (some (txt "Unknown #TSI_* command"))) s)
  answer msg (some command) s =
      (if command == txt "TSI_PING"
          then (λ t. (ok tt, send (reply_ok (some services.version)) t))
          else handle_function command msg)
        s

  -- The reply ends with a line of its own, unless an error in restoring the identity ends the loop.
  pub end_reply : Result (Unit {0}) × State → Result (Unit {0}) × State
  end_reply (ok _, s) = (ok tt, send (write_message end_of_message) s)
  end_reply (err e, s) = (err e, s)

  -- What was read comes to a reply, or to the end of the worker.
  handle_read : Result Text → Exec State Bool
  handle_read (err e) s = (ok false, s)
  handle_read (ok msg) s =
      let out = end_reply (answer msg (find_command commands msg) s) in
      (out.0 >>=? λ _. ok true, out.1)

  -- One round of the loop; the flag tells whether there was a request. Without one the worker stops.
  pub next_request : Exec State Bool
  next_request s =
      let r = read_message s.connector in handle_read r.0 (record s { connector = r.1 })

  -- What follows a round: the end, or the next one.
  after_round :
      (State → Option (Result (Unit {0}) × State))
      → Result Bool × State
      → Option (Result (Unit {0}) × State)
  after_round next (err e, s) = some (err e, s)
  after_round next (ok false, s) = some (ok tt, s)
  after_round next (ok true, s) = if settings.one_shot then some (ok tt, s) else next s

  -- The loop. The number bounds the rounds; `none` is a loop that has not ended by then.
  pub process : ℕ → State → Option (Result (Unit {0}) × State)
  process zero s = none
  process (suc n) s = after_round (process n) (next_request s)
