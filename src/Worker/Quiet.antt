-- ===== src/Worker/Quiet.antt =====
-- The functions of the table of lib/TSI.py that read nothing from the control channel.
use tsi.Base.{◌≡◌, refl, Option, none, some, Bool, true, false, text_eq, if◌then◌else◌}
use tsi.Base.Dict.{Dict}
use tsi.Base.Exec.{Result, ok, err}
use tsi.Base.Text.{Text, txt}
use tsi.Connector.{Connector, failed, reply_ok, write_message}
use tsi.Utils.{Environment, extract_parameter}
use tsi.UserCache.{Os, get_home_4user}
use tsi.BecomeUser.{cached}
use tsi.Io.Space.{df_file, report_output, report_space}
use tsi.Bss.{get_process_listing, run_and_report}
use tsi.Bss.Control.{Answer, Commands, details_of, report_details, run_with, returned}
use tsi.Bss.Partitions.{Partition, get_partitions, parse_partitions, report_partitions}
use tsi.Worker.{on_session}
use tsi.Worker.UserInfo.{Account, user_info_of, report_home}
use tsi.Worker.Ending.{KeepsInput, KeepsInput-bind, on_session-KeepsInput}
use tsi.Worker.Table.{on_channel, on_answer}

-- Nothing is read from the channel.
abbrev pub Silent : (Connector → Connector) → Type 0
Silent f = (c : Connector) → (f c).control_in ≡ c.control_in

abbrev pub Quiet : (Connector → Answer) → Type 0
Quiet f = (c : Connector) → (f c).1.control_in ≡ c.control_in

pub on_channel-KeepsInput : (f : Connector → Connector) → Silent f → KeepsInput (on_channel f)
on_channel-KeepsInput f h = record { at = λ s. h s.connector }

pub on_answer-KeepsInput : (f : Connector → Answer) → Quiet f → KeepsInput (on_answer f)
on_answer-KeepsInput f h = record { at = λ s. h s.connector }

-- A reply of one kind or the other.
pub reply-input :
    (b : Bool) (x y : Option Text) (c : Connector)
    → (if b then reply_ok x c else failed y c).control_in ≡ c.control_in
unfolding reply_ok failed write_message
reply-input true x y c = refl
reply-input false x y c = refl

pub run_and_report-Silent :
    (run : Text → Bool × Text) (cmd : Text) → Silent (run_and_report run cmd)
unfolding run_and_report
run_and_report-Silent run cmd c = reply-input (run cmd).0 (some (run cmd).1) (some (run cmd).1) c

pub process_listing-Silent :
    (run : Text → Bool × Text) (cmd msg : Text) → Silent (get_process_listing run cmd msg)
unfolding get_process_listing
process_listing-Silent run cmd msg c = go (extract_parameter msg (txt "PS") (some cmd))
  where
    go :
        (o : Option Text)
        → (elim o as (λ _. Connector) [ none ↦ c | some ps ↦ run_and_report run ps c ]).control_in
          ≡ c.control_in
    go none = refl
    go (some ps) = run_and_report-Silent run ps c

pub run_with-Quiet :
    (jobs : Commands) (cmd : Text) (id : Option Text) → Quiet (run_with jobs cmd id)
unfolding run_with returned
run_with-Quiet jobs cmd none c = refl
run_with-Quiet jobs cmd (some id) c = run_and_report-Silent jobs.run_command _ c

pub details-Quiet : (jobs : Commands) (id : Option Text) → Quiet (details_of jobs id)
unfolding details_of returned report_details reply_ok failed write_message
details-Quiet jobs none c = refl
details-Quiet jobs (some id) c = go (jobs.run_command _)
  where
    go : (r : Bool × Text) → (report_details jobs r c).control_in ≡ c.control_in
    go (true, output) = refl
    go (false, output) = refl

pub partitions-Quiet :
    (dumps : Dict Text Partition → Text) (run : Text → Bool × Text) (cmd : Text)
    → Quiet (get_partitions dumps run cmd)
unfolding get_partitions report_partitions reply_ok failed write_message
partitions-Quiet dumps run cmd c = go (run cmd).0 _ (report (parse_partitions (run cmd).1))
  where
    report :
        (r : Result (Dict Text Partition))
        → (report_partitions dumps r c).1.control_in ≡ c.control_in
    report (ok d) = refl
    report (err e) = refl

    go :
        (b : Bool) (a : Answer)
        → a.1.control_in ≡ c.control_in
        → (if b then a else (ok tt, failed (some (run cmd).1) c)).1.control_in ≡ c.control_in
    go true a h = h
    go false a h = refl

pub df-Quiet :
    (env : Environment) (run : Text → Bool × Text) (file : Option Text)
    → Quiet (df_file env run file)
unfolding df_file report_output report_space reply_ok failed write_message
df-Quiet env run none c = refl
df-Quiet env run (some path) c = go (run _)
  where
    go : (r : Bool × Text) → (report_output r c).control_in ≡ c.control_in
    go (true, output) = refl
    go (false, output) = refl

pub report_home-KeepsInput :
    (account : Account) (home : Option Text) → KeepsInput (report_home account home)
unfolding report_home reply_ok write_message
report_home-KeepsInput account none = record { at = λ s. refl }
report_home-KeepsInput account (some home) = record { at = λ s. refl }

pub user_info-KeepsInput :
    (os : Os) (account : Account) (identity : Option (Text × Text))
    → KeepsInput (user_info_of os account identity)
unfolding user_info_of report_home failed reply_ok write_message
user_info-KeepsInput os account none = record { at = λ s. refl }
user_info-KeepsInput os account (some (user, groups)) =
    let bound =
      KeepsInput-bind (on_session (cached (get_home_4user os user))) (report_home account)
        (on_session-KeepsInput (cached (get_home_4user os user)))
        (report_home-KeepsInput account) in
    record { at = bound.at }
