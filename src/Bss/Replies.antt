-- ===== src/Bss/Replies.antt =====
-- What a submission writes to the channel.
use tsi.Base.{◌≡◌, sym, ap, ◌∙◌, Option, none, some, List, [], ◌∷◌, Bool, true, false}
use tsi.Base.{◌==◌, text_eq, if◌then◌else◌, subst}
use tsi.Base.Exec.{Error, Result, ok, Exec, ◌>>=◌, >>=-ok, type_error, os_error}
use tsi.Base.Text.{Text, txt, starts_with}
use tsi.Connector.{Connector, failed, reply_ok}
use tsi.Utils.{expand_variables}
use tsi.Bss.Submit.{
  Node, Site, reply, write_file, required, lifted, run, report_id, report_submission, allocate,
  launch, submit_commands, submit_raw, submit_alloc, submit_mode, submit,
}

-- One reply, of a failure or of a success, and no other text.
pub data Replied (c d : Connector) : Type 0 where
  with_failure : (message : Option Text) → d ≡ failed message c → Replied c d
  with_success : (message : Option Text) → d ≡ reply_ok message c → Replied c d

-- A run that returns has written one reply.
record Replies (m : Exec Node (Unit {0})) : Type 0 where
  at : (s t : Node) → m s ≡ (ok tt, t) → Replied s.connector t.connector

-- A run that returns has written nothing to the channel.
record Silent {ℓ} {A : Type ℓ} (m : Exec Node A) : Type ℓ where
  at : (s t : Node) (a : A) → m s ≡ (ok a, t) → t.connector ≡ s.connector

Replies-bind {ℓ} :
    {A : Type ℓ} (m : Exec Node A) (f : A → Exec Node (Unit {0}))
    → Silent m
    → ((a : A) → Replies (f a))
    → Replies (m >>= f)
Replies-bind m f quiet after = record {
  at = λ s t h.
      let (a, u, first, second) = >>=-ok m f h in
      subst (λ c. Replied c t.connector) (quiet.at s u a first) ((after a).at u t second);
}

Silent-bind {ℓ κ} :
    {A : Type ℓ} {B : Type κ} (m : Exec Node A) (f : A → Exec Node B)
    → Silent m
    → ((a : A) → Silent (f a))
    → Silent (m >>= f)
Silent-bind m f quiet after = record {
  at = λ s t b h.
      let (a, u, first, second) = >>=-ok m f h in (after a).at u t b second ∙ quiet.at s u a first;
}

required-Silent : {A : Type 0} (e : Error) (o : Option A) → Silent (required e o)
unfolding required
required-Silent e none = record { at = λ s t a h. absurd (cc) }
required-Silent e (some b) = record { at = λ s t a h. sym (ap (λ o. o.1.connector) h) }

lifted-Silent : {A : Type 0} (r : Result A) → Silent (lifted r)
unfolding lifted
lifted-Silent r = record { at = λ s t a h. sym (ap (λ o. o.1.connector) h) }

write_file-Silent : (name content : Text) → Silent (write_file name content)
unfolding write_file
write_file-Silent name content = record { at = λ s t a h. sym (ap (λ o. o.1.connector) h) }

failed-Replies : (message : Option Text) → Replies (reply (failed message))
unfolding reply
failed-Replies message = record {
  at = λ s t h. with_failure message (sym (ap (λ o. o.1.connector) h));
}

reply_ok-Replies : (message : Option Text) → Replies (reply (reply_ok message))
unfolding reply
reply_ok-Replies message = record {
  at = λ s t h. with_success message (sym (ap (λ o. o.1.connector) h));
}

if-Replies :
    (b : Bool) (m n : Exec Node (Unit {0})) → Replies m → Replies n → Replies (if b then m else n)
if-Replies true m n x y = x
if-Replies false m n x y = y

if-Silent {ℓ} :
    {A : Type ℓ} (b : Bool) (m n : Exec Node A) → Silent m → Silent n → Silent (if b then m else n)
if-Silent true m n x y = x
if-Silent false m n x y = y

report_id-Replies : (output : Text) (id : Option Text) → Replies (report_id output id)
unfolding report_id
report_id-Replies output none = failed-Replies _
report_id-Replies output (some job_id) = reply_ok-Replies (some job_id)

module _ (site : Site) where
  run-Silent : (cmd : Text) → Silent (run site cmd)
  unfolding run
  run-Silent cmd = record { at = λ s t a h. sym (ap (λ o. o.1.connector) h) }

  report_submission-Replies :
      (is_alloc : Bool) (outcome : Bool × Text) → Replies (report_submission site is_alloc outcome)
  unfolding report_submission
  report_submission-Replies is_alloc (false, output) = failed-Replies (some output)
  report_submission-Replies true (true, output) = reply_ok-Replies none
  report_submission-Replies false (true, output) =
      report_id-Replies output (site.extract_job_id output)

  allocate-Silent : (msg : Text) (submit_cmds : List Text) → Silent (allocate site msg submit_cmds)
  unfolding allocate
  allocate-Silent msg submit_cmds =
      Silent-bind _ _ (required-Silent type_error _)
        (λ pid_file_name. Silent-bind _ _ (write_file-Silent _ _) (λ _. run-Silent _))

  launch-Silent :
      (msg uspace_dir : Text) (submit_cmds : List Text)
      → Silent (launch site msg uspace_dir submit_cmds)
  unfolding launch
  launch-Silent msg uspace_dir submit_cmds =
      Silent-bind _ _ (write_file-Silent _ _)
        (λ _. Silent-bind _ _ (write_file-Silent _ _) (λ _. run-Silent _))

  submit_commands-Replies :
      (msg uspace_dir : Text) (is_alloc : Bool) (submit_cmds : List Text)
      → Replies (submit_commands site msg uspace_dir is_alloc submit_cmds)
  unfolding submit_commands
  submit_commands-Replies msg uspace_dir is_alloc submit_cmds =
      Replies-bind _ _
        (if-Silent is_alloc _ _ (allocate-Silent msg submit_cmds)
          (launch-Silent msg uspace_dir submit_cmds))
        (λ outcome. report_submission-Replies is_alloc outcome)

  submit_raw-Replies :
      (msg uspace_dir : Text) (name : Option Text) → Replies (submit_raw site msg uspace_dir name)
  unfolding submit_raw
  submit_raw-Replies msg uspace_dir none = failed-Replies _
  submit_raw-Replies msg uspace_dir (some name) =
      Replies-bind _ _ (required-Silent os_error (site.read_file name))
        (λ content. submit_commands-Replies msg uspace_dir false (content ∷ []))

  submit_alloc-Replies :
      (msg uspace_dir : Text) (cmds : Option (List Text))
      → Replies (submit_alloc site msg uspace_dir cmds)
  unfolding submit_alloc
  submit_alloc-Replies msg uspace_dir none = failed-Replies _
  submit_alloc-Replies msg uspace_dir (some cmds) = submit_commands-Replies msg uspace_dir true cmds

  submit_mode-Replies :
      (msg uspace_dir job_mode : Text) → Replies (submit_mode site msg uspace_dir job_mode)
  unfolding submit_mode
  submit_mode-Replies msg uspace_dir job_mode =
      if-Replies (job_mode == txt "normal") _ _
        (Replies-bind _ _ (lifted-Silent (site.create_submit_script msg))
          (λ cmds. submit_commands-Replies msg uspace_dir false cmds))
        (if-Replies (job_mode == txt "raw") _ _ (submit_raw-Replies msg uspace_dir _) (
          if-Replies (starts_with job_mode (txt "alloc")) _ _
            (submit_alloc-Replies msg uspace_dir (site.create_alloc_script msg))
            (failed-Replies _)))

  submit-Replies : (original : Text) → Replies (submit site original)
  unfolding submit
  submit-Replies original = Replies-bind _ _ (required-Silent type_error _) (λ uspace_dir.
      Replies-bind _ _ (required-Silent type_error _) (λ job_mode.
        submit_mode-Replies (expand_variables site.environment original) uspace_dir job_mode))

-- A submission that returns has written exactly one reply to the channel, whatever the job mode, the
-- scripts of the batch system and the outcome of the command.
pub submit-Replied :
    (site : Site) (original : Text) (s t : Node)
    → submit site original s ≡ (ok tt, t)
    → Replied s.connector t.connector
submit-Replied site original s t h = (submit-Replies site original).at s t h
