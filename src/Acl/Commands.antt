-- ===== src/Acl/Commands.antt =====
-- Which commands lib/ACL.py runs for a request.
use tsi.Base.{
  ◌≡◌, refl, Option, none, some, [], ◌∷◌, ◌++◌, Bool, true, false, text_eq, text_beq, text_beq_iff,
  ◌==◌, arith, ap, ◌⊎◌, inl, inr,
}
use tsi.Base.Exec.{Error, Result, Exec, ◌>>=◌, type_error, attribute_error}
use tsi.Base.Text.{Text, txt}
use tsi.Base.Format.{occurs, show_option}
use tsi.Connector.{Connector}
use tsi.Utils.{extract_parameter}
use tsi.Acl.Runs.{Idle, Once, Idle-Once, then-Once, then-Idle, if-Once}
use tsi.Acl.{
  Session, Site, answer, needed, lifted, prepare_posix_arg, run, report_entries, report_change,
  getfacl_posix, remove_all, change_entry, setfacl_posix, base_arg, check_support, get_entries,
  report_missing, set_entries, report_support, process_acl,
}

answer-Idle : (f : Connector → Connector) → Idle (answer f)
unfolding answer
answer-Idle f = record { at = λ s. refl }

needed-Idle {ℓ} : {A : Type ℓ} (e : Error) (o : Option A) → Idle (needed e o)
unfolding needed
needed-Idle e none = record { at = λ s. refl }
needed-Idle e (some a) = record { at = λ s. refl }

lifted-Idle {ℓ} : {A : Type ℓ} (r : Result A) → Idle (lifted r)
unfolding lifted
lifted-Idle r = record { at = λ s. refl }

report_entries-Idle : (site : Site) (r : Bool × Text) → Idle (report_entries site r)
unfolding report_entries
report_entries-Idle site (true, result) = answer-Idle _
report_entries-Idle site (false, result) = answer-Idle _

report_change-Idle : (site : Site) (r : Bool × Text) → Idle (report_change site r)
unfolding report_change
report_change-Idle site (true, result) = answer-Idle _
report_change-Idle site (false, result) = answer-Idle _

report_missing-Idle :
    (site : Site) (name : Text) (o : Option Text) → Idle (report_missing site name o)
unfolding report_missing
report_missing-Idle site name none = answer-Idle _
report_missing-Idle site name (some v) = record { at = λ s. refl }

module _ (site : Site) (P : Type 0) (p : P) where
  -- One command, and a report of it.
  run-Once :
      (cmd : Text) (report : Bool × Text → Exec Session (Unit {0}))
      → ((r : Bool × Text) → Idle (report r))
      → Once P (run site cmd >>= report)
  unfolding run
  run-Once cmd report idle = record { at = λ s. inr (p, (cmd, (idle (site.run_command cmd)).at _)) }

  getfacl_posix-Once : (path : Text) → Once P (getfacl_posix site path)
  unfolding getfacl_posix
  getfacl_posix-Once path = run-Once _ (report_entries site) (report_entries-Idle site)

  change_entry-Once :
      (path op val : Text) (o : Option (Text × Bool)) → Once P (change_entry site path op val o)
  unfolding change_entry
  change_entry-Once path op val none = Idle-Once (answer-Idle _)
  change_entry-Once path op val (some (base, remove)) =
      then-Once (lifted-Idle (prepare_posix_arg val remove))
        (λ arg. run-Once _ (report_change site) (report_change-Idle site))

  setfacl_posix-Once :
      (path : Text) (command spec : Option Text) → Once P (setfacl_posix site path command spec)
  unfolding setfacl_posix remove_all
  setfacl_posix-Once path command spec = then-Once (needed-Idle type_error command) (λ op.
      if-Once (occurs (txt "RM_ALL") op)
        (λ _. run-Once _ (report_change site) (report_change-Idle site))
        (λ _.
          then-Once (needed-Idle attribute_error spec)
            (λ val. change_entry-Once path op val (base_arg op val))))

-- The entries may be read, or changed by a command that is given.
abbrev pub Asks : Text → Type 0
Asks msg =
    (extract_parameter msg (txt "ACL_OPERATION") none ≡ some (txt "GETFACL"))
    ⊎ ((extract_parameter msg (txt "ACL_OPERATION") none ≡ some (txt "SETFACL"))
        × ((command : Text) × (extract_parameter msg (txt "ACL_COMMAND") none ≡ some command)))

-- A request for the entries of a path that has POSIX ones.
abbrev pub Warranted : Site → Text → Type 0
Warranted site msg =
    (path : Text) × (extract_parameter msg (txt "ACL_PATH") none ≡ some path)
    × (check_support site path ≡ txt "POSIX")
    × Asks msg

-- A test of texts that succeeded.
same_text : (a b : Text) → (a == b) ≡ true → a ≡ b
same_text a b h = (text_beq_iff a b).0 h

shown-some :
    (o : Option Text) (s : Text) → text_beq (txt "None") s ≡ false → show_option o ≡ s → o ≡ some s
unfolding show_option
shown-some none s differs h = absurd (ground (arith, text_beq_iff (txt "None") s))
shown-some (some v) s differs h = ap some h

module _ (site : Site) (msg : Text) where
  -- What needs the path, and runs a command only where the path is there.
  needed_path-Once :
      (P : Type 0) (f : Text → Exec Session (Unit {0})) (o : Option Text)
      → ((path : Text) → o ≡ some path → Once P (f path))
      → Once P (needed type_error o >>= f)
  unfolding needed
  needed_path-Once P f none h = record { at = λ s. inl refl }
  needed_path-Once P f (some path) h = record { at = (h path refl).at }

  change-Once :
      (path : Text) (spec command : Option Text)
      → ((c : Text) → command ≡ some c → Warranted site msg)
      → Once (Warranted site msg) (setfacl_posix site path command spec)
  change-Once path spec none h =
      Idle-Once (record { at = λ s. unfold setfacl_posix needed in refl })
  change-Once path spec (some c) h =
      setfacl_posix-Once site (Warranted site msg) (h c refl) path (some c) spec

  get_entries-Once :
      (path : Text)
      → extract_parameter msg (txt "ACL_PATH") none ≡ some path
      → Asks msg
      → Once (Warranted site msg) (get_entries site path)
  unfolding get_entries
  get_entries-Once path e asks =
      if-Once (check_support site path == txt "POSIX")
        (λ h.
          getfacl_posix-Once site (Warranted site msg)
            (path, e, same_text (check_support site path) (txt "POSIX") h, asks) path)
        (λ _.
          if-Once (check_support site path == txt "NFS")
            (λ _. Idle-Once (record { at = λ s. refl })) (λ _. Idle-Once (answer-Idle _)))

  set_entries-Once :
      (path : Text)
      → extract_parameter msg (txt "ACL_PATH") none ≡ some path
      → extract_parameter msg (txt "ACL_OPERATION") none ≡ some (txt "SETFACL")
      → Once (Warranted site msg) (set_entries site msg path)
  unfolding set_entries
  set_entries-Once path e operation =
      let command = extract_parameter msg (txt "ACL_COMMAND") none in
      let spec = extract_parameter msg (txt "ACL_COMMAND_SPEC") none in
      then-Once
        (then-Idle (report_missing-Idle site (txt "TSI_ACL_COMMAND_SPEC") spec)
          (λ _. report_missing-Idle site (txt "TSI_ACL_COMMAND") command))
        (λ _.
          if-Once (check_support site path == txt "POSIX")
            (λ h. change-Once path spec command (λ c given. (
              path,
              e,
              same_text (check_support site path) (txt "POSIX") h,
              inr (operation, (c, given)),
            )))
            (λ _.
              if-Once (check_support site path == txt "NFS")
                (λ _. Idle-Once (record { at = λ s. refl })) (λ _. Idle-Once (answer-Idle _))))

  report_support-Idle : (path : Text) → Idle (report_support site path)
  unfolding report_support
  report_support-Idle path = answer-Idle _

  process_acl-Once : Once (Warranted site msg) (process_acl site msg)
  unfolding process_acl text_beq
  process_acl-Once =
      let o = extract_parameter msg (txt "ACL_OPERATION") none in
      let operation = show_option o in
      let path = extract_parameter msg (txt "ACL_PATH") none in
      if-Once (operation == txt "CHECK_SUPPORT")
        (λ _.
          needed_path-Once _ (report_support site) path (λ p e. Idle-Once (report_support-Idle p)))
        (λ _.
          if-Once (operation == txt "GETFACL")
            (λ h. needed_path-Once _ (get_entries site) path (λ p e.
              get_entries-Once p e
                (inl (shown-some o (txt "GETFACL") refl (same_text operation (txt "GETFACL") h)))))
            (λ _.
              if-Once (operation == txt "SETFACL")
                (λ h. needed_path-Once _ (set_entries site msg) path (λ p e.
                  set_entries-Once p e
                    (shown-some o (txt "SETFACL") refl (same_text operation (txt "SETFACL") h))))
                (λ _. Idle-Once (answer-Idle _))))

-- Whatever the request, at most one command is run for it; and one is run only if the request names a path whose
-- lists are POSIX ones, and asks for the entries, or for a change of them with a command.
pub process_acl-Warranted :
    (site : Site) (msg : Text) (s : Session)
    → ((process_acl site msg s).1.commands_run ≡ s.commands_run)
      ⊎ (Warranted site msg
          × ((cmd : Text) × ((process_acl site msg s).1.commands_run ≡ s.commands_run ++ cmd ∷ [])))
process_acl-Warranted site msg s = (process_acl-Once site msg).at s
