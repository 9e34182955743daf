-- ===== src/Acl.antt =====
-- lib/ACL.py: access control lists of files.
pub mod Support
pub mod Runs
pub mod Commands
mod Tests
use tsi.Base.{
  ℕ, zero, suc, Option, none, some, List, [], ◌∷◌, ◌++◌, Bool, true, false, ◌==◌, text_eq, nat_eq,
  if◌then◌else◌, ltb, ◌&&◌, ◌||◌,
}
use tsi.Base.Exec.{
  Error, Result, ok, err, Exec, ◌>>=◌, ◌>>◌, pure, throw, type_error, index_error, attribute_error,
}
use tsi.Base.Text.{Text, txt, starts_with, split}
use tsi.Base.Format.{occurs, show_option}
use tsi.Base.Lines.{splitlines}
use tsi.Connector.{Connector, failed, reply_ok, write_message}
use tsi.Utils.{extract_parameter}

-- The channel, and the commands that were run.
pub record Session : Type 0 where
  pub connector : Connector
  pub commands_run : List Text

-- `match_size key path` is the length of the match of the pattern `^key` at the path. The commands are the
-- values of `tsi.getfacl` and `tsi.setfacl`, or `/bin/false`.
pub record Site : Type 0 where
  pub acl : List (Text × Text)
  pub match_size : Text → Text → Option ℕ
  pub getfacl : Text
  pub setfacl : Text
  pub run_command : Text → Bool × Text

abbrev pub size : Site → Text → Text → ℕ
size site path key = elim (site.match_size key path) [ none ↦ 0 | some n ↦ n ]

unfoldable pub answer : (Connector → Connector) → Exec Session (Unit {0})
answer f s = (ok tt, record s { connector = f s.connector })

unfoldable pub needed {ℓ} : {A : Type ℓ} → Error → Option A → Exec Session A
needed e none s = (err e, s)
needed e (some a) s = (ok a, s)

-- One of the lines that show a user or a group.
abbrev pub shows_entry : Text → Bool
shows_entry line =
    starts_with line (txt "user")
    || starts_with line (txt "group")
    || starts_with line (txt "default:user")
    || starts_with line (txt "default:group")

unfoldable pub write_entries : List Text → Connector → Connector
write_entries [] c = c
write_entries (line ∷ lines) c =
    write_entries lines (if shows_entry line then write_message line c else c)

-- `oargs[i]`
unfoldable pub item : ℕ → List Text → Option Text
item i [] = none
item zero (a ∷ args) = some a
item (suc i) (a ∷ args) = item i args

-- `re.match(r"[D]?U", s)` for the character `U`
unfoldable pub marks : ℕ → Text → Bool
marks u s = starts_with s (u ∷ []) || starts_with s (b'D' ∷ u ∷ [])

unfoldable pub subject_of : Text → Option Text → Result Text
subject_of kind none = err index_error
subject_of kind (some name) = ok (kind ++ name)

unfoldable pub with_rights : Bool → Text → Option Text → Result Text
with_rights true ret rights = ok ret
with_rights false ret none = err index_error
with_rights false ret (some rights) = ok (ret ++ (b':' ∷ rights))

unfoldable pub first_item : List Text → Text
first_item [] = []
first_item (a ∷ args) = a

unfoldable pub prepare_posix_arg : Text → Bool → Result Text
unfolding subject_of with_rights marks item first_item
prepare_posix_arg val remove =
    let oargs = split b' ' val in
    let subject =
      (if marks b'U' (first_item oargs)
        then subject_of (txt "user:") (item 1 oargs)
        else if marks b'G' (first_item oargs)
        then subject_of (txt "group:") (item 1 oargs)
        else ok []) in
    elim subject [ err e ↦ err e | ok ret ↦ with_rights remove ret (item 2 oargs) ]

unfoldable pub lifted {ℓ} : {A : Type ℓ} → Result A → Exec Session A
lifted r s = (r, s)

-- `-m` and `-x`, with `-d` for a default entry; no other command is known.
unfoldable pub base_arg : Text → Text → Option (Text × Bool)
base_arg op val =
    let default_entry = if starts_with val (txt "D") then txt "-d " else [] in
    if occurs (txt "MODIFY") op
    then some (default_entry ++ txt "-m", false)
    else if occurs (txt "RM") op
    then some (default_entry ++ txt "-x", true)
    else none

unfoldable pub recursive_flag : Text → Text
recursive_flag op = if occurs (txt "RECURSIVE") op then txt "-R " else []

module _ (site : Site) where
  -- A longer match replaces the best one; the first of several equally long ones stays.
  unfoldable pub best_match : Text → List (Text × Text) → ℕ × Text → ℕ × Text
  best_match path [] best = best
  best_match path ((key, kind) ∷ more) best =
      best_match path more
        (if ltb best.0 (size site path key) then (size site path key, kind) else best)

  unfoldable pub check_support : Text → Text
  unfolding best_match
  check_support path = (best_match path site.acl (0, txt "NONE")).1

  unfoldable pub run : Text → Exec Session (Bool × Text)
  run cmd s = (ok (site.run_command cmd), record s { commands_run = s.commands_run ++ cmd ∷ [] })

  unfoldable pub report_entries : Bool × Text → Exec Session (Unit {0})
  unfolding answer write_entries
  report_entries (true, result) = answer (λ c. write_entries (splitlines result) (reply_ok none c))
  report_entries (false, result) = answer (failed (some result))

  unfoldable pub getfacl_posix : Text → Exec Session (Unit {0})
  unfolding run report_entries
  getfacl_posix path = run (site.getfacl ++ (b' ' ∷ path)) >>= report_entries

  unfoldable pub report_change : Bool × Text → Exec Session (Unit {0})
  unfolding answer
  report_change (true, result) = answer (reply_ok none)
  report_change (false, result) = answer (failed (some result))

  -- Every entry is removed.
  unfoldable pub remove_all : Text → Text → Exec Session (Unit {0})
  unfolding run report_change recursive_flag
  remove_all path op =
      run (site.setfacl ++ (txt " -b " ++ (recursive_flag op ++ (b'\'' ∷ (path ++ txt "'")))))
      >>= report_change

  unfoldable pub change_entry : Text → Text → Text → Option (Text × Bool) → Exec Session (Unit {0})
  unfolding run report_change recursive_flag prepare_posix_arg lifted answer
  change_entry path op val none = answer (failed (some (txt "WRONG SETFACL SYNTAX")))
  change_entry path op val (some (base, remove)) = lifted (prepare_posix_arg val remove) >>= λ arg.
      run (
        site.setfacl
        ++ (b' '
            ∷ (recursive_flag op
                ++ (b' ' ∷ (base ++ (b' ' ∷ (arg ++ (txt " '" ++ (path ++ txt "'")))))))))
      >>= report_change

  -- The command is needed first, and the specification where not all is removed.
  unfoldable pub setfacl_posix : Text → Option Text → Option Text → Exec Session (Unit {0})
  unfolding needed remove_all change_entry base_arg
  setfacl_posix path command spec = needed type_error command >>= λ op.
      (if occurs (txt "RM_ALL") op
        then remove_all path op
        else (needed attribute_error spec >>= λ val. change_entry path op val (base_arg op val)))

  unfoldable pub get_entries : Text → Exec Session (Unit {0})
  unfolding getfacl_posix check_support
  get_entries path =
      if check_support path == txt "POSIX"
      then getfacl_posix path
      else if check_support path == txt "NFS"
      then pure tt
      else answer (failed (some (txt "ERROR: Getting ACL on this file system is unsupported.")))

  -- A parameter that is missing is reported, and nothing more.
  unfoldable pub report_missing : Text → Option Text → Exec Session (Unit {0})
  unfolding answer
  report_missing name none = answer (failed (some (txt "Missing parameter " ++ name)))
  report_missing name (some value) = pure tt

  unfoldable pub set_entries : Text → Text → Exec Session (Unit {0})
  unfolding report_missing setfacl_posix check_support
  set_entries msg path =
      let command = extract_parameter msg (txt "ACL_COMMAND") none in
      let spec = extract_parameter msg (txt "ACL_COMMAND_SPEC") none in
      report_missing (txt "TSI_ACL_COMMAND_SPEC") spec
      >> report_missing (txt "TSI_ACL_COMMAND") command
      >> (if check_support path == txt "POSIX"
          then setfacl_posix path command spec
          else if check_support path == txt "NFS"
          then pure tt
          else answer
              (failed (some (txt "ERROR: Setting ACL on this file system is unsupported."))))

  unfoldable pub report_support : Text → Exec Session (Unit {0})
  unfolding answer check_support
  report_support path =
      answer
        (reply_ok (some (if check_support path == txt "NONE" then txt "false" else txt "true")))

  -- `abspath(None)` is a `TypeError`.
  unfoldable pub process_acl : Text → Exec Session (Unit {0})
  unfolding needed report_support get_entries set_entries answer
  process_acl msg =
      let operation = show_option (extract_parameter msg (txt "ACL_OPERATION") none) in
      let path = extract_parameter msg (txt "ACL_PATH") none in
      if operation == txt "CHECK_SUPPORT"
      then needed type_error path >>= report_support
      else if operation == txt "GETFACL"
      then needed type_error path >>= get_entries
      else if operation == txt "SETFACL"
      then needed type_error path >>= set_entries msg
      else answer (failed (some (txt "UNSUPPORTED_OPERATION: '" ++ (operation ++ txt "'"))))
