-- ===== src/Worker/Functions.antt =====
-- lib/TSI.py: the functions of the table that the module has itself.
use tsi.Base.{ℕ, suc, Option, none, some, List, [], ◌∷◌, ◌++◌, Bool, if◌then◌else◌}
use tsi.Base.Int.{ℤ}
use tsi.Base.Text.{Text, txt, newline, starts_with, strip}
use tsi.Base.Format.{occurs, show_nat, show_int}
use tsi.Connector.{Connector, reply_ok, failed, write_message}

unfoldable pub ping : Text → Connector → Connector
ping version c = reply_ok (some version) c

abbrev pub uid_text : Option ℤ → Text
uid_text none = txt "n/a"
uid_text (some n) = show_int n

-- `tsi.effective_uid` is set once the server has been initialised.
unfoldable pub ping_uid : Text → Option ℤ → Connector → Connector
ping_uid version effective_uid c =
    write_message (txt " running as UID [" ++ (uid_text effective_uid ++ txt "]"))
      (reply_ok (some version) c)

-- `run_command` takes the script, and whether to discard the output.
unfoldable pub execute_script : (Text → Bool → Bool × Text) → Text → Connector → Connector
execute_script run_command msg c =
    let (success, output) =
      run_command msg (occurs (txt "#TSI_DISCARD_OUTPUT true" ++ newline ∷ []) msg) in
    if success then reply_ok (some output) c else failed (some output) c

-- Comments are passed over; the keys are numbered from the index on.
unfoldable pub add_userkeys : List Text → Text → ℕ → Text × ℕ
add_userkeys [] response index = (response, index)
add_userkeys (line ∷ lines) response index =
    let skipped = add_userkeys lines response index in
    let key =
      txt "Accepted key " ++ (show_nat index ++ (txt ": " ++ (strip line ++ newline ∷ []))) in
    let added = add_userkeys lines (response ++ key) (suc index) in
    if starts_with line (txt "#") then skipped else added

unfoldable pub add_userinfo : List Text → Text → Text
add_userinfo [] response = response
add_userinfo (line ∷ lines) response =
    let skipped = add_userinfo lines response in
    let attribute = txt "Attribute: " ++ (strip line ++ newline ∷ []) in
    let added = add_userinfo lines (response ++ attribute) in
    if starts_with line (txt "#") then skipped else added
