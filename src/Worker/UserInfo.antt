-- ===== src/Worker/UserInfo.antt =====
-- lib/TSI.py, get_user_info: the home, the keys and the attributes of a user.
use tsi.Base.{ℕ, Option, none, some, List, [], ◌∷◌, ◌++◌, Bool, true, false, if◌then◌else◌, text_eq}
use tsi.Base.Exec.{ok, Exec, ◌>>=◌, throw, type_error}
use tsi.Base.Text.{Text, txt, newline, starts_with}
use tsi.Base.Lines.{splitlines}
use tsi.Connector.{reply_ok, failed}
use tsi.UserCache.{Os, get_home_4user}
use tsi.BecomeUser.{cached}
use tsi.Io.Listing.{join_path}
use tsi.Worker.{State, find_identity, on_session, send}
use tsi.Worker.Functions.{add_userkeys, add_userinfo}

-- The lines of a file, or the text of the error.
pub data Opened : Type 0 where
  lines : List Text → Opened
  refused : Text → Opened

-- What the site and the machine supply.
pub record Account : Type 0 where
  pub keyfiles : List Text
  pub open_file : Text → Opened
  pub get_userkeys_cmd : Option Text
  pub get_userinfo_cmd : Option Text
  pub run_command : Text → Bool × Text

-- The response so far, the number of the next key, and the status.
pub record Report : Type 0 where
  pub response : Text
  pub index : ℕ
  pub status : Text

-- `os.path.join(home, keyfile)`: an absolute path stands for itself.
unfoldable pub file_of : Text → Text → Text
unfolding join_path
file_of home keyfile = if starts_with keyfile (txt "/") then keyfile else join_path home keyfile

unfoldable pub with_keys : List Text → Text → Report → Report
with_keys found status r =
    let (response, index) = add_userkeys found r.response r.index in
    record { response = response; index = index; status = r.status ++ status }

unfoldable pub add_keyfile : Text → Opened → Report → Report
unfolding with_keys
add_keyfile file (lines found) r = with_keys found (txt " keyfile '" ++ (file ++ txt "': OK.")) r
add_keyfile file (refused e) r = record r {
  status = r.status ++ (txt " keyfile '" ++ (file ++ (txt "': " ++ (e ++ newline ∷ []))));
}

unfoldable pub add_keyfiles : Account → Text → List Text → Report → Report
unfolding add_keyfile file_of
add_keyfiles account home [] r = r
add_keyfiles account home (keyfile ∷ keyfiles) r =
    let file = file_of home keyfile in
    add_keyfiles account home keyfiles (add_keyfile file (account.open_file file) r)

abbrev command_error : Text → Text → Text → Text
command_error name cmd out = name ++ (cmd ++ (txt "': ERROR " ++ (out ++ txt ".")))

unfoldable pub add_key_command : Text → Bool × Text → Report → Report
unfolding with_keys
add_key_command cmd (true, out) r = with_keys (splitlines out) (txt " key_cmd: OK.") r
add_key_command cmd (false, out) r = record r {
  status = r.status ++ command_error (txt " key_cmd '") cmd out;
}

unfoldable pub add_info_command : Text → Bool × Text → Report → Report
add_info_command cmd (true, out) r = record r {
  response = add_userinfo (splitlines out) r.response;
  status = r.status ++ txt " info_cmd: OK.";
}
add_info_command cmd (false, out) r = record r {
  status = r.status ++ command_error (txt " info_cmd '") cmd out;
}

unfoldable pub with_command :
    Account → (Text → Bool × Text → Report → Report) → Option Text → Report → Report
with_command account add none r = r
with_command account add (some cmd) r = add cmd (account.run_command cmd) r

unfoldable pub info_text : Account → Text → Text
unfolding add_keyfiles with_command add_key_command add_info_command
info_text account home =
    let start : Report = record {
      response = txt "home: " ++ (home ++ newline ∷ []);
      index = 0;
      status = [];
    } in
    let files = add_keyfiles account home account.keyfiles start in
    let keys = with_command account add_key_command account.get_userkeys_cmd files in
    let r = with_command account add_info_command account.get_userinfo_cmd keys in
    r.response ++ (txt "status: " ++ (r.status ++ newline ∷ []))

-- Without a home, `failed` is called with one argument too many.
unfoldable pub report_home : Account → Option Text → Exec State (Unit {0})
unfolding info_text
report_home account none s = throw type_error s
report_home account (some home) s = (ok tt, send (reply_ok (some (info_text account home))) s)

unfoldable pub user_info_of : Os → Account → Option (Text × Text) → Exec State (Unit {0})
unfolding report_home
user_info_of os account none s = (ok tt, send (failed (some (txt "No user/group info given"))) s)
user_info_of os account (some (user, groups)) s =
    (on_session (cached (get_home_4user os user)) >>= report_home account) s

unfoldable pub get_user_info : Os → Account → Text → Exec State (Unit {0})
unfolding user_info_of
get_user_info os account msg = user_info_of os account (find_identity msg)
