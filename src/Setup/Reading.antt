-- ===== src/Setup/Reading.antt =====
-- lib/TSI.py: the default configuration, the configuration file, and finish_setup.
use tsi.Base.{
  ℕ, Option, none, some, List, [], ◌∷◌, Bool, true, false, ◌==◌, ◌||◌, text_eq, nat_eq,
  if◌then◌else◌,
}
use tsi.Base.Exec.{Result, ok, err}
use tsi.Base.Text.{Text, txt, strip, lstrip, is_digit}
use tsi.Base.Lines.{with_run}
use tsi.Bss.Scripts.{is_letter}
use tsi.Setup.ConfigFile.{flag, text, number, paths, Config, process_config_value}

-- `tsi.child_pids` and the keys whose value is `None` are not stored.
abbrev pub get_default_config : Config
get_default_config =
    (txt "tsi.default_job_name", text (txt "UnicoreJob"))
    ∷ (txt "tsi.nodes_filter", text [])
    ∷ (txt "tsi.userCacheTtl", number 600)
    ∷ (txt "tsi.enforce_os_gids", flag true)
    ∷ (txt "tsi.fail_on_invalid_gids", flag false)
    ∷ (txt "tsi.use_id_to_resolve_gids", flag true)
    ∷ (txt "tsi.open_user_sessions", flag false)
    ∷ (txt "tsi.switch_uid", flag true)
    ∷ (txt "tsi.debug", number 0)
    ∷ (txt "tsi.use_syslog", flag false)
    ∷ (txt "tsi.worker.id", number 1)
    ∷ (txt "tsi.my_addr", text [])
    ∷ (txt "tsi.my_port", number 4433)
    ∷ (txt "tsi.unicorex_machine", text (txt "localhost"))
    ∷ (txt "tsi.disable_ipv6", flag false)
    ∷ (txt "tsi.safe_dir", text (txt "/tmp"))
    ∷ (txt "tsi.keyfiles", paths (txt ".ssh/authorized_keys" ∷ []))
    ∷ (txt "tsi.use_login_shell", flag true)
    ∷ (txt "tsi.testing", flag false)
    ∷ []

-- `[a-zA-Z0-9.\-_/]`
unfoldable pub is_key : ℕ → Bool
unfolding is_digit
is_key c = is_letter c || is_digit c || (c == b'.') || (c == b'-') || (c == b'_') || (c == b'/')

unfoldable pub value_after : Text → Text → Option (Text × Text)
value_after key [] = none
value_after key (c ∷ s) = if c == b'=' then some (key, strip s) else none

-- `\s*([a-zA-Z0-9.\-_/]+)\s*=\s*(.*)$`: the key, and the value without the space around it.
unfoldable pub parse_line : Text → Option (Text × Text)
unfolding with_run value_after
parse_line line = with_run is_key (lstrip line) (λ key rest. value_after key (lstrip rest))

-- A line of another form is passed over; an error of a value is let through.
unfoldable pub add_line : Option (Text × Text) → Config → Result Config
add_line none config = ok config
add_line (some (key, value)) config = process_config_value key value config

unfoldable pub read_lines : List Text → Config → Result Config
unfolding parse_line add_line
read_lines [] config = ok config
read_lines (line ∷ lines) config = elim (add_line (parse_line line) config) [
  | err e ↦ err e
  | ok next ↦ read_lines lines next
]

unfoldable pub read_config_file : List Text → Result Config
unfolding read_lines
read_config_file lines = read_lines lines get_default_config
