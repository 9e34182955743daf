-- ===== src/Setup/Tests.antt =====
-- The settings, run.
use tsi.Base.{
  ◌≡◌, ◌↔◌, refl, Option, none, some, List, [], ◌∷◌, true, false, text_beq, text_eq, contains,
  if◌then◌else◌, Any,
}
use tsi.Base.Dict.{lookup, insert}
use tsi.Base.Text.{Text, txt, strip, lstrip, is_space, split, parse_int, digits_value, is_digit}
use tsi.Server.Rotation.{range_of}
use tsi.Setup.{range_unless, checked_range, range_of_pieces, setup_portrange, setup_allowed_ips}
use tsi.Setup.Machines.{Resolves, setup_allowed_ips_iff}
use tsi.Setup.Range.{Proper, setup_portrange-Proper}
use tsi.Setup.ConfigFile.{Config, flag, process_config_value}
use tsi.Setup.Reading.{get_default_config, read_config_file}
use tsi.Setup.WholeFile.{last_flag, read_config_file-last_flag}

abbrev resolve : Text → Option (List Text)
resolve [] = none
resolve (c ∷ s) = some ((c ∷ []) ∷ [])

setup_allowed_ips_iff_example :
    (contains (setup_allowed_ips resolve (txt "ab,")) (txt "a") ≡ true)
    ↔ Any (Resolves resolve (txt "a")) (split b',' (txt "ab,"))
setup_allowed_ips_iff_example = setup_allowed_ips_iff resolve (txt "ab,") (txt "a")

setup_portrange-Proper_example : Proper (range_of 4 6 4)
unfolding setup_portrange range_of_pieces checked_range range_unless split strip lstrip is_space
    parse_int digits_value is_digit
setup_portrange-Proper_example =
    setup_portrange-Proper (some (txt "4:6")) (range_of 4 6 4) refl refl

abbrev key : Text
key = txt "tsi.switch_uid"

abbrev config_lines : List Text
config_lines =
    txt "# settings\n" ∷ txt " tsi.switch_uid = False\n" ∷ txt "tsi.switch_uid=TRUE\n" ∷ []

abbrev config_read : Config
config_read = insert key (flag true) (insert key (flag false) get_default_config)

read_config_file-last_flag_example :
    lookup key config_read ≡ last_flag key config_lines (lookup key get_default_config)
unfolding contains text_beq read_config_file lstrip tsi.Setup.Reading.is_key process_config_value
    tsi.Base.Format.lower strip
read_config_file-last_flag_example =
    read_config_file-last_flag key config_lines config_read refl refl
