-- ===== src/Setup/WholeFile.antt =====
-- What a configuration file makes of the settings that are flags.
use tsi.Base.{◌≡◌, refl, sym, ap, ◌∙◌, Option, none, some, List, [], ◌∷◌, true}
use tsi.Base.{text_eq, text_beq, contains, if◌then◌else◌}
use tsi.Base.Dict.{lookup}
use tsi.Base.Exec.{Result, ok, err}
use tsi.Base.Text.{Text}
use tsi.Setup.ConfigFile.{Value, flag, Config, boolean_keys, flag_of}
use tsi.Setup.Flags.{process_config_value-flag}
use tsi.Setup.Reading.{parse_line, add_line, read_lines, read_config_file, get_default_config}

-- The value after a line, by what stands on the line.
abbrev pub flag_after : Text → Option (Text × Text) → Option Value → Option Value
flag_after k none v = v
flag_after k (some (key, value)) v = if text_beq key k then some (flag (flag_of value)) else v

-- The value after some lines: the last one that names the key decides.
abbrev pub last_flag : Text → List Text → Option Value → Option Value
last_flag k [] v = v
last_flag k (line ∷ lines) v = last_flag k lines (flag_after k (parse_line line) v)

add_line-flag :
    (k : Text) (line : Option (Text × Text)) (config after : Config)
    → contains boolean_keys k ≡ true
    → add_line line config ≡ ok after
    → lookup k after ≡ flag_after k line (lookup k config)
unfolding add_line
add_line-flag k none config after flagged h = sym (ap (lookup k) (same h))
  where
    same : {x y : Config} → ok x ≡ ok y → x ≡ y
    same e = cc
add_line-flag k (some (key, value)) config after flagged h =
    process_config_value-flag k key value config after flagged h

read_lines-flag :
    (k : Text) (lines : List Text) (config after : Config)
    → contains boolean_keys k ≡ true
    → read_lines lines config ≡ ok after
    → lookup k after ≡ last_flag k lines (lookup k config)
unfolding read_lines
read_lines-flag k [] config after flagged h = sym (ap (lookup k) (same h))
  where
    same : {x y : Config} → ok x ≡ ok y → x ≡ y
    same e = cc
read_lines-flag k (line ∷ lines) config after flagged h =
    go (add_line (parse_line line) config) refl h (read_lines-flag k lines)
  where
    go :
        (r : Result Config)
        → add_line (parse_line line) config ≡ r
        → (elim r as (λ _. Result Config) [ err e ↦ err e | ok next ↦ read_lines lines next ])
          ≡ ok after
        → ((c d : Config)
            → contains boolean_keys k ≡ true
            → read_lines lines c ≡ ok d
            → lookup k d ≡ last_flag k lines (lookup k c))
        → lookup k after ≡ last_flag k lines (flag_after k (parse_line line) (lookup k config))
    go (err e) first h rec = absurd (cc)
    go (ok next) first h rec =
        rec next after flagged h
        ∙ ap (last_flag k lines) (add_line-flag k (parse_line line) config next flagged first)

-- For one of the settings that are flags: a configuration file that is accepted sets it by its last line that
-- names it, to whether the value there is `1` or `true` in any case; without such a line it has its default.
pub read_config_file-last_flag :
    (k : Text) (lines : List Text) (config : Config)
    → contains boolean_keys k ≡ true
    → read_config_file lines ≡ ok config
    → lookup k config ≡ last_flag k lines (lookup k get_default_config)
unfolding read_config_file
read_config_file-last_flag k lines config flagged h =
    read_lines-flag k lines get_default_config config flagged h
