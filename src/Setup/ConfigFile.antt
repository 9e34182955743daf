-- ===== src/Setup/ConfigFile.antt =====
-- lib/TSI.py, `process_config_value`: a line of the configuration file.
use tsi.Base.{
  ℕ, Option, none, some, List, [], ◌∷◌, ◌++◌, Bool, true, false, ◌==◌, ◌||◌, ◌&&◌, text_eq,
  contains, drop, if◌then◌else◌,
}
use tsi.Base.Dict.{Dict, lookup, insert}
use tsi.Base.Exec.{Result, ok, err, key_error, type_error}
use tsi.Base.Text.{Text, txt, strip, split, starts_with}
use tsi.Base.Format.{lower}
use tsi.Utils.Access.{Rdn, convert_dn}

-- The values of the dictionary of settings.
pub data Value : Type 0 where
  flag : Bool → Value
  text : Text → Value
  number : ℕ → Value
  acl : Dict Text Text → Value
  dns : List (List Rdn) → Value
  paths : List Text → Value

abbrev pub Config : Type 0
Config = Dict Text Value

abbrev pub boolean_keys : List Text
boolean_keys =
    txt "tsi.open_user_sessions"
    ∷ txt "tsi.switch_uid"
    ∷ txt "tsi.enforce_os_gids"
    ∷ txt "tsi.fail_on_invalid_gids"
    ∷ txt "tsi.use_id_to_resolve_gids"
    ∷ txt "tsi.use_syslog"
    ∷ txt "tsi.debug"
    ∷ txt "tsi.disable_ipv6"
    ∷ txt "tsi.use_login_shell"
    ∷ []

-- `value.lower() in ["1", "true"]`. No letter outside ASCII has one of these as its lowercase.
abbrev pub flag_of : Text → Bool
flag_of value = contains (txt "1" ∷ txt "true" ∷ []) (lower value)

-- `config.get('tsi.acl', {})`. A value of another kind takes no item.
unfoldable pub put_acl : Text → Text → Option Value → Config → Result Config
put_acl path value none config = ok (insert (txt "tsi.acl") (acl ((path, value) ∷ [])) config)
put_acl path value (some (acl d)) config =
    ok (insert (txt "tsi.acl") (acl (insert path value d)) config)
put_acl path value (some (flag _)) config = err type_error
put_acl path value (some (text _)) config = err type_error
put_acl path value (some (number _)) config = err type_error
put_acl path value (some (dns _)) config = err type_error
put_acl path value (some (paths _)) config = err type_error

unfoldable pub acl_value : Text → Text → Config → Result Config
acl_value key value config =
    if value == txt "NONE" || value == txt "POSIX" || value == txt "NFS"
    then put_acl (drop 8 key) value (lookup (txt "tsi.acl") config) config
    else err key_error

-- The entries so far, of `config.get('tsi.allowed_dns', [])`.
abbrev pub dns_of : Option Value → List (List Rdn)
dns_of (some (dns ds)) = ds
dns_of none = []
dns_of (some (flag _)) = []
dns_of (some (text _)) = []
dns_of (some (number _)) = []
dns_of (some (acl _)) = []
dns_of (some (paths _)) = []

unfoldable pub put_dn : Result (List Rdn) → Config → Result Config
put_dn (err e) config = err e
put_dn (ok dn) config =
    let so_far = dns_of (lookup (txt "tsi.allowed_dns") config) in
    ok (insert (txt "tsi.allowed_dns") (dns (so_far ++ dn ∷ [])) config)

-- The pieces that are not empty, without the space around them.
unfoldable pub keyfiles : List Text → List Text
keyfiles [] = []
keyfiles (v ∷ vs) = let rest = keyfiles vs in if strip v == [] then rest else strip v ∷ rest

-- The settings that are no flags.
unfoldable pub other_value : Text → Text → Config → Result Config
other_value key value config =
    if starts_with key (txt "tsi.acl")
    then acl_value key value config
    else if starts_with key (txt "tsi.allowed_dn.")
    then put_dn (convert_dn value) config
    else if key == txt "tsi.keyfiles"
    then ok (insert (txt "tsi.keyfiles") (paths (keyfiles (split b':' value))) config)
    else if key == txt "tsi.njs_machine"
    then ok (insert (txt "tsi_unicorex_machine") (text value) config)
    else if key == txt "tsi_njs_port"
    then ok (insert (txt "tsi_unicorex_port") (text value) config)
    else ok (insert key (text value) config)

unfoldable pub process_config_value : Text → Text → Config → Result Config
process_config_value key value config =
    if contains boolean_keys key
    then ok (insert key (flag (flag_of value)) config)
    else other_value key value config

-- `config.get(key) is not None`
unfoldable pub is_set : Text → Config → Bool
is_set key config = elim (lookup key config) [ none ↦ false | some _ ↦ true ]

-- Access control lists are on where both commands are configured.
unfoldable pub setup_acl : Config → Config
setup_acl config =
    let posix = is_set (txt "tsi.getfacl_cmd") config && is_set (txt "tsi.setfacl_cmd") config in
    let with_posix = insert (txt "tsi.posixacl_enabled") (flag posix) config in
    let nfs =
      is_set (txt "tsi.nfs_getfacl_cmd") with_posix
      && is_set (txt "tsi.nfs_setfacl_cmd") with_posix in
    insert (txt "tsi.nfsacl_enabled") (flag nfs) with_posix
