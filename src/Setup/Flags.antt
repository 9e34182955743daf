-- ===== src/Setup/Flags.antt =====
-- The settings that are flags.
use tsi.Base.{◌≡◌, refl, sym, ap, ◌∙◌, Option, none, some, List, true, false, arith}
use tsi.Base.{◌==◌, ◌||◌, text_eq, text_beq, text_beq_iff, contains, if◌then◌else◌, drop}
use tsi.Base.Dict.{lookup, insert, lookup-insert}
use tsi.Base.Exec.{Result, ok, err}
use tsi.Base.Text.{Text, txt, starts_with}
use tsi.Server.Admission.{either}
use tsi.Utils.Access.{Rdn, convert_dn}
use tsi.Setup.ConfigFile.{
  Value, flag, text, number, acl, dns, paths, Config, boolean_keys, flag_of, put_acl, acl_value,
  put_dn, other_value, process_config_value,
}

module _ (k : Text) (config : Config) where
  -- A value that the line leaves as it was, if the line is accepted.
  abbrev Keeps : Result Config → Type 0
  Keeps r = (after : Config) → r ≡ ok after → lookup k after ≡ lookup k config

  insert-Keeps : (j : Text) (v : Value) → text_beq j k ≡ false → Keeps (ok (insert j v config))
  insert-Keeps j v other after h =
      ap (lookup k) (the_config h) ∙ lookup-insert j k v config ∙ rw other refl
    where
      the_config : {x y : Config} → ok x ≡ ok y → y ≡ x
      the_config e = cc

  module _ (flagged : contains boolean_keys k ≡ true) where
    unlike : (j : Text) → contains boolean_keys j ≡ false → text_beq j k ≡ false
    unlike j h = ground (arith, text_beq_iff j k, ap (contains boolean_keys))

    put_acl-Keeps : (path value : Text) (old : Option Value) → Keeps (put_acl path value old config)
    unfolding put_acl contains text_beq
    put_acl-Keeps path value none after h = insert-Keeps _ _ (unlike (txt "tsi.acl") refl) after h
    put_acl-Keeps path value (some (acl d)) after h =
        insert-Keeps _ _ (unlike (txt "tsi.acl") refl) after h
    put_acl-Keeps path value (some (flag _)) after h = absurd (cc)
    put_acl-Keeps path value (some (text _)) after h = absurd (cc)
    put_acl-Keeps path value (some (number _)) after h = absurd (cc)
    put_acl-Keeps path value (some (dns _)) after h = absurd (cc)
    put_acl-Keeps path value (some (paths _)) after h = absurd (cc)

    put_dn-Keeps : (dn : Result (List Rdn)) → Keeps (put_dn dn config)
    unfolding put_dn contains text_beq
    put_dn-Keeps (err e) after h = absurd (cc)
    put_dn-Keeps (ok dn) after h = insert-Keeps _ _ (unlike (txt "tsi.allowed_dns") refl) after h

    other_value-Keeps :
        (key value : Text)
        → contains boolean_keys key ≡ false
        → Keeps (other_value key value config)
    unfolding other_value acl_value contains text_beq
    other_value-Keeps key value h =
        either Keeps (starts_with key (txt "tsi.acl")) _ _
          (λ _.
            either Keeps (value == txt "NONE" || value == txt "POSIX" || value == txt "NFS") _ _
              (λ _. put_acl-Keeps (drop 8 key) value (lookup (txt "tsi.acl") config))
              (λ _ after e. absurd (cc)))
          (λ _.
            either Keeps (starts_with key (txt "tsi.allowed_dn.")) _ _
              (λ _. put_dn-Keeps (convert_dn value))
              (λ _.
                either Keeps (key == txt "tsi.keyfiles") _ _
                  (λ _. insert-Keeps _ _ (unlike (txt "tsi.keyfiles") refl))
                  (λ _.
                    either Keeps (key == txt "tsi.njs_machine") _ _
                      (λ _. insert-Keeps _ _ (unlike (txt "tsi_unicorex_machine") refl))
                      (λ _.
                        either Keeps (key == txt "tsi_njs_port") _ _
                          (λ _. insert-Keeps _ _ (unlike (txt "tsi_unicorex_port") refl))
                          (λ _. insert-Keeps key (text value) (unlike key h))))))

-- For one of the settings that are flags: a line of the configuration file that is accepted sets it
-- exactly if the line names it, and then to whether the value is `1` or `true` in any case; every
-- other line leaves it as it was.
pub process_config_value-flag :
    (k key value : Text) (config after : Config)
    → contains boolean_keys k ≡ true
    → process_config_value key value config ≡ ok after
    → lookup k after ≡ (if text_beq key k then some (flag (flag_of value)) else lookup k config)
unfolding process_config_value
process_config_value-flag k key value config after flagged h =
    either (λ (r : Result Config). r ≡ ok after → lookup k after ≡ expected)
      (contains boolean_keys key) _ _
      (λ _ e. ap (lookup k) (same e) ∙ lookup-insert key k (flag (flag_of value)) config)
      (λ plain e.
        other_value-Keeps k config flagged key value plain after e
        ∙ sym (rw (unlike k config flagged key plain) refl))
      h
  where
    expected : Option Value
    expected = if text_beq key k then some (flag (flag_of value)) else lookup k config

    same : {x y : Config} → ok x ≡ ok y → y ≡ x
    same e = cc
