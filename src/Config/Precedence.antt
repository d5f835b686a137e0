-- ===== src/Config/Precedence.antt =====
-- Which of the sources of a setting wins in `from_mapping` of config.py: the environment, the document
-- or the defaults.
use ca1_health_monitor.Prelude.{String, Option, ◌++◌, returned, ◌≡◌, sym, ap, ◌∙◌}
use ca1_health_monitor.Prelude.Text.{append}
use ca1_health_monitor.Prelude.Dict.{Dict, or_else, latest, latest-append}
use ca1_health_monitor.Common.Types.{Value, Payload}
use ca1_health_monitor.Config.{ServiceConfig, default_config}
use ca1_health_monitor.Config.Fields.{
  Section, section_name, service_fields, section_fields, service_values, section_values,
}
use ca1_health_monitor.Config.Environment.{env_overrides}
use ca1_health_monitor.Config.Load.{top_level, from_mapping}
use ca1_health_monitor.Config.Applied.{read, effective, settled, apply_section-read}
use ca1_health_monitor.Config.Built.{section_entries, entries_for}
use ca1_health_monitor.Config.Accepted.{from_mapping-built}
use ca1_health_monitor.Config.Variables.{as_value, variable, latest-environment}

-- The text of the environment for a key, or else the value of the document's last entry for it.
abbrev pub given : String → String → Dict String → Payload → Option Value
given section key environ entries =
    or_else (as_value (variable section key environ)) (latest key entries)

latest-given :
    (section key : String) (environ : Dict String) (entries : Payload)
    → latest key (entries ++ entries_for section (env_overrides environ))
      ≡ given section key environ entries
latest-given section key environ entries =
    latest-append key entries (entries_for section (env_overrides environ))
    ∙ ap (λ x. or_else x (latest key entries)) (latest-environment section key environ)

-- A setting of a configuration that `from_mapping` returns comes from the last variable of the
-- environment that stands for it, where there is one, else from the document, where it has the key,
-- and else from the defaults; a text or value that is given is coerced to the field's declared type.
-- This holds of the fields of every section and of the configuration's own.
pub from_mapping-precedence :
    (repr : Value → String) (document : Payload) (environ : Dict String) (c : ServiceConfig)
    → from_mapping repr document environ ≡ returned c
    → (key : String)
    → ((s : Section)
        → settled repr
            (section_fields s)
            (append (section_name s) ".")
            key
            (given (section_name s) key environ (section_entries s document))
            (read (section_fields s) key (section_values s default_config))
          ≡ returned (read (section_fields s) key (section_values s c)))
      × (settled repr service_fields "" key
            (given "" key environ (top_level document))
            (read service_fields key (service_values default_config))
          ≡ returned (read service_fields key (service_values c)))
unfolding effective
from_mapping-precedence repr document environ c h key =
    let (valid, sections, service, _) = from_mapping-built repr document environ c h in
    (
      λ s.
          let before = append (section_name s) "." in
          let old = read (section_fields s) key (section_values s default_config) in
          let entries = section_entries s document in
          ap (λ v. settled repr (section_fields s) before key v old)
            (sym (latest-given (section_name s) key environ entries))
          ∙ apply_section-read repr (section_fields s) before
              (entries ++ entries_for (section_name s) (env_overrides environ))
              (section_values s default_config) (section_values s c) (sections s) key,
      ap
            (λ v.
              settled repr service_fields "" key v
                (read service_fields key (service_values default_config)))
            (sym (latest-given "" key environ (top_level document)))
          ∙ apply_section-read repr service_fields ""
              (top_level document ++ entries_for "" (env_overrides environ))
              (service_values default_config) (service_values c) service key,
    )
