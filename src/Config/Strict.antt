-- ===== src/Config/Strict.antt =====
-- What `from_mapping` and `load` of config.py never accept.
use ca1_health_monitor.Prelude.{
  String, Bool-cases, none, some, [], ◌∷◌, ◌++◌, returned, ◌==◌, eq_iff, All, ◌≡◌, ◌≢◌, inl, inr,
  refl, subst,
}
use ca1_health_monitor.Prelude.Text.{append}
use ca1_health_monitor.Prelude.Dict.{Dict, latest}
use ca1_health_monitor.Common.Types.{Value, dict, Fields, Payload}
use ca1_health_monitor.Config.{ServiceConfig, default_config}
use ca1_health_monitor.Config.Rules.{Rules, validate_iff}
use ca1_health_monitor.Config.Fields.{
  Section, section_name, section_named, service_fields, section_fields, service_values,
  section_values,
}
use ca1_health_monitor.Config.Environment.{env_overrides}
use ca1_health_monitor.Config.Load.{top_level, items_of, from_mapping, FileDocument, parsed, load}
use ca1_health_monitor.Config.Applied.{Fits, apply_section_iff}
use ca1_health_monitor.Config.Slots.{section_named-name}
use ca1_health_monitor.Config.Service.{NoSection}
use ca1_health_monitor.Config.Built.{section_entries, entries_for}
use ca1_health_monitor.Config.Accepted.{from_mapping-built}
use ca1_health_monitor.Config.Variables.{variable, latest-environment}

-- When `from_mapping` returns, every entry of the document's object for a section, every other entry
-- of the document and every entry that the environment has for them names a field of its section (or
-- of the configuration itself) and can be coerced to the field's declared type.
pub from_mapping-strict :
    (repr : Value → String) (document : Payload) (environ : Dict String) (c : ServiceConfig)
    → from_mapping repr document environ ≡ returned c
    → ((s : Section)
        → All
            (Fits repr (section_fields s) (append (section_name s) "."))
            (section_entries s document ++ entries_for (section_name s) (env_overrides environ)))
      × All
          (Fits repr service_fields "")
          (top_level document ++ entries_for "" (env_overrides environ))
from_mapping-strict repr document environ c h =
    let (valid, sections, service, _) = from_mapping-built repr document environ c h in
    (
      λ s.
          (apply_section_iff repr (section_fields s) (append (section_name s) ".")
              (section_entries s document ++ entries_for (section_name s) (env_overrides environ))
              (section_values s default_config)).0
            (section_values s c, sections s),
      (apply_section_iff repr service_fields ""
            (top_level document ++ entries_for "" (env_overrides environ))
            (service_values default_config)).0
          (service_values c, service),
    )

latest-NoSection :
    (s : Section) (entries : Payload)
    → All NoSection entries
    → latest (section_name s) entries ≡ none
unfolding latest
latest-NoSection s [] h = refl
latest-NoSection s ((key, v) ∷ rest) h = elim (Bool-cases (key == section_name s)) [
  | inl e ↦
      let clash = subst (λ k. section_named k ≡ none) ((eq_iff key (section_name s)).0 e) h.0 in
      absurd (cc (clash, section_named-name s))
  | inr e ↦ rw (latest-NoSection s rest h.1, e) refl
]

-- A variable that stands for a whole section, such as HM_MEMORY, keeps `from_mapping` from returning,
-- whatever its text is.
pub from_mapping-whole_section :
    (repr : Value → String) (document : Payload) (environ : Dict String) (c : ServiceConfig)
    (s : Section) (text : String)
    → variable "" (section_name s) environ ≡ some text
    → from_mapping repr document environ ≢ returned c
from_mapping-whole_section repr document environ c s text e h =
    let (_, _, _, keys) = from_mapping-built repr document environ c h in
    let here = latest-NoSection s (entries_for "" (env_overrides environ)) keys in
    cc (here, latest-environment "" (section_name s) environ, e)

-- The configuration that `load` returns obeys every rule, and the file held an object.
pub load-Rules :
    (repr : Value → String) (path : String) (file : FileDocument) (environ : Dict String)
    (c : ServiceConfig)
    → load repr path file environ ≡ returned c
    → Rules c × ((fs : Fields) × (file ≡ parsed (dict fs)))
unfolding load
load-Rules repr path (parsed (dict fs)) environ c h =
    ((validate_iff c).0 (from_mapping-built repr (items_of fs) environ c h).0, (fs, refl))
load-Rules repr path _ environ c h = absurd (cc h)
