-- ===== src/Config/Accepted.antt =====
-- What `from_mapping` of config.py makes of the document and the environment when it accepts them.
use ca1_health_monitor.Prelude.{String, [], ◌++◌, returned, >>=-returned, All, ◌≡◌, ap, ◌∙◌}
use ca1_health_monitor.Prelude.Text.{append}
use ca1_health_monitor.Prelude.Dict.{Dict}
use ca1_health_monitor.Common.Types.{Value, Payload}
use ca1_health_monitor.Config.{ServiceConfig, default_config}
use ca1_health_monitor.Config.Validate.{validate}
use ca1_health_monitor.Config.Fields.{
  Section, all_sections, section_name, service_fields, section_fields, service_values,
  section_values,
}
use ca1_health_monitor.Config.Coerce.{assign, apply_section}
use ca1_health_monitor.Config.Environment.{env_overrides}
use ca1_health_monitor.Config.Load.{
  draft_of, top_level, assign_service, apply_sections, override_all, validate_draft, from_mapping,
}
use ca1_health_monitor.Config.Slots.{validate_draft-objects}
use ca1_health_monitor.Config.Sections.{apply_section-both}
use ca1_health_monitor.Config.Service.{Whole, NoSection}
use ca1_health_monitor.Config.Built.{section_entries, entries_for}
use ca1_health_monitor.Config.Document.{document-object, document-service}
use ca1_health_monitor.Config.Override.{
  collect_all-Distinct, environment-object, environment-service, environment-NoSection,
}

module _ (repr : Value → String) where
  -- What a configuration is made of that `from_mapping` returns: it passes `validate`, and each of its
  -- sections, and the fields of its own, are the defaults with the entries of the document and then
  -- those of the environment applied to them.
  abbrev pub Built : Payload → Dict String → ServiceConfig → Type 0
  Built document environ c =
      (validate c ≡ returned tt)
      × ((s : Section)
          → apply_section (assign repr (section_fields s))
              (section_entries s document ++ entries_for (section_name s) (env_overrides environ))
              (append (section_name s) ".") (section_values s default_config)
            ≡ returned (section_values s c))
      × (apply_section (assign repr service_fields)
            (top_level document ++ entries_for "" (env_overrides environ)) ""
            (service_values default_config)
          ≡ returned (service_values c))
      × All NoSection (entries_for "" (env_overrides environ))

  pub from_mapping-built :
      (document : Payload) (environ : Dict String) (c : ServiceConfig)
      → from_mapping repr document environ ≡ returned c
      → Built document environ c
  unfolding from_mapping env_overrides
  from_mapping-built document environ c h =
      let (d1, h1, h) =
        >>=-returned
          (apply_section (assign_service repr) (top_level document) "" (draft_of default_config)) _
          h in
      let (d2, h2, h) = >>=-returned (apply_sections repr all_sections document d1) _ h in
      let (d3, h3, h) =
        >>=-returned (override_all repr (env_overrides environ) d2) validate_draft h in
      let (valid, service, slots) = validate_draft-objects d3 c h in
      let distinct = collect_all-Distinct environ [] tt in
      let whole : Whole d3 = (λ s. (section_values s c, slots s)) in
      let overrides = env_overrides environ in
      let (xs, (kx, w), hx) =
        environment-service repr overrides d2 d3 (service_values c) distinct h3 (service, whole) in
      (
        valid,
        λ s.
            let (zs, kz, hz) =
              environment-object repr s overrides d2 d3 (section_values s c) distinct h3
                (slots s) in
            apply_section-both (assign repr (section_fields s)) (section_entries s document)
              (entries_for (section_name s) overrides) (append (section_name s) ".")
              (section_values s default_config) zs (section_values s c)
              (document-object repr s document d1 d2 zs h1 h2 kz) hz,
        apply_section-both (assign repr service_fields) (top_level document)
            (entries_for "" overrides) "" (service_values default_config) xs (service_values c)
            (document-service repr document d1 d2 h1 h2 w ∙ ap returned kx) hx,
        environment-NoSection repr overrides d2 d3 distinct h3 whole,
      )
