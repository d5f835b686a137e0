-- ===== src/Config/Exact.antt =====
-- Exactly when `from_mapping` of config.py returns a configuration, and which.
use ca1_health_monitor.Prelude.{
  String, Bool-cases, Option-cases, List, [], ◌∷◌, returned, >>=-returned, >>=-returns, ◌==◌,
  eq_iff, All, ◌≡◌, ◌↔◌, inl, inr, ap, ◌∙◌,
}
use ca1_health_monitor.Prelude.Text.{append}
use ca1_health_monitor.Prelude.Dict.{Dict}
use ca1_health_monitor.Common.Types.{Value, Payload}
use ca1_health_monitor.Config.{ServiceConfig, default_config}
use ca1_health_monitor.Config.Validate.{breaks}
use ca1_health_monitor.Config.Fields.{
  Values, Section, all_sections, section_name, section_named, section_fields, service_fields,
  service_values, section_values,
}
use ca1_health_monitor.Config.Coerce.{refused, assign, apply_section}
use ca1_health_monitor.Config.Environment.{Collected, env_overrides}
use ca1_health_monitor.Config.Load.{
  Draft, draft_of, section_document, top_level, assign_service, apply_object, apply_sections,
  as_texts, override, override_all, validate_draft, from_mapping,
}
use ca1_health_monitor.Config.Slots.{by_section, section_named-inversion}
use ca1_health_monitor.Config.Service.{NoSection}
use ca1_health_monitor.Config.Built.{section_entries, entries_for}
use ca1_health_monitor.Config.Built.{section_document-entries}
use ca1_health_monitor.Config.Override.{collect_all-Distinct}
use ca1_health_monitor.Config.Accepted.{Built, from_mapping-built}
use ca1_health_monitor.Config.Complete.{apply_service-returns, Known, override_all-returns}
use ca1_health_monitor.Config.Phases.{
  HasObject, with_sections, with_sections-slot, apply_sections-returns, half,
  validate_draft-returns,
}

module _ (repr : Value → String) where
  apply_sections-HasObject :
      (sections : List Section) (document : Payload) (d d' : Draft)
      → apply_sections repr sections document d ≡ returned d'
      → All (HasObject repr document) sections
  unfolding apply_sections
  apply_sections-HasObject [] document d d' h = tt
  apply_sections-HasObject (s ∷ rest) document d d' h =
      let (e, he, h) = >>=-returned (section_document s document) _ h in
      let missing = refused (breaks (section_name s) "not a configurable section") in
      let (m, hm, h) =
        >>=-returned (apply_object repr missing s e d) (apply_sections repr rest document) h in
      (
        he ∙ ap returned (section_document-entries s document e he),
        apply_sections-HasObject rest document m d' h,
      )

  override_all-Known :
      (collected : Collected) (d d' : Draft)
      → override_all repr collected d ≡ returned d'
      → Known repr collected
  unfolding override_all override
  override_all-Known [] d d' h = tt
  override_all-Known ((name, leaves) ∷ rest) d d' h =
      let (m, hm, hd) =
        >>=-returned (override repr name (as_texts leaves) d) (override_all repr rest) h in
      (
        elim (Bool-cases (name == "")) [
          | inl y ↦ inl ((eq_iff name "").0 y)
          | inr n ↦ elim (Option-cases (section_named name)) [
            | inl none_found ↦ absurd (cc (rw (override, n, none_found) at hm))
            | inr (t, found) ↦ inr (t, section_named-inversion name t found)
          ]
        ],
        override_all-Known rest m d' hd,
      )

  top_level-NoSection : (document : Payload) → All NoSection (top_level document)
  unfolding top_level
  top_level-NoSection [] = tt
  top_level-NoSection ((key, v) ∷ rest) = elim (Option-cases (section_named key)) [
    | inl n ↦ rw (top_level, n) (n, top_level-NoSection rest)
    | inr (s, n) ↦ rw (top_level, n) (top_level-NoSection rest)
  ]

  -- What `from_mapping` needs of the document and the environment, for a configuration.
  abbrev Needed : Payload → Dict String → ServiceConfig → Type 0
  Needed document environ c =
      Built repr document environ c
      × ((s : Section) → HasObject repr document s)
      × Known repr (env_overrides environ)

  from_mapping-Needed :
      (document : Payload) (environ : Dict String) (c : ServiceConfig)
      → from_mapping repr document environ ≡ returned c
      → Needed document environ c
  unfolding from_mapping env_overrides
  from_mapping-Needed document environ c h =
      let (d1, h1, k) =
        >>=-returned
          (apply_section (assign_service repr) (top_level document) "" (draft_of default_config)) _
          h in
      let (d2, h2, k) = >>=-returned (apply_sections repr all_sections document d1) _ k in
      let (d3, h3, k) =
        >>=-returned (override_all repr (env_overrides environ) d2) validate_draft k in
      let (l, (m, (t, (b, _)))) = apply_sections-HasObject all_sections document d1 d2 h2 in
      (
        from_mapping-built repr document environ c h,
        by_section (HasObject repr document) l m t b,
        override_all-Known (env_overrides environ) d2 d3 h3,
      )

  -- The attributes of a section between the document and the environment.
  abbrev Between : Payload → Dict String → ServiceConfig → Section → Type 0
  Between document environ c s =
      (b : Values (section_fields s)) × (apply_section (assign repr (section_fields s))
          (section_entries s document) (append (section_name s) ".")
          (section_values s default_config)
        ≡ returned b)
      × (apply_section (assign repr (section_fields s))
            (entries_for (section_name s) (env_overrides environ)) (append (section_name s) ".") b
          ≡ returned (section_values s c))

  between :
      (document : Payload) (environ : Dict String) (c : ServiceConfig)
      → Built repr document environ c
      → (s : Section) → Between document environ c s
  between document environ c built s =
      half repr (assign repr (section_fields s)) (section_entries s document)
        (entries_for (section_name s) (env_overrides environ)) (append (section_name s) ".")
        (section_values s default_config) (section_values s c) (built.1 s)

  Needed-returns :
      (document : Payload) (environ : Dict String) (c : ServiceConfig)
      → Needed document environ c
      → from_mapping repr document environ ≡ returned c
  unfolding from_mapping env_overrides
  Needed-returns document environ c (built, objects, known) =
      let overrides = env_overrides environ in
      let parts = between document environ c built in
      let (xs, h1, h2) =
        half repr (assign repr service_fields) (top_level document) (entries_for "" overrides) ""
          (service_values default_config) (service_values c) built.2 in
      let zs : (s : Section) → Values (section_fields s) = (λ s. (parts s).0) in
      let (d, h3, own_values, slots) =
        override_all-returns repr overrides (with_sections repr zs xs) (service_values c)
          (λ s. section_values s c) (collect_all-Distinct environ [] tt) known
          (built.3, h2, λ s. (zs s, with_sections-slot repr zs xs s, (parts s).2)) in
      >>=-returns _
        (apply_service-returns repr (top_level document) "" (draft_of default_config) xs
          (top_level-NoSection document) h1)
        (>>=-returns _ (apply_sections-returns repr document xs zs objects (λ s. (parts s).1))
          (>>=-returns _ h3 (validate_draft-returns d c own_values slots built.0)))

  -- `from_mapping` returns a configuration exactly if it is the one that is built of the defaults, the
  -- document and the environment and passes `validate`, the document has an object, if anything, for
  -- each section, and the environment names no section that there is not and no section as a whole.
  pub from_mapping_iff :
      (document : Payload) (environ : Dict String) (c : ServiceConfig)
      → (from_mapping repr document environ ≡ returned c) ↔ (
          Built repr document environ c
          × ((s : Section) → HasObject repr document s)
          × Known repr (env_overrides environ))
  from_mapping_iff document environ c =
      (from_mapping-Needed document environ c, Needed-returns document environ c)
