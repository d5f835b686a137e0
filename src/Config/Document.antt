-- ===== src/Config/Document.antt =====
-- What the document does in `from_mapping` of config.py, by section.
use ca1_health_monitor.Prelude.{
  String, List, [], ◌∷◌, ◌++◌, returned, >>=-returned, returned-injective, append-nil, ◌≡◌, refl,
  sym, ap, subst, ◌∙◌,
}
use ca1_health_monitor.Prelude.Text.{append}
use ca1_health_monitor.Common.Types.{Value, Payload}
use ca1_health_monitor.Config.{default_config}
use ca1_health_monitor.Config.Validate.{breaks}
use ca1_health_monitor.Config.Fields.{
  Values, Section, logging_section, memory_section, storage_section, heartbeat_section,
  all_sections, section_name, service_fields, section_fields, service_values, section_values,
}
use ca1_health_monitor.Config.Coerce.{refused, assign, apply_section}
use ca1_health_monitor.Config.Load.{
  object, Draft, draft_of, section_document, top_level, assign_service, apply_object,
  apply_sections,
}
use ca1_health_monitor.Config.Slots.{same_section, by_section}
use ca1_health_monitor.Config.Sections.{
  only, Applied, object-injective, apply_section-both, apply_service-object, apply_object-Applied,
}
use ca1_health_monitor.Config.Service.{Whole, apply_service-service, apply_object-service}
use ca1_health_monitor.Config.Built.{section_entries, section_document-entries}

-- The entries for a section from the objects of several.
abbrev entries_among : List Section → Section → Payload → Payload
entries_among [] s document = []
entries_among (t ∷ rest) s document =
    only (same_section t s) (section_entries t document) ++ entries_among rest s document

entries_among-all :
    (s : Section) (document : Payload)
    → entries_among all_sections s document ≡ section_entries s document
entries_among-all s document =
    by_section (λ s. entries_among all_sections s document ≡ section_entries s document)
      (append-nil (section_entries logging_section document))
      (append-nil (section_entries memory_section document))
      (append-nil (section_entries storage_section document))
      (append-nil (section_entries heartbeat_section document)) s

module _ (repr : Value → String) where
  apply_sections-Applied :
      (sections : List Section) (s : Section) (document : Payload) (d d' : Draft)
      (ys : Values (section_fields s))
      → apply_sections repr sections document d ≡ returned d'
      → d'.slot s ≡ object ys
      → Applied repr s (entries_among sections s document) (d.slot s) ys
  unfolding apply_sections apply_section
  apply_sections-Applied [] s document d d' ys h k =
      (ys, ap (λ d. d.slot s) (returned-injective h) ∙ k, refl)
  apply_sections-Applied (t ∷ rest) s document d d' ys h k =
      let (e, he, h) = >>=-returned (section_document t document) _ h in
      let missing = refused (breaks (section_name t) "not a configurable section") in
      let (m, hm, h) =
        >>=-returned (apply_object repr missing t e d) (apply_sections repr rest document) h in
      let (zs, kz, hz) = apply_sections-Applied rest s document m d' ys h k in
      let (xs, kx, hx) = apply_object-Applied repr missing t s e d m zs hm kz in
      (
        xs,
        kx,
        apply_section-both (assign repr (section_fields s))
            (only (same_section t s) (section_entries t document)) (entries_among rest s document)
            (append (section_name s) ".") xs zs ys
            (subst
              (λ e.
                apply_section (assign repr (section_fields s)) (only (same_section t s) e)
                  (append (section_name s) ".") xs
                ≡ returned zs)
              (section_document-entries t document e he) hx)
            hz,
      )

  apply_sections-service :
      (sections : List Section) (document : Payload) (d d' : Draft)
      → apply_sections repr sections document d ≡ returned d'
      → d.service ≡ d'.service
  unfolding apply_sections
  apply_sections-service [] document d d' h = ap (λ d. d.service) (returned-injective h)
  apply_sections-service (t ∷ rest) document d d' h =
      let (e, he, h) = >>=-returned (section_document t document) _ h in
      let missing = refused (breaks (section_name t) "not a configurable section") in
      let (m, hm, h) =
        >>=-returned (apply_object repr missing t e d) (apply_sections repr rest document) h in
      apply_object-service repr missing t e d m hm ∙ apply_sections-service rest document m d' h

  -- What the document does to the object of a section.
  pub document-object :
      (s : Section) (document : Payload) (d1 d2 : Draft) (ys : Values (section_fields s))
      → apply_section (assign_service repr) (top_level document) "" (draft_of default_config)
        ≡ returned d1
      → apply_sections repr all_sections document d1 ≡ returned d2
      → d2.slot s ≡ object ys
      → apply_section
          (assign repr (section_fields s))
          (section_entries s document)
          (append (section_name s) ".")
          (section_values s default_config)
        ≡ returned ys
  document-object s document d1 d2 ys h1 h2 k =
      let (xs, kx, hx) = apply_sections-Applied all_sections s document d1 d2 ys h2 k in
      let start = object-injective repr s (section_values s default_config) xs (
        apply_service-object repr s (top_level document) "" (draft_of default_config) d1 xs h1
          kx) in
      subst
        (λ xs.
          apply_section (assign repr (section_fields s)) (section_entries s document)
            (append (section_name s) ".") xs
          ≡ returned ys)
        (sym start) (rw (entries_among-all s document) at hx)

  -- What the document does to the fields of the configuration's own.
  pub document-service :
      (document : Payload) (d1 d2 : Draft)
      → apply_section (assign_service repr) (top_level document) "" (draft_of default_config)
        ≡ returned d1
      → apply_sections repr all_sections document d1 ≡ returned d2
      → Whole d2
      → apply_section
          (assign repr service_fields)
          (top_level document)
          ""
          (service_values default_config)
        ≡ returned d2.service
  document-service document d1 d2 h1 h2 w =
      let whole : Whole d1 = (λ s.
        let (xs, kx, hx) =
          apply_sections-Applied all_sections s document d1 d2 (w s).0 h2 (w s).1 in
        (xs, kx)) in
      (apply_service-service repr (top_level document) "" (draft_of default_config) d1 h1 whole).1
      ∙ ap returned (apply_sections-service all_sections document d1 d2 h2)
