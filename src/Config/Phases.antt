-- ===== src/Config/Phases.antt =====
-- Each phase of `from_mapping` of config.py, and `validate` on a draft, when it has what it needs.
use ca1_health_monitor.Prelude.{
  String, List, [], ◌∷◌, ◌++◌, returned, ◌>>=◌, >>=-returned, ◌≡◌, refl, sym, subst, ◌∙◌,
}
use ca1_health_monitor.Prelude.Text.{append}
use ca1_health_monitor.Common.Types.{Value, Payload}
use ca1_health_monitor.Config.{ServiceConfig, default_config}
use ca1_health_monitor.Config.Validate.{
  breaks, validate, validate_service, validate_memory, validate_storage, validate_heartbeat,
}
use ca1_health_monitor.Config.Fields.{
  Values, Section, logging_section, memory_section, storage_section, heartbeat_section,
  all_sections, section_name, section_fields, service_fields, service_values, section_values,
  with_service, with_section,
}
use ca1_health_monitor.Config.Coerce.{refused, Loaded, assign, apply_section}
use ca1_health_monitor.Config.Load.{
  object, Draft, set_slot, draft_of, attributes, section_of, section_document, apply_sections,
  validate_draft,
}
use ca1_health_monitor.Config.Slots.{by_section}
use ca1_health_monitor.Config.Sections.{Applied, apply_section-append}
use ca1_health_monitor.Config.Built.{section_entries}
use ca1_health_monitor.Config.Complete.{apply_object-returns}
use ca1_health_monitor.Config.RoundTrip.{then_checked}

then_section-returns :
    (s : Section) (d : Draft) (c r : ServiceConfig) (xs : Values (section_fields s))
    (k : ServiceConfig → Loaded ServiceConfig)
    → d.slot s ≡ object xs
    → k (with_section s xs c) ≡ returned r
    → (section_of s d c >>= k) ≡ returned r
unfolding attributes
then_section-returns s d c r xs k e h = rw (attributes, e) h

pub validate_draft-returns :
    (d : Draft) (c : ServiceConfig)
    → d.service ≡ service_values c
    → ((s : Section) → d.slot s ≡ object (section_values s c))
    → validate c ≡ returned tt
    → validate_draft d ≡ returned c
unfolding validate validate_draft validate_service
validate_draft-returns d c service slots h =
    let (_, hs, h) = >>=-returned (validate_service c) _ h in
    let (_, hm, h) = >>=-returned (validate_memory c.memory) _ h in
    let (_, ht, h) = >>=-returned (validate_storage c.storage) _ h in
    let (_, hh, hl) = >>=-returned (validate_heartbeat c.heartbeat) _ h in
    let c0 = with_service (service_values c) default_config in
    let c1 = with_section memory_section (section_values memory_section c) c0 in
    let c2 = with_section storage_section (section_values storage_section c) c1 in
    let c3 = with_section heartbeat_section (section_values heartbeat_section c) c2 in
    subst (λ xs. validate_draft (record d { service = xs }) ≡ returned c) (sym service)
      (then_checked hs (
        then_section-returns memory_section d c0 c (section_values memory_section c) _
          (slots memory_section)
          (then_checked hm (
            then_section-returns storage_section d c1 c (section_values storage_section c) _
              (slots storage_section)
              (then_checked ht (
                then_section-returns heartbeat_section d c2 c (section_values heartbeat_section c) _
                  (slots heartbeat_section)
                  (then_checked hh (
                    then_section-returns logging_section d c3 c (section_values logging_section c) _
                      (slots logging_section) (then_checked hl refl)))))))))

module _ (repr : Value → String) where
  -- The document has an object for the section, or nothing.
  abbrev pub HasObject : Payload → Section → Type 0
  HasObject document s = section_document s document ≡ returned (section_entries s document)

  -- The draft with the sections of the document.
  abbrev pub with_sections :
      ((s : Section) → Values (section_fields s)) → Values service_fields → Draft
  with_sections zs xs = record {
    service = xs;
    slot = set_slot heartbeat_section (object (zs heartbeat_section)) (
        set_slot storage_section (object (zs storage_section)) (
          set_slot memory_section (object (zs memory_section)) (
            set_slot logging_section (object (zs logging_section))
              (λ s. object (section_values s default_config)))));
  }

  pub with_sections-slot :
      (zs : (s : Section) → Values (section_fields s)) (xs : Values service_fields) (s : Section)
      → (with_sections zs xs).slot s ≡ object (zs s)
  with_sections-slot zs xs =
      by_section (λ s. (with_sections zs xs).slot s ≡ object (zs s)) refl refl refl refl

  next_section :
      (s : Section) (rest : List Section) (document : Payload) (d d' : Draft)
      (ys : Values (section_fields s))
      → HasObject document s
      → Applied repr s (section_entries s document) (d.slot s) ys
      → apply_sections repr rest document (record d { slot = set_slot s (object ys) d.slot })
        ≡ returned d'
      → apply_sections repr (s ∷ rest) document d ≡ returned d'
  unfolding apply_sections
  next_section s rest document d d' ys o a h =
      let missing = refused (breaks (section_name s) "not a configurable section") in
      rw (apply_sections, o)
        (rw (apply_object-returns repr missing s (section_entries s document) d ys a) h)

  pub apply_sections-returns :
      (document : Payload) (xs : Values service_fields)
      (zs : (s : Section) → Values (section_fields s))
      → ((s : Section) → HasObject document s)
      → ((s : Section)
          → apply_section
              (assign repr (section_fields s))
              (section_entries s document)
              (append (section_name s) ".")
              (section_values s default_config)
            ≡ returned (zs s))
      → apply_sections repr all_sections document
          (record (draft_of default_config) { service = xs })
        ≡ returned (with_sections zs xs)
  unfolding apply_sections
  apply_sections-returns document xs zs objects h =
      let step : (s : Section)
          → (d : Draft) → d.slot s ≡ object (section_values s default_config)
          → Applied repr s (section_entries s document) (d.slot s) (zs s) =
        (λ s d e. (section_values s default_config, e, h s)) in
      let d0 = record (draft_of default_config) { service = xs } in
      let d1 = record d0 {
        slot = set_slot logging_section (object (zs logging_section)) d0.slot;
      } in
      let d2 = record d0 { slot = set_slot memory_section (object (zs memory_section)) d1.slot } in
      let d3 = record d0 {
        slot = set_slot storage_section (object (zs storage_section)) d2.slot;
      } in
      let d4 = with_sections zs xs in
      next_section logging_section (memory_section ∷ storage_section ∷ heartbeat_section ∷ [])
        document d0 d4 (zs logging_section) (objects logging_section) (step logging_section d0 refl)
        (next_section memory_section (storage_section ∷ heartbeat_section ∷ []) document d1 d4
          (zs memory_section) (objects memory_section) (step memory_section d1 refl)
          (next_section storage_section (heartbeat_section ∷ []) document d2 d4 (zs storage_section)
            (objects storage_section) (step storage_section d2 refl)
            (next_section heartbeat_section [] document d3 d4 (zs heartbeat_section)
              (objects heartbeat_section) (step heartbeat_section d3 refl) refl)))

  -- The part of a call of `_apply_section` that is done between two lists of entries.
  pub half :
      {S : Type 0} (step : String → Value → String → S → Loaded S) (xs ys : Payload)
      (before : String) (a c : S)
      → apply_section step (xs ++ ys) before a ≡ returned c
      → (b : S) × (apply_section step xs before a ≡ returned b)
        × (apply_section step ys before b ≡ returned c)
  half step xs ys before a c h =
      >>=-returned (apply_section step xs before a) (apply_section step ys before)
        (sym (apply_section-append step xs ys before a) ∙ h)
