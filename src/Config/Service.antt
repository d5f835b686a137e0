-- ===== src/Config/Service.antt =====
-- What the steps of `from_mapping` of config.py do to the fields of the configuration that are no
-- sections, as long as no list takes the place of a section.
use ca1_health_monitor.Prelude.{
  String, Bool-cases, Option-cases, none, [], ◌∷◌, returned, >>=-returned, returned-injective, ◌==◌,
  All, ◌≡◌, inl, inr, sym, ap, subst, ◌∙◌,
}
use ca1_health_monitor.Prelude.Text.{append}
use ca1_health_monitor.Common.Types.{type_error, Value, Payload}
use ca1_health_monitor.Config.Fields.{
  list_kind, Values, Section, section_name, section_named, section_fields, service_fields,
}
use ca1_health_monitor.Config.Coerce.{LoadError, crashed, coerce, assign, apply_section}
use ca1_health_monitor.Config.Load.{
  object, replaced, Draft, set_slot, attributes, assign_service, apply_object, override,
}
use ca1_health_monitor.Config.Slots.{set_slot_self}
use ca1_health_monitor.Config.Sections.{only, apply_service-object}

-- Every section of a draft has its object.
abbrev pub Whole : Draft → Type 0
Whole d = (s : Section) → (ys : Values (section_fields s)) × (d.slot s ≡ object ys)

abbrev pub NoSection : String × Value → Type 0
NoSection entry = section_named entry.0 ≡ none

module _ (repr : Value → String) where
  assign_service-service :
      (key : String) (v : Value) (path : String) (d d' : Draft)
      → assign_service repr key v path d ≡ returned d'
      → Whole d'
      → (section_named key ≡ none)
        × (assign repr service_fields key v path d.service ≡ returned d'.service)
  unfolding assign_service
  assign_service-service key v path d d' h w = elim (Option-cases (section_named key)) [
    | inl n ↦
        let (xs, hx, hd) =
          >>=-returned (assign repr service_fields key v path d.service)
            (λ xs. returned (record d { service = xs })) (rw (assign_service, n) at h) in
        (n, hx ∙ ap (λ d. returned d.service) (returned-injective hd))
    | inr (t, n) ↦
        let (texts, hx, hd) =
          >>=-returned (coerce repr list_kind v path)
            (λ texts. returned (record d { slot = set_slot t (replaced texts) d.slot }))
            (rw (assign_service, n) at h) in
        let (ys, e) = subst Whole (sym (returned-injective hd)) w t in
        let clash = sym (set_slot_self t (replaced texts) d.slot) ∙ e in absurd (cc clash)
  ]

  pub apply_service-service :
      (entries : Payload) (before : String) (d d' : Draft)
      → apply_section (assign_service repr) entries before d ≡ returned d'
      → Whole d'
      → All NoSection entries
        × (apply_section (assign repr service_fields) entries before d.service
            ≡ returned d'.service)
  unfolding apply_section
  apply_service-service [] before d d' h w =
      (tt, ap (λ d. returned d.service) (returned-injective h))
  apply_service-service ((key, v) ∷ rest) before d d' h w =
      let (m, hm, hd) =
        >>=-returned (assign_service repr key v (append before key) d)
          (apply_section (assign_service repr) rest before) h in
      let w' : Whole m =
        (λ s. ((w s).0, apply_service-object repr s rest before m d' (w s).0 hd (w s).1)) in
      let (n, hn) = assign_service-service key v (append before key) d m hm w' in
      let (ns, hs) = apply_service-service rest before m d' hd w in ((n, ns), rw hn hs)

  pub apply_object-service :
      (e : LoadError) (s : Section) (entries : Payload) (d d' : Draft)
      → apply_object repr e s entries d ≡ returned d'
      → d.service ≡ d'.service
  unfolding apply_object
  apply_object-service e s entries d d' h =
      let (xs, hx, h) = >>=-returned (attributes e (d.slot s)) _ h in
      let (ys, hy, h) =
        >>=-returned
          (apply_section (assign repr (section_fields s)) entries (append (section_name s) ".") xs)
          _ h in
      ap (λ d. d.service) (returned-injective h)

  -- A round of the loop over the environment: the entries without a section go to the fields.
  pub override-service :
      (name : String) (entries : Payload) (d d' : Draft)
      → override repr name entries d ≡ returned d'
      → Whole d'
      → All NoSection (only (name == "") entries)
        × (apply_section (assign repr service_fields) (only (name == "") entries) "" d.service
            ≡ returned d'.service)
  unfolding override apply_section
  override-service name entries d d' h w = elim (Bool-cases (name == "")) [
    | inl y ↦ rw y (apply_service-service entries "" d d' (rw (override, y) at h) w)
    | inr n ↦ elim (Option-cases (section_named name)) [
      | inl m ↦ absurd (cc (rw (override, n, m) at h))
      | inr (t, m) ↦ rw n (
        tt,
        ap returned
            (apply_object-service (crashed type_error) t entries d d' (rw (override, n, m) at h)),
      )
    ]
  ]
