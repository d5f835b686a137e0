-- ===== src/Config/Complete.antt =====
-- The way back: what is enough for `from_mapping` of config.py to return.
use ca1_health_monitor.Prelude.{
  String, false, none, [], ◌∷◌, returned, ◌>>=◌, >>=-returned, returned-injective, ◌==◌, eq_iff,
  All, ◌≡◌, ◌⊎◌, inl, inr, refl, sym, ap, subst, ◌∙◌,
}
use ca1_health_monitor.Prelude.Text.{append}
use ca1_health_monitor.Prelude.Dict.{Dict, get, Distinct}
use ca1_health_monitor.Common.Types.{type_error, Value, Payload}
use ca1_health_monitor.Config.Fields.{
  Values, Section, section_name, section_named, section_fields, service_fields,
}
use ca1_health_monitor.Config.Coerce.{LoadError, crashed, assign, apply_section}
use ca1_health_monitor.Config.Environment.{Collected}
use ca1_health_monitor.Config.Load.{
  object, Draft, set_slot, attributes, assign_service, apply_object, as_texts, override,
  override_all,
}
use ca1_health_monitor.Config.Slots.{
  by_section, set_slot-elim, same_names, name_not_empty, section_named-name,
}
use ca1_health_monitor.Config.Sections.{Applied}
use ca1_health_monitor.Config.Service.{NoSection}
use ca1_health_monitor.Config.Built.{entries_for, entries_hit, entries_miss, entries_none}

no_entries : (name : String) → entries_for name [] ≡ []
unfolding get
no_entries name = entries_none name [] refl

section_not_own : (t : Section) → (section_name t == "") ≡ false
section_not_own = by_section (λ t. (section_name t == "") ≡ false) refl refl refl refl

module _ (repr : Value → String) where
  -- Keys that name no section go to the fields of the configuration's own.
  pub apply_service-returns :
      (entries : Payload) (before : String) (d : Draft) (xs : Values service_fields)
      → All NoSection entries
      → apply_section (assign repr service_fields) entries before d.service ≡ returned xs
      → apply_section (assign_service repr) entries before d ≡ returned (record d { service = xs })
  unfolding apply_section assign_service
  apply_service-returns [] before d xs n h =
      ap (λ ys. returned (record d { service = ys })) (returned-injective h)
  apply_service-returns ((key, v) ∷ rest) before d xs n h =
      let (ys, hy, hx) =
        >>=-returned (assign repr service_fields key v (append before key) d.service)
          (apply_section (assign repr service_fields) rest before) h in
      rw (assign_service, n.0)
        (ap
            (λ r.
              r
              >>= (λ xs. returned (record d { service = xs }))
              >>= apply_section (assign_service repr) rest before)
            hy
          ∙ apply_service-returns rest before (record d { service = ys }) xs n.1 hx)

  pub apply_object-returns :
      (e : LoadError) (s : Section) (entries : Payload) (d : Draft) (ys : Values (section_fields s))
      → Applied repr s entries (d.slot s) ys
      → apply_object repr e s entries d
        ≡ returned (record d { slot = set_slot s (object ys) d.slot })
  unfolding apply_object attributes
  apply_object-returns e s entries d ys (xs, k, h) = rw (apply_object, k) (rw h refl)

  -- Every name is a section's, or "".
  abbrev pub Known : Collected → Type 0
  Known = All (λ entry. (entry.0 ≡ "") ⊎ ((s : Section) × (entry.0 ≡ section_name s)))

  -- What the loop over the environment still has to do, and can.
  abbrev Ready :
      Collected
      → Draft
      → Values service_fields
      → ((s : Section) → Values (section_fields s))
      → Type 0
  Ready collected d y ys =
      All NoSection (entries_for "" collected)
      × (apply_section (assign repr service_fields) (entries_for "" collected) "" d.service
          ≡ returned y)
      × ((s : Section) → Applied repr s (entries_for (section_name s) collected) (d.slot s) (ys s))

  -- A round of it.
  abbrev Round :
      String
      → Dict String
      → Collected
      → Draft
      → Values service_fields
      → ((s : Section) → Values (section_fields s))
      → Type 0
  Round name leaves rest d y ys =
      (m : Draft) × (override repr name (as_texts leaves) d ≡ returned m) × Ready rest m y ys

  own_round :
      (name : String) (leaves : Dict String) (rest : Collected) (d : Draft)
      (y : Values service_fields) (ys : (s : Section) → Values (section_fields s))
      → get name rest ≡ none
      → name ≡ ""
      → Ready ((name, leaves) ∷ rest) d y ys
      → Round name leaves rest d y ys
  unfolding override apply_section
  own_round name leaves rest d y ys n e (ns, h, hs) =
      let own = (eq_iff name "").1 e in
      let hit = entries_hit name "" leaves rest own in
      let done = entries_none "" rest (subst (λ a. get a rest ≡ none) e n) in
      (
        record d { service = y },
        rw (override, own)
            (apply_service-returns (as_texts leaves) "" d y (rw hit at ns) (rw hit at h)),
        (
          rw done tt,
          rw done refl,
          λ s.
              subst (λ es. Applied repr s es (d.slot s) (ys s))
                (entries_miss name (section_name s) leaves rest (name_not_empty name s own)) (hs s),
        ),
      )

  section_round :
      (name : String) (leaves : Dict String) (rest : Collected) (d : Draft)
      (y : Values service_fields) (ys : (s : Section) → Values (section_fields s)) (t : Section)
      → get name rest ≡ none
      → name ≡ section_name t
      → Ready ((name, leaves) ∷ rest) d y ys
      → Round name leaves rest d y ys
  unfolding override apply_section
  section_round name leaves rest d y ys t n e (ns, h, hs) =
      let other = subst (λ a. (a == "") ≡ false) (sym e) (section_not_own t) in
      let found = ap section_named e ∙ section_named-name t in
      let miss = entries_miss name "" leaves rest other in
      let same = (eq_iff name (section_name t)).1 e in
      let done = entries_none (section_name t) rest (subst (λ a. get a rest ≡ none) e n) in
      let next = set_slot t (object (ys t)) d.slot in
      (
        record d { slot = next },
        rw (override, other, found)
            (apply_object-returns (crashed type_error) t (as_texts leaves) d (ys t) (
              subst (λ es. Applied repr t es (d.slot t) (ys t))
                (entries_hit name (section_name t) leaves rest same) (hs t))),
        (
          rw miss at ns,
          rw miss at h,
          λ u.
              set_slot-elim (λ u x. Applied repr u (entries_for (section_name u) rest) x (ys u)) t u
                (object (ys t)) d.slot (ys t, refl, rw done refl)
                (λ differ.
                  subst (λ es. Applied repr u es (d.slot u) (ys u))
                    (entries_miss name (section_name u) leaves rest
                      (ap (λ a. a == section_name u) e ∙ same_names t u ∙ differ))
                    (hs u)),
        ),
      )

  one_round :
      (name : String) (leaves : Dict String) (rest : Collected) (d : Draft)
      (y : Values service_fields) (ys : (s : Section) → Values (section_fields s))
      → get name rest ≡ none
      → (name ≡ "") ⊎ ((t : Section) × (name ≡ section_name t))
      → Ready ((name, leaves) ∷ rest) d y ys
      → Round name leaves rest d y ys
  one_round name leaves rest d y ys n (inl e) r = own_round name leaves rest d y ys n e r
  one_round name leaves rest d y ys n (inr (t, e)) r = section_round name leaves rest d y ys t n e r

  pub override_all-returns :
      (collected : Collected) (d : Draft) (y : Values service_fields)
      (ys : (s : Section) → Values (section_fields s))
      → Distinct collected
      → Known collected
      → Ready collected d y ys
      → (d' : Draft) × (override_all repr collected d ≡ returned d')
        × (d'.service ≡ y)
        × ((s : Section) → d'.slot s ≡ object (ys s))
  unfolding override_all apply_section
  override_all-returns [] d y ys n k (ns, h, hs) = (
    d,
    refl,
    returned-injective (rw (no_entries "") at h),
    λ s.
        let (xs, e, hx) = hs s in
        e ∙ ap object (returned-injective (rw (no_entries (section_name s)) at hx)),
  )
  override_all-returns ((name, leaves) ∷ rest) d y ys n k r =
      let (m, hm, ready) = one_round name leaves rest d y ys n.0 k.0 r in
      let (d', hd, service, slots) = override_all-returns rest m y ys n.1 k.1 ready in
      (d', rw hm hd, service, slots)
