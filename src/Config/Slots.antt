-- ===== src/Config/Slots.antt =====
-- The sections of a draft while config.py builds a configuration, and `validate` on a draft.
use ca1_health_monitor.Prelude.{
  String, Bool, true, false, Bool-cases, some, raised, returned, ◌>>=◌, >>=-returned,
  returned-injective, ◌==◌, eq_iff, ◌≡◌, inl, inr, refl, subst, ap, ◌∙◌,
}
use ca1_health_monitor.Common.Types.{other_error}
use ca1_health_monitor.Config.{ServiceConfig, default_config}
use ca1_health_monitor.Config.Validate.{Checked, validate_service, validate_logging, validate}
use ca1_health_monitor.Config.Fields.{
  Values, Section, logging_section, memory_section, storage_section, heartbeat_section,
  section_name, section_named, section_fields, service_values, section_values, with_service,
  with_section,
}
use ca1_health_monitor.Config.Coerce.{LoadError, crashed, Loaded}
use ca1_health_monitor.Config.Load.{
  Slot, object, replaced, Draft, set_slot, attributes, checked, section_of, validate_draft,
}

abbrev pub same_section : Section → Section → Bool
same_section logging_section logging_section = true
same_section memory_section memory_section = true
same_section storage_section storage_section = true
same_section heartbeat_section heartbeat_section = true
same_section _ _ = false

pub same_section_self : (s : Section) → same_section s s ≡ true
same_section_self logging_section = refl
same_section_self memory_section = refl
same_section_self storage_section = refl
same_section_self heartbeat_section = refl

-- What holds of the new content of a slot and of the other slots holds after the write.
pub set_slot-elim :
    (P : (s : Section) → Slot s → Type 0)
    → (t s : Section) (x : Slot t) (f : (u : Section) → Slot u) → P t x
    → (same_section t s ≡ false → P s (f s))
    → P s (set_slot t x f s)
set_slot-elim P logging_section logging_section x f p q = p
set_slot-elim P memory_section memory_section x f p q = p
set_slot-elim P storage_section storage_section x f p q = p
set_slot-elim P heartbeat_section heartbeat_section x f p q = p
set_slot-elim P _ _ x f p q = q refl

pub by_section :
    (P : Section → Type 0)
    → P logging_section
    → P memory_section
    → P storage_section
    → P heartbeat_section
    → (s : Section) → P s
by_section P l m t h logging_section = l
by_section P l m t h memory_section = m
by_section P l m t h storage_section = t
by_section P l m t h heartbeat_section = h

pub set_slot_self : (s : Section) (x : Slot s) (f : (u : Section) → Slot u) → set_slot s x f s ≡ x
set_slot_self =
    by_section (λ s. (x : Slot s) (f : (u : Section) → Slot u) → set_slot s x f s ≡ x) (λ x f. refl)
      (λ x f. refl) (λ x f. refl) (λ x f. refl)

pub same_names : (t s : Section) → (section_name t == section_name s) ≡ same_section t s
same_names logging_section logging_section = refl
same_names memory_section memory_section = refl
same_names storage_section storage_section = refl
same_names heartbeat_section heartbeat_section = refl
same_names _ _ = refl

pub name_not_empty :
    (name : String) (s : Section) → (name == "") ≡ true → (name == section_name s) ≡ false
name_not_empty name s y =
    rw ((eq_iff name "").0 y)
      (by_section (λ s. ("" == section_name s) ≡ false) refl refl refl refl s)

pub section_named-name : (s : Section) → section_named (section_name s) ≡ some s
unfolding section_named
section_named-name logging_section = refl
section_named-name memory_section = refl
section_named-name storage_section = refl
section_named-name heartbeat_section = refl

some-injective : {s t : Section} → some s ≡ some t → s ≡ t
some-injective h = cc

pub section_named-inversion :
    (name : String) (s : Section) → section_named name ≡ some s → name ≡ section_name s
unfolding section_named
section_named-inversion name s h = elim (Bool-cases (name == "logging")) [
  | inl e ↦ (eq_iff name "logging").0 e ∙ ap section_name (some-injective (rw e at h))
  | inr a ↦ elim (Bool-cases (name == "memory")) [
    | inl e ↦ (eq_iff name "memory").0 e ∙ ap section_name (some-injective (rw (a, e) at h))
    | inr b ↦ elim (Bool-cases (name == "storage")) [
      | inl e ↦ (eq_iff name "storage").0 e ∙ ap section_name (some-injective (rw (a, b, e) at h))
      | inr k ↦ elim (Bool-cases (name == "heartbeat")) [
        | inl e ↦
            (eq_iff name "heartbeat").0 e ∙ ap section_name (some-injective (rw (a, b, k, e) at h))
        | inr e ↦ absurd (cc (rw (a, b, k, e) at h))
      ]
    ]
  ]
]

pub attributes-object :
    {s : Section} (e : LoadError) (x : Slot s) (xs : Values (section_fields s))
    → attributes e x ≡ returned xs
    → x ≡ object xs
unfolding attributes
attributes-object e (object ys) xs h = ap object (returned-injective h)
attributes-object e (replaced texts) xs h = absurd (cc h)

checked-returned : (m : Checked) → checked m ≡ returned tt → m ≡ returned tt
checked-returned (raised e) h = absurd (cc h)
checked-returned (returned tt) h = refl

-- A check and the look at a section after it.
then_section :
    (m : Checked) (s : Section) (d : Draft) (c r : ServiceConfig)
    (k : ServiceConfig → Loaded ServiceConfig)
    → (checked m >>= λ _. section_of s d c >>= k) ≡ returned r
    → (xs : Values (section_fields s)) × (m ≡ returned tt)
      × (d.slot s ≡ object xs)
      × (k (with_section s xs c) ≡ returned r)
then_section (raised e) s d c r k h = absurd (cc h)
then_section (returned u) s d c r k h =
    let (c', hc, hk) = >>=-returned (section_of s d c) k h in
    let (xs, hx, hw) =
      >>=-returned (attributes (crashed other_error) (d.slot s))
        (λ xs. returned (with_section s xs c)) hc in
    (
      xs,
      refl,
      attributes-object (crashed other_error) (d.slot s) xs hx,
      rw (returned-injective hw) hk,
    )

both_return : {m k : Checked} → m ≡ returned tt → k ≡ returned tt → (m >>= λ _. k) ≡ returned tt
both_return hm hk = rw hm hk

-- A draft that passes `validate` has all its sections, and they obey the rules.
pub validate_draft-objects :
    (d : Draft) (c : ServiceConfig)
    → validate_draft d ≡ returned c
    → (validate c ≡ returned tt)
      × (d.service ≡ service_values c)
      × ((s : Section) → d.slot s ≡ object (section_values s c))
unfolding validate_draft validate validate_service
validate_draft-objects d c h =
    let c0 = with_service d.service default_config in
    let (xm, hs, em, h) = then_section _ memory_section d c0 c _ h in
    let c1 = with_section memory_section xm c0 in
    let (xt, hm, et, h) = then_section _ storage_section d c1 c _ h in
    let c2 = with_section storage_section xt c1 in
    let (xh, ht, eh, h) = then_section _ heartbeat_section d c2 c _ h in
    let c3 = with_section heartbeat_section xh c2 in
    let (xl, hh, el, h) = then_section _ logging_section d c3 c _ h in
    let c4 = with_section logging_section xl c3 in
    let (u, hl, e) = >>=-returned (checked (validate_logging c4.logging)) (λ _. returned c4) h in
    let hl = checked-returned (validate_logging c4.logging) hl in
    subst
      (λ c.
        (validate c ≡ returned tt)
        × (d.service ≡ service_values c)
        × ((s : Section) → d.slot s ≡ object (section_values s c)))
      (returned-injective e)
      (
        both_return hs (both_return hm (both_return ht (both_return hh hl))),
        refl,
        by_section (λ s. d.slot s ≡ object (section_values s c4)) el em et eh,
      )
