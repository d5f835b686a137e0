-- ===== src/Config/Sections.antt =====
-- What the steps of `from_mapping` of config.py do to the object of one section: the attributes that
-- it has in the end come from the entries of the document and then those of the environment.
use ca1_health_monitor.Prelude.{
  String, Bool, true, false, Bool-cases, Option-cases, List, [], ◌∷◌, ◌++◌, raised, returned, ◌>>=◌,
  >>=-returned, returned-injective, ◌==◌, ◌≡◌, inl, inr, refl, ap, ◌∙◌,
}
use ca1_health_monitor.Prelude.Text.{append}
use ca1_health_monitor.Common.Types.{type_error, Value, Payload}
use ca1_health_monitor.Config.Fields.{
  list_kind, Values, Section, section_name, section_named, section_fields, service_fields,
}
use ca1_health_monitor.Config.Coerce.{LoadError, crashed, Loaded, coerce, assign, apply_section}
use ca1_health_monitor.Config.Load.{
  Slot, object, replaced, Draft, set_slot, attributes, assign_service, apply_object, override,
}
use ca1_health_monitor.Config.Slots.{
  same_section, same_section_self, set_slot-elim, same_names, name_not_empty,
  section_named-inversion, attributes-object,
}

pub apply_section-append :
    {S : Type 0} (step : String → Value → String → S → Loaded S) (xs ys : Payload) (before : String)
    (target : S)
    → apply_section step (xs ++ ys) before target
      ≡ (apply_section step xs before target >>= apply_section step ys before)
unfolding apply_section
apply_section-append step [] ys before target = refl
apply_section-append step ((key, v) ∷ xs) ys before target =
    elim (step key v (append before key) target)
      as (λ r.
        (r >>= apply_section step (xs ++ ys) before)
        ≡ ((r >>= apply_section step xs before) >>= apply_section step ys before)) [
          | raised e ↦ refl
          | returned next ↦ apply_section-append step xs ys before next
        ]

pub apply_section-both :
    {S : Type 0} (step : String → Value → String → S → Loaded S) (xs ys : Payload) (before : String)
    (a b c : S)
    → apply_section step xs before a ≡ returned b
    → apply_section step ys before b ≡ returned c
    → apply_section step (xs ++ ys) before a ≡ returned c
apply_section-both step xs ys before a b c h k =
    apply_section-append step xs ys before a ∙ ap (λ r. r >>= apply_section step ys before) h ∙ k

-- Entries that are meant, or none of them.
abbrev pub only : Bool → Payload → Payload
only true entries = entries
only false entries = []

module _ (repr : Value → String) where
  -- The attributes of a section before and after some of its entries.
  abbrev pub Applied : (s : Section) → Payload → Slot s → Values (section_fields s) → Type 0
  Applied s entries slot ys =
      (xs : Values (section_fields s)) × (slot ≡ object xs)
      × (apply_section (assign repr (section_fields s)) entries (append (section_name s) ".") xs
          ≡ returned ys)

  untouched :
      (s : Section) (slot : Slot s) (ys : Values (section_fields s))
      → slot ≡ object ys
      → Applied s [] slot ys
  unfolding apply_section
  untouched s slot ys h = (ys, h, refl)

  pub object-injective :
      (s : Section) (xs ys : Values (section_fields s))
      → ◌≡◌ {A = Slot s} (object xs) (object ys)
      → xs ≡ ys
  object-injective s xs ys h = cc

  replaced-object :
      (t s : Section) (texts : List String) (f : (u : Section) → Slot u)
      (ys : Values (section_fields s))
      → set_slot t (replaced texts) f s ≡ object ys
      → f s ≡ object ys
  replaced-object t s texts f ys =
      set_slot-elim (λ u x. (zs : Values (section_fields u)) → x ≡ object zs → f u ≡ object zs) t s
        (replaced texts) f (λ zs h. absurd (cc h)) (λ _ zs h. h) ys

  pub assign_service-object :
      (s : Section) (key : String) (v : Value) (path : String) (d d' : Draft)
      (ys : Values (section_fields s))
      → assign_service repr key v path d ≡ returned d'
      → d'.slot s ≡ object ys
      → d.slot s ≡ object ys
  unfolding assign_service
  assign_service-object s key v path d d' ys h e = elim (Option-cases (section_named key)) [
    | inl n ↦
        let (xs, hx, hd) =
          >>=-returned (assign repr service_fields key v path d.service)
            (λ xs. returned (record d { service = xs })) (rw (assign_service, n) at h) in
        ap (λ d. d.slot s) (returned-injective hd) ∙ e
    | inr (t, n) ↦
        let (texts, hx, hd) =
          >>=-returned (coerce repr list_kind v path)
            (λ texts. returned (record d { slot = set_slot t (replaced texts) d.slot }))
            (rw (assign_service, n) at h) in
        replaced-object t s texts d.slot ys (ap (λ d. d.slot s) (returned-injective hd) ∙ e)
  ]

  -- A key of the configuration itself leaves an object alone, or puts a list in its place.
  pub apply_service-object :
      (s : Section) (entries : Payload) (before : String) (d d' : Draft)
      (ys : Values (section_fields s))
      → apply_section (assign_service repr) entries before d ≡ returned d'
      → d'.slot s ≡ object ys
      → d.slot s ≡ object ys
  unfolding apply_section
  apply_service-object s [] before d d' ys h e = rw (returned-injective h) e
  apply_service-object s ((key, v) ∷ rest) before d d' ys h e =
      let (m, hm, hd) =
        >>=-returned (assign_service repr key v (append before key) d)
          (apply_section (assign_service repr) rest before) h in
      assign_service-object s key v (append before key) d m ys hm
        (apply_service-object s rest before m d' ys hd e)

  pub apply_object-Applied :
      (e : LoadError) (t s : Section) (entries : Payload) (d d' : Draft)
      (ys : Values (section_fields s))
      → apply_object repr e t entries d ≡ returned d'
      → d'.slot s ≡ object ys
      → Applied s (only (same_section t s) entries) (d.slot s) ys
  unfolding apply_object
  apply_object-Applied e t s entries d d' ys h k =
      let (xs, hx, h) =
        >>=-returned (attributes e (d.slot t))
          (λ xs.
            apply_section (assign repr (section_fields t)) entries (append (section_name t) ".") xs
            >>= λ ys. returned (record d { slot = set_slot t (object ys) d.slot }))
          h in
      let (zs, hz, hd) =
        >>=-returned
          (apply_section (assign repr (section_fields t)) entries (append (section_name t) ".") xs)
          (λ ys. returned (record d { slot = set_slot t (object ys) d.slot })) h in
      set_slot-elim
        (λ u x.
          (ys : Values (section_fields u))
          → x ≡ object ys
          → Applied u (only (same_section t u) entries) (d.slot u) ys)
        t s (object zs) d.slot
        (λ ws k.
          rw same_section_self (
            xs,
            attributes-object e (d.slot t) xs hx,
            hz ∙ ap returned (object-injective t zs ws k),
          ))
        (λ n ws k. (rw n (untouched s (d.slot s) ws k))) ys
        (ap (λ d. d.slot s) (returned-injective hd) ∙ k)

  -- A round of the loop over the environment.
  pub override-Applied :
      (name : String) (s : Section) (entries : Payload) (d d' : Draft)
      (ys : Values (section_fields s))
      → override repr name entries d ≡ returned d'
      → d'.slot s ≡ object ys
      → Applied s (only (name == section_name s) entries) (d.slot s) ys
  unfolding override
  override-Applied name s entries d d' ys h k = elim (Bool-cases (name == "")) [
    | inl y ↦ rw (name_not_empty name s y) (
        untouched s (d.slot s) ys
          (apply_service-object s entries "" d d' ys (rw (override, y) at h) k))
    | inr n ↦ elim (Option-cases (section_named name)) [
      | inl m ↦ absurd (cc (rw (override, n, m) at h))
      | inr (t, m) ↦
          rw (section_named-inversion name t m, same_names t s)
            (apply_object-Applied (crashed type_error) t s entries d d' ys
              (rw (override, n, m) at h) k)
    ]
  ]
