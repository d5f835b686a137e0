-- ===== src/Config/Applied.antt =====
-- What `_apply_section` of config.py does to the attributes of an object, by key.
use ca1_health_monitor.Prelude.{
  String, Bool-cases, Option-cases, Option, none, some, [], ◌∷◌, raised, returned, ◌>>=◌,
  >>=-returned, returned-injective, ◌==◌, eq_iff, if◌then◌else◌, All, ◌≡◌, ◌↔◌, inl, inr, refl, sym,
  ap, ◌∙◌, arith,
}
use ca1_health_monitor.Prelude.Text.{append}
use ca1_health_monitor.Prelude.Dict.{get, latest}
use ca1_health_monitor.Common.Types.{Value, Payload}
use ca1_health_monitor.Config.Validate.{breaks}
use ca1_health_monitor.Config.Fields.{Kind, Table, Values}
use ca1_health_monitor.Config.Describe.{attribute_value}
use ca1_health_monitor.Config.Coerce.{refused, Loaded, coerce, assign, apply_section}

-- `getattr(instance, key)`, for the name of a field.
unfoldable pub read : (table : Table) → String → Values table → Option Value
read [] key xs = none
read ((name, kind) ∷ table) key (x, xs) =
    if name == key then some (attribute_value kind x) else read table key xs

module _ (repr : Value → String) where
  abbrev coerced_to : Value → String → Option Kind → Loaded Value
  unfolding coerce
  coerced_to v path none = raised (refused (breaks path "unknown configuration key"))
  coerced_to v path (some kind) = coerce repr kind v path >>= λ x. returned (attribute_value kind x)

  -- What a value becomes as the attribute of a key, in a table of fields.
  unfoldable pub coerced : Table → String → Value → String → Loaded Value
  unfolding get coerced_to
  coerced table key v path = coerced_to v path (get key table)

  abbrev pub settled : Table → String → String → Option Value → Option Value → Loaded (Option Value)
  unfolding coerced append
  settled table before key none old = returned old
  settled table before key (some v) old =
      coerced table key v (append before key) >>= λ w. returned (some w)

  -- The attribute of a key after entries: what the last of them for this key becomes, and what it was
  -- where there is none.
  unfoldable pub effective :
      Table → String → String → Payload → Option Value → Loaded (Option Value)
  unfolding latest settled
  effective table before key entries old = settled table before key (latest key entries) old

  assign-read :
      (table : Table) (key : String) (v : Value) (path : String) (xs ys : Values table)
      → assign repr table key v path xs ≡ returned ys
      → (w : Value) × (coerced table key v path ≡ returned w)
        × ((k : String) → read table k ys ≡ (if key == k then some w else read table k xs))
  unfolding assign coerced read get
  assign-read [] key v path xs ys h = absurd (cc h)
  assign-read ((name, kind) ∷ table) key v path xs ys h = elim (Bool-cases (name == key)) [
    | inl e ↦
        let (x, hx, hy) =
          >>=-returned (coerce repr kind v path) (λ y. returned (y, xs.1)) (rw e at h) in
        let eq = returned-injective hy in
        (
          attribute_value kind x,
          rw (e, hx) refl,
          λ k. rw (sym eq) ground (arith, eq_iff name key, eq_iff name k, eq_iff key k),
        )
    | inr e ↦
        let (zs, hz, hy) =
          >>=-returned (assign repr table key v path xs.1) (λ zs. returned (xs.0, zs))
            (rw e at h) in
        let (w, hw, hr) = assign-read table key v path xs.1 zs hz in
        let eq = returned-injective hy in
        (
          w,
          rw e hw,
          λ k. rw (sym eq) ground (arith, eq_iff name key, eq_iff name k, eq_iff key k, hr k),
        )
  ]

  assign-returns :
      (table : Table) (key : String) (v : Value) (path : String) (xs : Values table) (w : Value)
      → coerced table key v path ≡ returned w
      → (ys : Values table) × (assign repr table key v path xs ≡ returned ys)
  unfolding assign coerced get
  assign-returns [] key v path xs w h = absurd (cc h)
  assign-returns ((name, kind) ∷ table) key v path xs w h = elim (Bool-cases (name == key)) [
    | inl e ↦
        let (x, hx, hw) =
          >>=-returned (coerce repr kind v path) (λ x. returned (attribute_value kind x))
            (rw e at h) in
        ((x, xs.1), rw (e, hx) refl)
    | inr e ↦
        let (ys, hy) = assign-returns table key v path xs.1 w (rw e at h) in
        ((xs.0, ys), rw (e, hy) refl)
  ]

  effective_skip :
      (table : Table) (before key name : String) (v w : Value) (rest : Payload) (old : Option Value)
      → coerced table name v (append before name) ≡ returned w
      → effective table before key ((name, v) ∷ rest) old
        ≡ effective table before key rest (if name == key then some w else old)
  unfolding effective latest
  effective_skip table before key name v w rest old h = elim (Option-cases (latest key rest)) [
    | inl e ↦ elim (Bool-cases (name == key)) [
      | inl y ↦ rw (e, y) rw (sym ((eq_iff name key).0 y), h) refl
      | inr n ↦ rw (e, n) refl
    ]
    | inr (u, e) ↦ rw e refl
  ]

  -- The attributes after a call that returns, key by key.
  pub apply_section-read :
      (table : Table) (before : String) (entries : Payload) (xs ys : Values table)
      → apply_section (assign repr table) entries before xs ≡ returned ys
      → (key : String)
      → effective table before key entries (read table key xs) ≡ returned (read table key ys)
  unfolding apply_section effective latest
  apply_section-read table before [] xs ys h key = rw (returned-injective h) refl
  apply_section-read table before ((name, v) ∷ rest) xs ys h key =
      let (zs, hz, hy) =
        >>=-returned (assign repr table name v (append before name) xs)
          (apply_section (assign repr table) rest before) h in
      let (w, hw, hr) = assign-read table name v (append before name) xs zs hz in
      effective_skip table before key name v w rest (read table key xs) hw
      ∙ ap (effective table before key rest) (sym (hr key))
      ∙ apply_section-read table before rest zs ys hy key

  -- An entry that names a field and has a value that can be coerced to its type.
  abbrev pub Fits : Table → String → String × Value → Type 0
  Fits table before entry =
      (w : Value) × (coerced table entry.0 entry.1 (append before entry.0) ≡ returned w)

  -- A call returns exactly if every entry names a field and can be coerced to the field's type.
  pub apply_section_iff :
      (table : Table) (before : String) (entries : Payload) (xs : Values table)
      → ((ys : Values table) × (apply_section (assign repr table) entries before xs ≡ returned ys))
        ↔ All (Fits table before) entries
  unfolding apply_section
  apply_section_iff table before [] xs = (λ _. tt, λ _. (xs, refl))
  apply_section_iff table before ((name, v) ∷ rest) xs = (
    λ (ys, h).
        let (zs, hz, hy) =
          >>=-returned (assign repr table name v (append before name) xs)
            (apply_section (assign repr table) rest before) h in
        let (w, hw, hr) = assign-read table name v (append before name) xs zs hz in
        ((w, hw), (apply_section_iff table before rest zs).0 (ys, hy)),
    λ ((w, hw), fits).
        let (zs, hz) = assign-returns table name v (append before name) xs w hw in
        let (ys, hy) = (apply_section_iff table before rest zs).1 fits in (ys, rw hz hy),
  )
