-- ===== src/Logging/Safe.antt =====
-- `_safe` of logging_setup.py: its values are of the types that JSON has, and it leaves those alone.
use ca1_health_monitor.Prelude.{
  String, false, Bool-cases, ◌==◌, eq_iff, ◌≡◌, inl, inr, refl, sym, ap, ap₂, ◌∙◌, arith,
}
use ca1_health_monitor.Common.Types.{
  Value, none_value, bool, int, float, str, list, dict, Items, no_items, item, Fields, no_fields,
  field,
}
use ca1_health_monitor.Logging.{
  Object, none_object, bool_object, int_object, float_object, str_object, dict_object, list_object,
  tuple_object, set_object, other_object, Objects, no_objects, and_object, Entries, no_entries,
  entry, put_field, key_text, safe, safe_items, safe_entries,
}

-- A value of JSON's types as the Python object that it is.
unfoldable mutual
  pub object_of : Value → Object
  object_of none_value = none_object
  object_of (bool b) = bool_object b
  object_of (int n) = int_object n
  object_of (float x) = float_object x
  object_of (str s) = str_object s
  object_of (list xs) = list_object (objects_of xs)
  object_of (dict fs) = dict_object (entries_of fs)

  pub objects_of : Items → Objects
  objects_of no_items = no_objects
  objects_of (item v rest) = and_object (object_of v) (objects_of rest)

  pub entries_of : Fields → Entries
  entries_of no_fields = no_entries
  entries_of (field k v rest) = entry (str_object k) (object_of v) (entries_of rest)

-- No field has the key.
abbrev pub Lacks : String → Fields → Type 0
Lacks key no_fields = Unit
Lacks key (field k v rest) = ((k == key) ≡ false) × Lacks key rest

-- No dictionary in a value has a key twice.
unfoldable mutual
  pub IsJson : Value → Type 0
  IsJson none_value = Unit
  IsJson (bool b) = Unit
  IsJson (int n) = Unit
  IsJson (float x) = Unit
  IsJson (str s) = Unit
  IsJson (list xs) = ItemsJson xs
  IsJson (dict fs) = FieldsJson fs

  pub ItemsJson : Items → Type 0
  ItemsJson no_items = Unit
  ItemsJson (item v rest) = IsJson v × ItemsJson rest

  pub FieldsJson : Fields → Type 0
  FieldsJson no_fields = Unit
  FieldsJson (field k v rest) = Lacks k rest × IsJson v × FieldsJson rest

different_sym : (a b : String) → (a == b) ≡ false → (b == a) ≡ false
different_sym a b h = ground (arith, eq_iff a b, eq_iff b a)

put_field-Lacks :
    (j k : String) (v : Value) (made : Fields)
    → (k == j) ≡ false
    → Lacks j made
    → Lacks j (put_field k v made)
unfolding put_field
put_field-Lacks j k v no_fields n h = (n, tt)
put_field-Lacks j k v (field i w rest) n h = elim (Bool-cases (i == k)) [
  | inl e ↦ rw e h
  | inr e ↦ rw e (h.0, put_field-Lacks j k v rest n h.1)
]

put_field-Json :
    (k : String) (v : Value) (made : Fields)
    → IsJson v
    → FieldsJson made
    → FieldsJson (put_field k v made)
unfolding put_field IsJson
put_field-Json k v no_fields hv h = (tt, hv, tt)
put_field-Json k v (field i w rest) hv h = elim (Bool-cases (i == k)) [
  | inl e ↦ rw e (h.0, hv, h.2)
  | inr e ↦
      rw e
        (put_field-Lacks i k v rest (different_sym i k e) h.0, h.1, put_field-Json k v rest hv h.2)
]

mutual
  unfolding safe IsJson

  safe-Json : (text : Object → String) (o : Object) → IsJson (safe text o)
  safe-Json text none_object = tt
  safe-Json text (bool_object b) = tt
  safe-Json text (int_object n) = tt
  safe-Json text (float_object x) = tt
  safe-Json text (str_object s) = tt
  safe-Json text (dict_object es) = safe_entries-Json text es no_fields tt
  safe-Json text (list_object xs) = safe_items-Json text xs
  safe-Json text (tuple_object xs) = safe_items-Json text xs
  safe-Json text (set_object xs) = safe_items-Json text xs
  safe-Json text (other_object repr) = tt

  safe_items-Json : (text : Object → String) (xs : Objects) → ItemsJson (safe_items text xs)
  safe_items-Json text no_objects = tt
  safe_items-Json text (and_object x xs) = (safe-Json text x, safe_items-Json text xs)

  safe_entries-Json :
      (text : Object → String) (es : Entries) (made : Fields)
      → FieldsJson made
      → FieldsJson (safe_entries text es made)
  safe_entries-Json text no_entries made h = h
  safe_entries-Json text (entry k v rest) made h =
      safe_entries-Json text rest (put_field (key_text text k) (safe text v) made)
        (put_field-Json (key_text text k) (safe text v) made (safe-Json text v) h)

abbrev before : Fields → Fields → Fields
before no_fields later = later
before (field k v rest) later = field k v (before rest later)

before-nil : (fs : Fields) → before fs no_fields ≡ fs
before-nil no_fields = refl
before-nil (field k v rest) = ap (field k v) (before-nil rest)

before_assoc : (a b c : Fields) → before (before a b) c ≡ before a (before b c)
before_assoc no_fields b c = refl
before_assoc (field k v rest) b c = ap (field k v) (before_assoc rest b c)

before-Lacks :
    (key k : String) (v : Value) (made : Fields)
    → Lacks key made
    → (k == key) ≡ false
    → Lacks key (before made (field k v no_fields))
before-Lacks key k v no_fields h n = (n, tt)
before-Lacks key k v (field i w rest) h n = (h.0, before-Lacks key k v rest h.1 n)

-- No key of the fields is among those made.
abbrev Apart : Fields → Fields → Type 0
Apart no_fields made = Unit
Apart (field k v rest) made = Lacks k made × Apart rest made

before-Apart :
    (fs : Fields) (k : String) (v : Value) (made : Fields)
    → Apart fs made
    → Lacks k fs
    → Apart fs (before made (field k v no_fields))
before-Apart no_fields k v made h n = tt
before-Apart (field j w rest) k v made h n =
    (before-Lacks j k v made h.0 (different_sym j k n.0), before-Apart rest k v made h.1 n.1)

Apart-none : (fs : Fields) → Apart fs no_fields
Apart-none no_fields = tt
Apart-none (field k v rest) = (tt, Apart-none rest)

put_field-new :
    (k : String) (v : Value) (made : Fields)
    → Lacks k made
    → put_field k v made ≡ before made (field k v no_fields)
unfolding put_field
put_field-new k v no_fields h = refl
put_field-new k v (field i w rest) h = rw h.0 (ap (field i w) (put_field-new k v rest h.1))

mutual
  unfolding safe IsJson object_of

  safe-object_of : (text : Object → String) (v : Value) → IsJson v → safe text (object_of v) ≡ v
  safe-object_of text none_value h = refl
  safe-object_of text (bool b) h = refl
  safe-object_of text (int n) h = refl
  safe-object_of text (float x) h = refl
  safe-object_of text (str s) h = refl
  safe-object_of text (list xs) h = ap list (safe_items-objects_of text xs h)
  safe-object_of text (dict fs) h =
      ap dict (safe_entries-entries_of text fs no_fields h (Apart-none fs))

  safe_items-objects_of :
      (text : Object → String) (xs : Items) → ItemsJson xs → safe_items text (objects_of xs) ≡ xs
  safe_items-objects_of text no_items h = refl
  safe_items-objects_of text (item v rest) h =
      ap₂ item (safe-object_of text v h.0) (safe_items-objects_of text rest h.1)

  safe_entries-entries_of :
      (text : Object → String) (fs made : Fields)
      → FieldsJson fs
      → Apart fs made
      → safe_entries text (entries_of fs) made ≡ before made fs
  safe_entries-entries_of text no_fields made h a = sym (before-nil made)
  safe_entries-entries_of text (field k v rest) made h a =
      ap (λ w. safe_entries text (entries_of rest) (put_field k w made)) (safe-object_of text v h.1)
      ∙ ap (safe_entries text (entries_of rest)) (put_field-new k v made a.0)
      ∙ safe_entries-entries_of text rest (before made (field k v no_fields)) h.2
          (before-Apart rest k v made a.1 h.0)
      ∙ before_assoc made (field k v no_fields) rest

-- What `_safe` gives has no key twice in any of its dictionaries, and `_safe` changes nothing in it
-- when it is applied again.
pub safe_lem :
    (text : Object → String) (o : Object)
    → IsJson (safe text o) × (safe text (object_of (safe text o)) ≡ safe text o)
safe_lem text o = (safe-Json text o, safe-object_of text (safe text o) (safe-Json text o))

pub safe-IsJson : (text : Object → String) (v : Value) → IsJson v → safe text (object_of v) ≡ v
safe-IsJson text v h = safe-object_of text v h
