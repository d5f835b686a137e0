-- ===== src/Logging/Startup.antt =====
-- The record that `main` of service.py logs with the settings of the configuration, as the formatter
-- of logging_setup.py writes it.
use ca1_health_monitor.Prelude.{
  ℤ, String, true, false, Bool-cases, Option, none, some, List, [], ◌∷◌, ◌++◌, ◌==◌, eq_iff, All,
  All-append, ◌≡◌, inl, inr, refl, sym, ap, subst, ◌∙◌, arith,
}
use ca1_health_monitor.Prelude.Dict.{
  Dict, get, Distinct, or_else, or_else-none, latest-append, latest-Distinct,
}
use ca1_health_monitor.Prelude.Text.{append}
use ca1_health_monitor.Common.Types.{Value, Payload}
use ca1_health_monitor.Config.{ServiceConfig}
use ca1_health_monitor.Config.Fields.{
  Kind, bool_kind, float_kind, int_kind, str_kind, list_kind, Attribute, Table, Values,
  all_sections, section_fields, section_values, Section, section_name, service_fields,
  service_values,
}
use ca1_health_monitor.Config.Describe.{
  attribute_value, as_items, flatten, flatten_sections, describe,
}
use ca1_health_monitor.Config.Described.{describe-flat}
use ca1_health_monitor.Logging.{
  Object, is_passed_over, JsonFormatter, LogRecord, own_entries, format,
}
use ca1_health_monitor.Logging.Safe.{object_of, IsJson, ItemsJson, safe-IsJson}
use ca1_health_monitor.Logging.Payload.{shown, safe_option, exception_entry, format-reads}
use ca1_health_monitor.Logging.Extra.{
  as_objects, with_extra, Free, AllReserved, latest-AllReserved, AllReserved-Unknown,
  with_extra-Free,
}

as_objects-Free : (d : Payload) → Free d → Free (as_objects d)
unfolding as_objects
as_objects-Free [] h = tt
as_objects-Free ((key, v) ∷ rest) h = (h.0, as_objects-Free rest h.1)

abbrev object_option : Option Value → Option Object
unfolding object_of
object_option none = none
object_option (some v) = some (object_of v)

get-as_objects : (key : String) (d : Payload) → get key (as_objects d) ≡ object_option (get key d)
unfolding get as_objects
get-as_objects key [] = refl
get-as_objects key ((name, v) ∷ rest) = elim (Bool-cases (name == key)) [
  | inl e ↦ rw e refl
  | inr e ↦ rw e (get-as_objects key rest)
]

as_objects-Distinct : (d : Payload) → Distinct d → Distinct (as_objects d)
unfolding as_objects
as_objects-Distinct [] h = tt
as_objects-Distinct ((key, v) ∷ rest) h =
    (get-as_objects key rest ∙ ap object_option h.0, as_objects-Distinct rest h.1)

abbrev AllJson : Payload → Type 0
AllJson = All (λ entry. IsJson entry.1)

safe-get :
    (text : Object → String) (key : String) (d : Payload)
    → AllJson d
    → safe_option text (object_option (get key d)) ≡ get key d
unfolding get object_option safe_option
safe-get text key [] h = refl
safe-get text key ((name, v) ∷ rest) h = elim (Bool-cases (name == key)) [
  | inl e ↦ rw e (ap some (safe-IsJson text v h.0))
  | inr e ↦ rw e (safe-get text key rest h.1)
]

get-not_Free : (key : String) (d : Payload) → Free d → is_passed_over key ≡ true → get key d ≡ none
unfolding get
get-not_Free key [] f h = refl
get-not_Free key ((name, v) ∷ rest) f h = elim (Bool-cases (name == key)) [
  | inl e ↦
      let n = subst (λ k. is_passed_over k ≡ false) ((eq_iff name key).0 e) f.0 in
      absurd (cc (h, n))
  | inr e ↦ rw e (get-not_Free key rest f.1 h)
]

-- An extra shows as it is, among attributes that are reserved.
shown-extra :
    (text : Object → String) (key : String) (attributes : Dict Object) (extra : Payload)
    → AllReserved attributes
    → Free extra
    → Distinct extra
    → AllJson extra
    → shown text key (attributes ++ as_objects extra) ≡ get key extra
unfolding shown
shown-extra text key attributes extra r f d j = elim (Bool-cases (is_passed_over key)) [
  | inl e ↦ rw (shown, e) (sym (get-not_Free key extra f e))
  | inr e ↦
      rw
        (
          shown,
          e,
          latest-append key attributes (as_objects extra),
          latest-Distinct key (as_objects extra) (as_objects-Distinct extra d),
          latest-AllReserved key attributes r e,
          or_else-none,
          get-as_objects key extra,
        )
        (safe-get text key extra j)
]

as_items-IsJson : (ss : List String) → ItemsJson (as_items ss)
unfolding IsJson
as_items-IsJson [] = tt
as_items-IsJson (s ∷ ss) = (tt, as_items-IsJson ss)

attribute_value-IsJson : (kind : Kind) (x : Attribute kind) → IsJson (attribute_value kind x)
unfolding IsJson
attribute_value-IsJson bool_kind x = tt
attribute_value-IsJson float_kind x = tt
attribute_value-IsJson int_kind x = tt
attribute_value-IsJson str_kind x = tt
attribute_value-IsJson list_kind x = as_items-IsJson x

flatten-IsJson :
    (table : Table) (before : String) (xs : Values table) → AllJson (flatten table before xs)
unfolding flatten
flatten-IsJson [] before xs = tt
flatten-IsJson ((name, kind) ∷ table) before (x, xs) =
    (attribute_value-IsJson kind x, flatten-IsJson table before xs)

flatten_sections-IsJson :
    (sections : List Section) (c : ServiceConfig) → AllJson (flatten_sections sections c)
unfolding flatten_sections
flatten_sections-IsJson [] c = tt
flatten_sections-IsJson (s ∷ rest) c =
    All-append (λ entry. IsJson entry.1)
      (flatten (section_fields s) (append (section_name s) ".") (section_values s c))
      (flatten_sections rest c)
      (flatten-IsJson (section_fields s) (append (section_name s) ".") (section_values s c))
      (flatten_sections-IsJson rest c)

describe-Free : (c : ServiceConfig) → Free (describe c)
unfolding describe is_passed_over
describe-Free c = ground arith

describe-Distinct : (c : ServiceConfig) → Distinct (describe c)
unfolding describe get
describe-Distinct c = ground arith

describe-IsJson : (c : ServiceConfig) → AllJson (describe c)
describe-IsJson c = subst AllJson (sym (describe-flat c)) (
    All-append (λ entry. IsJson entry.1) (flatten service_fields "" (service_values c))
      (flatten_sections all_sections c) (flatten-IsJson service_fields "" (service_values c))
      (flatten_sections-IsJson all_sections c))

-- The logging library takes a description beside reserved attributes.
pub describe-taken :
    (attributes : Dict Object) (c : ServiceConfig)
    → AllReserved attributes
    → with_extra attributes (as_objects (describe c)) ≡ some (attributes ++ as_objects (describe c))
describe-taken attributes c h =
    let free = as_objects-Free (describe c) (describe-Free c) in
    with_extra-Free attributes (as_objects (describe c)) free
      (as_objects-Distinct (describe c) (describe-Distinct c))
      (AllReserved-Unknown attributes (as_objects (describe c)) h free)

own_apart :
    (f : JsonFormatter) (r : LogRecord) (clock : ℤ) (c : ServiceConfig)
    → All (λ entry. get entry.0 (own_entries f r clock) ≡ none) (describe c)
unfolding describe get own_entries
own_apart f r clock c = elim (Bool-cases f.include_monotonic) [
  | inl e ↦ rw (own_entries, e) (ground arith)
  | inr e ↦ rw (own_entries, e) (ground arith)
]

-- When a configuration is logged at the start, the logging library takes its description as `extra`
-- of a record whose attributes are the reserved ones, and the payload that is written has every
-- setting under its name, beside the entries that every record has: no setting takes the place of
-- one of these, and none is passed over.
pub startup_record :
    (text : Object → String) (f : JsonFormatter) (r : LogRecord) (clock : ℤ) (c : ServiceConfig)
    → AllReserved r.attributes
    → r.exc_info ≡ none
    → (attributes : Dict Object) × (with_extra r.attributes (as_objects (describe c))
        ≡ some attributes)
      × ((key : String)
          → get key (format text f (record r { attributes = attributes }) clock)
            ≡ or_else (get key (describe c)) (get key (own_entries f r clock)))
      × All (λ entry. get entry.0 (own_entries f r clock) ≡ none) (describe c)
unfolding own_entries
startup_record text f r clock c h no_exc =
    let extra = as_objects (describe c) in
    (
      r.attributes ++ extra,
      describe-taken r.attributes c h,
      λ key.
          format-reads text f (record r { attributes = r.attributes ++ extra }) clock key
          ∙ ap
              (λ e. or_else (exception_entry key e) (
                or_else (shown text key (r.attributes ++ extra)) (get key (own_entries f r clock))))
              no_exc
          ∙ ap (λ x. or_else x (get key (own_entries f r clock)))
              (shown-extra text key r.attributes (describe c) h (describe-Free c)
                (describe-Distinct c) (describe-IsJson c)),
      own_apart f r clock c,
    )
