-- ===== src/Logging/Payload.antt =====
-- What the payload of `JsonFormatter.format` in logging_setup.py holds, key by key.
use ca1_health_monitor.Prelude.{
  ℤ, String, Bool, true, false, Bool-cases, Option, none, some, [], ◌∷◌, ◌==◌, eq_iff, eq_refl,
  if◌then◌else◌, ◌≡◌, inl, inr, refl, sym, ap, subst, ◌∙◌,
}
use ca1_health_monitor.Prelude.Dict.{
  Dict, get, put, get-put, or_else, or_else-none, or_else_assoc, latest,
}
use ca1_health_monitor.Common.Types.{Value, str}
use ca1_health_monitor.Logging.{
  Object, safe, is_passed_over, JsonFormatter, LogRecord, own_entries, add_attributes,
  add_exception, format,
}

unfoldable pub safe_option : (Object → String) → Option Object → Option Value
unfolding safe
safe_option text none = none
safe_option text (some o) = some (safe text o)

-- What an attribute shows as: the last one with the key, unless the key is passed over.
unfoldable pub shown : (Object → String) → String → Dict Object → Option Value
unfolding latest safe_option
shown text key attributes =
    if is_passed_over key then none else safe_option text (latest key attributes)

abbrev pub exception_entry : String → Option String → Option Value
exception_entry key none = none
exception_entry key (some exc) = if "exc" == key then some (str exc) else none

if_or_else :
    {A : Type 0} (b : Bool) (a : A) (z : Option A)
    → (if b then some a else z) ≡ or_else (if b then some a else none) z
if_or_else true a z = refl
if_or_else false a z = refl

safe_option-or_else :
    (text : Object → String) (x y : Option Object)
    → safe_option text (or_else x y) ≡ or_else (safe_option text x) (safe_option text y)
unfolding safe_option
safe_option-or_else text none y = refl
safe_option-or_else text (some o) y = refl

-- What one attribute adds.
abbrev shows : (Object → String) → String → String → Object → Option Value
shows text key name value =
    if name == key then (if is_passed_over name then none else some (safe text value)) else none

shown_same :
    (text : Object → String) (key : String) (value : Object) (rest : Dict Object)
    → shown text key ((key, value) ∷ rest)
      ≡ or_else (shown text key rest) (shows text key key value)
unfolding shown latest safe_option
shown_same text key value rest = elim (Bool-cases (is_passed_over key)) [
  | inl e ↦ rw (shown, e, eq_refl) refl
  | inr e ↦ rw (shown, e, eq_refl, latest) (safe_option-or_else text (latest key rest) (some value))
]

shown_cons :
    (text : Object → String) (key name : String) (value : Object) (rest : Dict Object)
    → shown text key ((name, value) ∷ rest)
      ≡ or_else (shown text key rest) (shows text key name value)
unfolding shown latest
shown_cons text key name value rest = elim (Bool-cases (name == key)) [
  | inl e ↦
      subst
        (λ n.
          shown text key ((n, value) ∷ rest)
          ≡ or_else (shown text key rest) (shows text key n value))
        (sym ((eq_iff name key).0 e)) (shown_same text key value rest)
  | inr e ↦ rw (shown, e, latest, or_else-none) (sym (or_else-none (shown text key rest)))
]

over :
    (text : Object → String) (key name : String) (value : Object) (x : Option Value)
    → is_passed_over name ≡ true
    → x ≡ or_else x (shows text key name value)
over text key name value x e = elim (Bool-cases (name == key)) [
  | inl n ↦ rw (n, e) (sym (or_else-none x))
  | inr n ↦ rw n (sym (or_else-none x))
]

kept :
    (text : Object → String) (key name : String) (value : Object) (z : Option Value)
    → is_passed_over name ≡ false
    → (if name == key then some (safe text value) else z) ≡ or_else (shows text key name value) z
kept text key name value z e = elim (Bool-cases (name == key)) [
  | inl n ↦ rw (n, e) refl
  | inr n ↦ rw n refl
]

get-add_attributes :
    (text : Object → String) (key : String) (attributes : Dict Object) (payload : Dict Value)
    → get key (add_attributes text attributes payload)
      ≡ or_else (shown text key attributes) (get key payload)
unfolding add_attributes shown latest
get-add_attributes text key [] payload = elim (Bool-cases (is_passed_over key)) [
  | inl e ↦ rw (shown, e) refl
  | inr e ↦ rw (shown, e) refl
]
get-add_attributes text key ((name, value) ∷ rest) payload =
    let shift = ap (λ x. or_else x (get key payload)) (sym (shown_cons text key name value rest)) in
    elim (Bool-cases (is_passed_over name)) [
      | inl e ↦
          rw (add_attributes, e)
            (get-add_attributes text key rest payload
              ∙ ap (λ x. or_else x (get key payload))
                  (over text key name value (shown text key rest) e)
              ∙ shift)
      | inr e ↦
          rw (add_attributes, e)
            (get-add_attributes text key rest (put name (safe text value) payload)
              ∙ ap (or_else (shown text key rest)) (
                  get-put name key (safe text value) payload
                  ∙ kept text key name value (get key payload) e)
              ∙ sym (
                  or_else_assoc (shown text key rest) (shows text key name value) (get key payload))
              ∙ shift)
    ]

with_exception :
    (exc : Option String) (key : String) (payload : Dict Value)
    → get key (add_exception exc payload) ≡ or_else (exception_entry key exc) (get key payload)
unfolding add_exception
with_exception none key payload = refl
with_exception (some exc) key payload =
    get-put "exc" key (str exc) payload ∙ if_or_else ("exc" == key) (str exc) (get key payload)

-- The payload has under each key: the text of the exception under "exc", when there is one; else what
-- the last attribute with the key shows as, unless the key is reserved or begins with "_"; and else
-- the entry that every record has. So an attribute that a caller adds under a key such as "level"
-- or "ts" takes the place of the record's own entry.
pub format-reads :
    (text : Object → String) (f : JsonFormatter) (r : LogRecord) (clock : ℤ) (key : String)
    → get key (format text f r clock)
      ≡ or_else
          (exception_entry key r.exc_info)
          (or_else (shown text key r.attributes) (get key (own_entries f r clock)))
unfolding format
format-reads text f r clock key =
    with_exception r.exc_info key (add_attributes text r.attributes (own_entries f r clock))
    ∙ ap (or_else (exception_entry key r.exc_info))
        (get-add_attributes text key r.attributes (own_entries f r clock))
