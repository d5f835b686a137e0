-- ===== src/Logging.antt =====
-- src/health_monitor/logging_setup.py: what a log record becomes before `json.dumps` writes it, and the
-- state of the logging library that `configure` sets.
pub mod Safe
pub mod Payload
pub mod Extra
pub mod Startup
pub mod Setup
pub mod Tests
use ca1_health_monitor.Prelude.{
  ℕ, ltb, ℤ, String, Bool, true, false, ◌||◌, Option, none, some, List, [], ◌∷◌, ◌==◌,
  if◌then◌else◌,
}
use ca1_health_monitor.Prelude.Dict.{Dict, put}
use ca1_health_monitor.Prelude.Text.{after_prefix, append, concat}
use ca1_health_monitor.Prelude.Text.Format.{show_ℕ, round_to}
use ca1_health_monitor.Prelude.Text.Split.{is_one_of}
use ca1_health_monitor.Common.Types.{
  Value, none_value, bool, int, float, str, list, dict, Items, no_items, item, Fields, no_fields,
  field,
}

-- What an attribute of a record can be: a Python object, a `dict` with any keys included. What is
-- none of the types that `_safe` names is given by its `repr`.
mutual
  pub data Object : Type 0 where
    none_object : Object
    bool_object : Bool → Object
    int_object : ℤ → Object
    float_object : ℤ → Object
    str_object : String → Object
    dict_object : Entries → Object
    list_object : Objects → Object
    tuple_object : Objects → Object
    set_object : Objects → Object
    other_object : String → Object

  pub data Objects : Type 0 where
    no_objects : Objects
    and_object : Object → Objects → Objects

  pub data Entries : Type 0 where
    no_entries : Entries
    entry : Object → Object → Entries → Entries

-- `made[key] = value`
unfoldable pub put_field : String → Value → Fields → Fields
put_field key v no_fields = field key v no_fields
put_field key v (field k w rest) =
    if k == key then field k v rest else field k w (put_field key v rest)

-- `str(k)`; what it writes for a key that is no text is an argument.
abbrev pub key_text : (Object → String) → Object → String
key_text text (str_object s) = s
key_text text k = text k

-- `_safe`, with the entries of a dictionary after those made so far.
unfoldable mutual
  unfolding put_field

  pub safe : (Object → String) → Object → Value
  safe text none_object = none_value
  safe text (bool_object b) = bool b
  safe text (int_object n) = int n
  safe text (float_object x) = float x
  safe text (str_object s) = str s
  safe text (dict_object entries) = dict (safe_entries text entries no_fields)
  safe text (list_object xs) = list (safe_items text xs)
  safe text (tuple_object xs) = list (safe_items text xs)
  safe text (set_object xs) = list (safe_items text xs)
  safe text (other_object repr) = str repr

  pub safe_items : (Object → String) → Objects → Items
  safe_items text no_objects = no_items
  safe_items text (and_object x xs) = item (safe text x) (safe_items text xs)

  pub safe_entries : (Object → String) → Entries → Fields → Fields
  safe_entries text no_entries made = made
  safe_entries text (entry k v rest) made =
      safe_entries text rest (put_field (key_text text k) (safe text v) made)

-- `_RESERVED`: the attributes that every record has, and those that a formatter adds.
abbrev pub reserved_words : List String
reserved_words =
    "name" ∷ "msg" ∷ "args" ∷ "levelname" ∷ "levelno" ∷ "pathname" ∷ "filename" ∷ "module"
    ∷ "exc_info" ∷ "exc_text" ∷ "stack_info" ∷ "lineno" ∷ "funcName" ∷ "created" ∷ "msecs"
    ∷ "relativeCreated" ∷ "thread" ∷ "threadName" ∷ "processName" ∷ "process" ∷ "message"
    ∷ "asctime" ∷ "taskName" ∷ []

unfoldable pub is_reserved : String → Bool
unfolding is_one_of
is_reserved key = is_one_of key reserved_words

abbrev pub is_some : {A : Type 0} → Option A → Bool
is_some none = false
is_some (some a) = true

-- `key in _RESERVED or key.startswith("_")`
unfoldable pub is_passed_over : String → Bool
unfolding is_reserved after_prefix
is_passed_over key = is_reserved key || is_some (after_prefix "_" key)

pub record JsonFormatter : Type 0 where
  pub service_name : String
  pub instance_id : String
  pub include_monotonic : Bool

-- A `logging.LogRecord`: `stamp` is what `strftime` writes for its time, `message` what `getMessage`
-- returns, `exc_info` the text of its exception, `attributes` its `__dict__`.
pub record LogRecord : Type 0 where
  pub stamp : String
  pub msecs : ℕ
  pub levelname : String
  pub name : String
  pub message : String
  pub exc_info : Option String
  pub attributes : Dict Object

-- `f"{n:03d}"`
unfoldable pub three_digits : ℕ → String
unfolding show_ℕ append
three_digits n =
    if ltb n 10
    then append "00" (show_ℕ n)
    else if ltb n 100
    then append "0" (show_ℕ n)
    else show_ℕ n

-- The entries that every record has; `clock` is the reading of the monotonic clock.
unfoldable pub own_entries : JsonFormatter → LogRecord → ℤ → Dict Value
unfolding three_digits concat put round_to
own_entries f r clock =
    let payload =
      ("ts", str (concat (r.stamp ∷ "." ∷ three_digits r.msecs ∷ "Z" ∷ [])))
      ∷ ("level", str r.levelname)
      ∷ ("service", str f.service_name)
      ∷ ("instance", str f.instance_id)
      ∷ ("logger", str r.name)
      ∷ ("msg", str r.message)
      ∷ [] in
    if f.include_monotonic then put "monotonic" (float (round_to 6 clock)) payload else payload

-- The loop over the attributes.
unfoldable pub add_attributes : (Object → String) → Dict Object → Dict Value → Dict Value
unfolding is_passed_over put safe
add_attributes text [] payload = payload
add_attributes text ((key, value) ∷ rest) payload =
    let kept = put key (safe text value) payload in
    if is_passed_over key then add_attributes text rest payload else add_attributes text rest kept

abbrev pub add_exception : Option String → Dict Value → Dict Value
unfolding put
add_exception none payload = payload
add_exception (some exc) payload = put "exc" (str exc) payload

-- `JsonFormatter.format`, up to the text that `json.dumps` makes of the payload.
unfoldable pub format : (Object → String) → JsonFormatter → LogRecord → ℤ → Dict Value
unfolding own_entries add_attributes add_exception
format text f r clock =
    add_exception r.exc_info (add_attributes text r.attributes (own_entries f r clock))
