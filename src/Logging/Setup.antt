-- ===== src/Logging/Setup.antt =====
-- `configure`, `PlainFormatter`, `log_fields` and `suppress_noisy` of logging_setup.py, on the state of
-- the logging library that they set.
use ca1_health_monitor.Prelude.{
  ℕ, String, Bool, true, Option, some, List, [], ◌∷◌, ◌++◌, All, ◌==◌, eq_iff, if◌then◌else◌, ◌≡◌,
  refl, ap, ap₂, ◌∙◌, arith,
}
use ca1_health_monitor.Prelude.Dict.{Dict, get, put, get-put}
use ca1_health_monitor.Prelude.Text.{same, concat}
use ca1_health_monitor.Prelude.Text.Case.{codes, upper_codes, same_codes, is_upper_case}
use ca1_health_monitor.Prelude.Text.Split.{is_one_of}
use ca1_health_monitor.Logging.{JsonFormatter}

-- A formatter of this program, and a handler: an object, which `number` tells from the others.
pub data Formatter : Type 0 where
  json_formatter : JsonFormatter → Formatter
  plain_formatter : String → Formatter
  no_formatter : Formatter

pub record Handler : Type 0 where
  pub number : ℕ
  pub formatter : Formatter
  pub stream : Option String

-- The root logger, and the levels of the others by name.
pub record Library : Type 0 where
  pub handlers : List Handler
  pub level : ℕ
  pub levels : Dict ℕ

-- `PlainFormatter.__init__`, by the format that it has.
unfoldable pub plain_format : String → String → String
unfolding concat
plain_format service_name instance_id = concat (
    "%(asctime)s %(levelname)-7s [" ∷ service_name ∷ "/" ∷ instance_id ∷ "] %(name)s: %(message)s"
    ∷ [])

-- `root.removeHandler(handler)`
unfoldable pub remove_handler : Handler → List Handler → List Handler
remove_handler h [] = []
remove_handler h (k ∷ rest) =
    let others = remove_handler h rest in if same h.number k.number then rest else k ∷ others

-- The loop over a copy of the handlers.
unfoldable pub remove_handlers : List Handler → List Handler → List Handler
unfolding remove_handler
remove_handlers [] handlers = handlers
remove_handlers (h ∷ copy) handlers = remove_handlers copy (remove_handler h handlers)

-- `getattr(logging, name, logging.INFO)`, for a name in capitals, by its code points.
abbrev level_number_of : List ℕ → ℕ
unfolding codes same_codes
level_number_of name =
    if same_codes name (codes "DEBUG")
    then 10
    else if same_codes name (codes "WARNING")
    then 30
    else if same_codes name (codes "ERROR")
    then 40
    else if same_codes name (codes "CRITICAL")
    then 50
    else if same_codes name (codes "WARN")
    then 30
    else if same_codes name (codes "FATAL")
    then 50
    else if same_codes name (codes "NOTSET")
    then 0
    else 20

-- `getattr(logging, level.upper(), logging.INFO)`, where that is a level.
unfoldable pub level_number : String → ℕ
unfolding level_number_of upper_codes
level_number level = level_number_of (upper_codes level)

unfoldable pub formatter_for : String → String → String → Bool → Formatter
unfolding plain_format
formatter_for fmt service_name instance_id include_monotonic =
    if fmt == "json"
    then json_formatter (record {
      service_name = service_name;
      instance_id = instance_id;
      include_monotonic = include_monotonic;
    })
    else plain_formatter (plain_format service_name instance_id)

-- `logging.StreamHandler(...)` with its formatter.
abbrev pub new_handler : ℕ → Formatter → Option String → Handler
new_handler number formatter stream = record {
  number = number;
  formatter = formatter;
  stream = stream;
}

-- `configure`; `number` tells the handler that it makes from those before.
unfoldable pub configure :
    String → String → String → String → Bool → Option String → ℕ → Library → Library
unfolding remove_handlers level_number formatter_for
configure level fmt service_name instance_id include_monotonic stream number l = record l {
  handlers =
      remove_handlers l.handlers l.handlers
      ++ new_handler number (formatter_for fmt service_name instance_id include_monotonic) stream
        ∷ [];
  level = level_number level;
}

-- `suppress_noisy`
unfoldable pub suppress_noisy : List String → ℕ → Dict ℕ → Dict ℕ
unfolding put
suppress_noisy [] level levels = levels
suppress_noisy (name ∷ names) level levels = suppress_noisy names level (put name level levels)

remove_first : (h : Handler) (rest : List Handler) → remove_handler h (h ∷ rest) ≡ rest
unfolding remove_handler
remove_first h rest = ground arith

remove_handlers-all : (handlers : List Handler) → remove_handlers handlers handlers ≡ []
unfolding remove_handlers
remove_handlers-all [] = refl
remove_handlers-all (h ∷ rest) =
    ap (remove_handlers rest) (remove_first h rest) ∙ remove_handlers-all rest

same_codes-path : (xs ys : List ℕ) → same_codes xs ys ≡ true → xs ≡ ys
unfolding same_codes
same_codes-path [] [] h = refl
same_codes-path [] (y ∷ ys) h = absurd (cc h)
same_codes-path (x ∷ xs) [] h = absurd (cc h)
same_codes-path (x ∷ xs) (y ∷ ys) h =
    ap₂ (◌∷◌) (ground arith) (same_codes-path xs ys (ground arith))

-- The levels that `validate` accepts, by their numbers.
abbrev pub level_table : List (String × ℕ)
level_table = ("DEBUG", 10) ∷ ("INFO", 20) ∷ ("WARNING", 30) ∷ ("ERROR", 40) ∷ ("CRITICAL", 50) ∷ []

abbrev pub HasNumber : String → String × ℕ → Type 0
HasNumber level entry = is_upper_case level entry.0 ≡ true → level_number level ≡ entry.1

number_of :
    (level word : String) (n : ℕ) → level_number_of (codes word) ≡ n → HasNumber level (word, n)
unfolding level_number is_upper_case
number_of level word n e h =
    ap level_number_of (same_codes-path (upper_codes level) (codes word) h) ∙ e

-- Whatever handlers there were, `configure` leaves the one that it makes, and no other logger's level
-- is changed; a level of the table, in any case of its letters, becomes its number.
pub configure_lem :
    (level fmt service_name instance_id : String) (include_monotonic : Bool)
    (stream : Option String) (number : ℕ) (l : Library)
    → let c = configure level fmt service_name instance_id include_monotonic stream number l in
      (c.handlers
        ≡ new_handler number (formatter_for fmt service_name instance_id include_monotonic) stream
          ∷ [])
      × (c.level ≡ level_number level)
      × (c.levels ≡ l.levels)
      × All (HasNumber level) level_table
unfolding configure codes
configure_lem level fmt service_name instance_id include_monotonic stream number l = (
  ap
      (λ hs.
        hs
        ++ new_handler number (formatter_for fmt service_name instance_id include_monotonic) stream
          ∷ [])
      (remove_handlers-all l.handlers),
  refl,
  refl,
  (
    number_of level "DEBUG" 10 refl,
    (
      number_of level "INFO" 20 refl,
      (
        number_of level "WARNING" 30 refl,
        (number_of level "ERROR" 40 refl, (number_of level "CRITICAL" 50 refl, tt)),
      ),
    ),
  ),
)

-- The loggers that are named have the level, and the others what they had.
pub suppress_noisy_lem :
    (names : List String) (level : ℕ) (levels : Dict ℕ) (name : String)
    → get name (suppress_noisy names level levels)
      ≡ (if is_one_of name names then some level else get name levels)
unfolding suppress_noisy is_one_of
suppress_noisy_lem [] level levels name = refl
suppress_noisy_lem (n ∷ names) level levels name =
    suppress_noisy_lem names level (put n level levels) name
    ∙ ap (λ x. if is_one_of name names then some level else x) (get-put n name level levels)
    ∙ ground (arith, eq_iff n name, eq_iff name n)
