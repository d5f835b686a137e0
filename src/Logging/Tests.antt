-- ===== src/Logging/Tests.antt =====
-- Runs of logging_setup.py and instances of its theorems.
use ca1_health_monitor.Prelude.{pos, String, true, none, some, [], ◌∷◌, ◌≡◌, refl}
use ca1_health_monitor.Prelude.Dict.{Dict, get, or_else}
use ca1_health_monitor.Prelude.Text.{after_prefix}
use ca1_health_monitor.Common.Types.{str, list, dict, no_items, item, no_fields, field}
use ca1_health_monitor.Config.{default_config}
use ca1_health_monitor.Config.Describe.{describe}
use ca1_health_monitor.Logging.{
  Object, none_object, int_object, str_object, dict_object, tuple_object, other_object, no_objects,
  and_object, no_entries, entry, safe, is_reserved, JsonFormatter, LogRecord, own_entries, format,
}
use ca1_health_monitor.Logging.Safe.{object_of, safe_lem}
use ca1_health_monitor.Logging.Payload.{shown, format-reads}
use ca1_health_monitor.Logging.Extra.{as_objects, with_extra}
use ca1_health_monitor.Logging.Startup.{startup_record}
use ca1_health_monitor.Logging.Setup.{
  Library, no_formatter, new_handler, formatter_for, configure, configure_lem,
}

abbrev one : Object → String
one k = "1"

-- The key 1 becomes the text "1", and takes the place of the entry that is there.
abbrev nested : Object
nested = dict_object (
    entry (str_object "1") none_object (
      entry (int_object (pos 1)) (tuple_object (and_object (other_object "<lock>") no_objects))
        no_entries))

made_safe : safe one nested ≡ dict (field "1" (list (item (str "<lock>") no_items)) no_fields)
unfolding safe
made_safe = refl

safe_lem_example : safe one (object_of (safe one nested)) ≡ safe one nested
safe_lem_example = (safe_lem one nested).1

abbrev formatter : JsonFormatter
formatter = record { service_name = "monitor"; instance_id = "hm-0"; include_monotonic = true }

abbrev logged : LogRecord
logged = record {
  stamp = "2026-01-02T03:04:05";
  msecs = 7;
  levelname = "INFO";
  name = "health-monitor";
  message = "configuration loaded";
  exc_info = none;
  attributes = ("name", str_object "health-monitor") ∷ ("args", none_object) ∷ [];
}

-- With an attribute of a caller's that has the name of an entry.
abbrev relabelled : LogRecord
relabelled = record logged { attributes = ("level", str_object "3") ∷ ("_x", str_object "x") ∷ [] }

entries :
    (get "ts" (format one formatter logged (pos 1)) ≡ some (str "2026-01-02T03:04:05.007Z"))
    × (get "args" (format one formatter logged (pos 1)) ≡ none)
    × (get "level" (format one formatter relabelled (pos 1)) ≡ some (str "3"))
    × (get "_x" (format one formatter relabelled (pos 1)) ≡ none)
unfolding get format after_prefix
entries = (refl, refl, refl, refl)

format-reads_example :
    get "level" (format one formatter relabelled (pos 1))
    ≡ or_else none (
        or_else
          (shown one "level" relabelled.attributes)
          (get "level" (own_entries formatter relabelled (pos 1))))
format-reads_example = format-reads one formatter relabelled (pos 1) "level"

reserved : (is_reserved "name" ≡ true) × (is_reserved "args" ≡ true)
unfolding is_reserved
reserved = (refl, refl)

startup_record_example :
    (attributes : Dict Object) × (with_extra logged.attributes
        (as_objects (describe default_config))
      ≡ some attributes)
startup_record_example =
    let (attributes, taken, _, _) =
      startup_record one formatter logged (pos 1) default_config (reserved.0, (reserved.1, tt))
        refl in
    (attributes, taken)

abbrev before : Library
before = record {
  handlers = new_handler 0 no_formatter none ∷ new_handler 1 no_formatter none ∷ [];
  level = 30;
  levels = [];
}

configure_lem_example :
    (configure "info" "text" "monitor" "hm-0" true none 2 before).handlers
    ≡ new_handler 2 (formatter_for "text" "monitor" "hm-0" true) none ∷ []
configure_lem_example = (configure_lem "info" "text" "monitor" "hm-0" true none 2 before).0
