-- ===== src/Config/LoadTests.antt =====
-- Runs of `from_mapping` and `load` of config.py.
use ca1_health_monitor.Prelude.{
  pos, String, false, some, [], ◌∷◌, ◌++◌, All, raised, returned, ◌≡◌, ◌≢◌, ◌↔◌, refl,
}
use ca1_health_monitor.Prelude.Text.Parse.{parse_int}
use ca1_health_monitor.Prelude.Dict.{Dict, get}
use ca1_health_monitor.Common.Types.{
  other_error, type_error, Value, bool, int, float, str, dict, Fields, no_fields, field, Payload,
}
use ca1_health_monitor.Config.{ServiceConfig, default_config, default_heartbeat, default_memory}
use ca1_health_monitor.Config.Validate.{
  not_positive, breaks, expected, unknown_section, not_found, require_positive, require_fraction,
  is_level,
}
use ca1_health_monitor.Config.Fields.{
  Section, memory_section, heartbeat_section, service_fields, section_fields,
}
use ca1_health_monitor.Config.Describe.{describe}
use ca1_health_monitor.Config.Coerce.{refused, crashed, outside}
use ca1_health_monitor.Config.Load.{top_level, from_mapping, FileDocument, missing, parsed, load}
use ca1_health_monitor.Prelude.Text.{append}
use ca1_health_monitor.Config.Rules.{Rules}
use ca1_health_monitor.Config.Environment.{env_overrides}
use ca1_health_monitor.Config.Applied.{read, settled, Fits}
use ca1_health_monitor.Config.Built.{section_entries, entries_for}
use ca1_health_monitor.Config.Variables.{variable}
use ca1_health_monitor.Config.Precedence.{given, from_mapping-precedence}
use ca1_health_monitor.Config.RoundTrip.{document_of, from_mapping-document_of}
use ca1_health_monitor.Config.Strict.{from_mapping-strict, load-Rules, from_mapping-whole_section}
use ca1_health_monitor.Config.Accepted.{Built}
use ca1_health_monitor.Config.Complete.{Known}
use ca1_health_monitor.Config.Phases.{HasObject}
use ca1_health_monitor.Config.Exact.{from_mapping_iff}
use ca1_health_monitor.Config.Tests.{defaults_accepted}

abbrev no_repr : Value → String
no_repr v = ""

abbrev document : Payload
document =
    ("service_name", str "monitor")
    ∷ (
      "heartbeat",
      dict (field "peer_timeout_s" (int (pos 4)) (field "peers" (str "a, b") no_fields)),
    )
    ∷ []

abbrev environ : Dict String
environ =
    ("HOME", "/root")
    ∷ ("HM_HEARTBEAT__PEER_TIMEOUT_S", "4.5")
    ∷ ("HM_HEARTBEAT__QUORUM_MIN_LIVE", "2")
    ∷ ("HM_MEMORY__ENABLED", "Off ")
    ∷ []

abbrev loaded : ServiceConfig
loaded = record default_config {
  service_name = "monitor";
  memory = record default_memory { enabled = false };
  heartbeat = record default_heartbeat {
    peer_timeout_s = pos 4_500_000;
    peers = "a" ∷ "b" ∷ [];
    quorum_min_live = pos 2;
  };
}

loads : from_mapping no_repr document environ ≡ returned loaded
unfolding from_mapping parse_int require_positive require_fraction is_level
loads = refl

refuses :
    (from_mapping no_repr (("heartbeats", dict no_fields) ∷ []) []
      ≡ raised (refused (breaks "heartbeats" "unknown configuration key")))
    × (from_mapping no_repr (("memory", int (pos 1)) ∷ []) []
        ≡ raised (refused (breaks "memory" "expected an object")))
    × (from_mapping no_repr [] (("HM_LOOP_PERIOD_S", "0") ∷ [])
        ≡ raised (refused (not_positive "loop_period_s" (pos 0))))
    × (from_mapping no_repr [] (("HM_MEMORY__PAGES_PER_SLICE", "4.0") ∷ [])
        ≡ raised (refused (expected "memory.pages_per_slice" "an integer" (str "4.0"))))
    × (from_mapping no_repr [] (("HM_DISK__ENABLED", "1") ∷ [])
        ≡ raised (refused (unknown_section "disk")))
    × (from_mapping no_repr [] (("HM_LOOP_PERIOD_S", "nan") ∷ [])
        ≡ raised (outside "loop_period_s"))
    × (load no_repr "hm.json" missing [] ≡ raised (refused (not_found "hm.json")))
unfolding load from_mapping require_positive parse_int
refuses = (refl, refl, refl, refl, refl, refl, refl)

-- A variable for a whole section ends the load with an exception that is no `ConfigError`.
crashes :
    (from_mapping no_repr [] (("HM_MEMORY", "on") ∷ []) ≡ raised (crashed other_error))
    × (from_mapping no_repr [] (("HM_MEMORY", "on") ∷ ("HM_MEMORY__ENABLED", "on") ∷ [])
        ≡ raised (crashed type_error))
unfolding from_mapping require_positive
crashes = (refl, refl)

described : get "memory.enabled" (describe loaded) ≡ some (bool false)
unfolding get describe
described = refl

abbrev file : FileDocument
file = parsed (
    dict (
      field "service_name" (str "monitor") (
        field "heartbeat"
          (dict (field "peer_timeout_s" (int (pos 4)) (field "peers" (str "a, b") no_fields)))
          no_fields)))

loads_file : load no_repr "hm.json" file environ ≡ returned loaded
unfolding load from_mapping parse_int require_positive require_fraction is_level
loads_file = refl

-- The environment's 4.5 takes the place of the document's 4.
from_mapping-precedence_example :
    settled no_repr
      (section_fields heartbeat_section)
      "heartbeat."
      "peer_timeout_s"
      (given "heartbeat" "peer_timeout_s" environ (section_entries heartbeat_section document))
      (some (float (pos 3_000_000)))
    ≡ returned (some (float (pos 4_500_000)))
unfolding read append
from_mapping-precedence_example =
    (from_mapping-precedence no_repr document environ loaded loads "peer_timeout_s").0
      heartbeat_section

from_mapping-document_of_example :
    from_mapping no_repr (document_of default_config) [] ≡ returned default_config
from_mapping-document_of_example = from_mapping-document_of no_repr default_config defaults_accepted

from_mapping-strict_example :
    All
      (Fits no_repr service_fields "")
      (top_level document ++ entries_for "" (env_overrides environ))
from_mapping-strict_example = (from_mapping-strict no_repr document environ loaded loads).1

load-Rules_example : Rules loaded × ((fs : Fields) × (file ≡ parsed (dict fs)))
load-Rules_example = load-Rules no_repr "hm.json" file environ loaded loads_file

memory_on : variable "" "memory" (("HM_MEMORY", "on") ∷ []) ≡ some "on"
unfolding variable
memory_on = refl

from_mapping-whole_section_example :
    from_mapping no_repr [] (("HM_MEMORY", "on") ∷ []) ≢ returned default_config
from_mapping-whole_section_example =
    from_mapping-whole_section no_repr [] (("HM_MEMORY", "on") ∷ []) default_config memory_section
      "on" memory_on

from_mapping_iff_example : (from_mapping no_repr document environ ≡ returned loaded) ↔ (
    Built no_repr document environ loaded
    × ((s : Section) → HasObject no_repr document s)
    × Known no_repr (env_overrides environ))
from_mapping_iff_example = from_mapping_iff no_repr document environ loaded
