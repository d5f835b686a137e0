-- ===== src/Service/MainTests.antt =====
-- Runs of `main` in service.py and instances of the theorems on its exit codes.
use ca1_health_monitor.Prelude.{
  ℕ, ◌≤◌, pos, true, false, some, [], ◌∷◌, All, raised, returned, ◌≡◌, refl, arith,
}
use ca1_health_monitor.Common.Types.{dict, str, no_fields, field}
use ca1_health_monitor.Config.{default_config}
use ca1_health_monitor.Config.Validate.{breaks, require_positive, require_fraction, is_level}
use ca1_health_monitor.Config.Coerce.{refused}
use ca1_health_monitor.Config.Load.{parsed, load, from_mapping}
use ca1_health_monitor.Service.{HealthMonitorService}
use ca1_health_monitor.Logging.{str_object, is_reserved}
use ca1_health_monitor.Service.Build.{Objects}
use ca1_health_monitor.Service.Main.{Arguments, World, exits, configured, main}
use ca1_health_monitor.Service.Exits.{loading, code, main_exits, main_returns}
use ca1_health_monitor.Service.Loop.{IsQuiet}
use ca1_health_monitor.Service.Tests.{reads_clock, works, store, round_at}

abbrev args : Arguments
args = record { config = "hm.json"; max_iterations = some (pos 2) }

-- A file without entries, and two rounds.
abbrev world : World ℕ ℕ
world = record {
  repr = λ v. "";
  read = λ path. parsed (dict no_fields);
  environ = [];
  platform = 0;
  mounts = 0;
  clock = λ i. pos 0;
  heard = λ m t. pos 0;
  store = store;
  library = record { handlers = []; level = 30; levels = [] };
  handler = 0;
  attributes = ("name", str_object "health-monitor") ∷ [];
  start = pos 9_000_000;
  stop = pos 12_000_000;
  status = pos 12_000_000;
  rounds = round_at (pos 10_000_000) false ∷ round_at (pos 11_000_000) false ∷ [];
}

-- The same with a key that no field has.
abbrev misspelt : World ℕ ℕ
misspelt = record world { read = λ path. parsed (dict (field "loop_period" (str "1") no_fields)) }

loads_defaults : loading reads_clock works args world ≡ returned default_config
unfolding load from_mapping require_positive require_fraction is_level
loads_defaults = refl

reserved : is_reserved "name" ≡ true
unfolding is_reserved
reserved = refl

main_returns_example :
    (s : HealthMonitorService (Objects ℕ ℕ)) × (main reads_clock works args world
      ≡ exits 0 (configured reads_clock works default_config world) s)
    × (s.iterations ≤ 2)
    × (All IsQuiet world.rounds → s.iterations ≡ 2)
main_returns_example =
    let (s, ends, _, most, all) =
      main_returns reads_clock works args world default_config 2 (reserved, tt) loads_defaults refl
        (omega arith) (omega arith) in
    (s, ends, most, all)

refuses_misspelt :
    loading reads_clock works args misspelt
    ≡ raised (refused (breaks "loop_period" "unknown configuration key"))
unfolding load from_mapping
refuses_misspelt = refl

main_exits_example : code reads_clock works (main reads_clock works args misspelt) ≡ some 2
main_exits_example =
    (main_exits reads_clock works args misspelt (reserved, tt)).1
      (breaks "loop_period" "unknown configuration key") refuses_misspelt
