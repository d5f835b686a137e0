-- ===== src/Common/Types/Tests.antt =====
-- Runs of types.py and instances of its theorems.
use ca1_health_monitor.Prelude.{◌+◌, pos, [], ◌∷◌, ◌≡◌, refl, raised, returned}
use ca1_health_monitor.Prelude.Text.{concat}
use ca1_health_monitor.Prelude.Text.Parse.{parse_int}
use ca1_health_monitor.Common.Types.{
  none_value, float, str, fault, topic, CheckResult, no_stats, to_int, type_error,
}
use ca1_health_monitor.Common.Types.Laws.{record_all, record_all_counts}

abbrev var_log : CheckResult
var_log = record {
  check = "disk";
  state = fault;
  subject = "var-log";
  detail = "";
  metrics = [];
  monotonic_ts = pos 1_000_000;
}

topics :
    (topic var_log ≡ "health.disk.var-log")
    × (topic (record var_log { check = "ram"; subject = "" }) ≡ "health.ram")
unfolding topic concat
topics = (refl, refl)

ints :
    (to_int (str " 7 ") ≡ returned (pos 7))
    × (to_int (float (pos 3_900_000)) ≡ returned (pos 3))
    × (to_int none_value ≡ raised type_error)
unfolding to_int parse_int
ints = (refl, refl, refl)

record_all_counts_example : (record_all no_stats (var_log ∷ var_log ∷ [])).runs ≡ 0 + 2
record_all_counts_example = (record_all_counts no_stats (var_log ∷ var_log ∷ [])).0
