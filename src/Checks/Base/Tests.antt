-- ===== src/Checks/Base/Tests.antt =====
-- Instances of the theorems of `service`, at a check that returns or raises what its state says.
use ca1_health_monitor.Prelude.{
  pos, false, String, none, List, [], ◌∷◌, ◌≡◌, refl, Result, returned,
}
use ca1_health_monitor.Common.Timer.{fresh}
use ca1_health_monitor.Common.Types.{Exception, no_stats, fault, CheckResult}
use ca1_health_monitor.Checks.Base.{PeriodicCheck, Check, service}
use ca1_health_monitor.Checks.Base.Service.{service_publishes}
use ca1_health_monitor.Bus.Tests.{small}

record Scripted : Type 0 where
  base : PeriodicCheck
  answer : Result Exception (List CheckResult)

abbrev scripted : Check (List String) Scripted
scripted = record {
  check_id = "scripted";
  base = λ c. c.base;
  with_base = λ c b. record c { base = b };
  on_tick = λ tick c bus. (c.answer, c, bus);
  base-with_base = λ c b. refl;
}

abbrev faulty : CheckResult
faulty = record {
  check = "scripted";
  state = fault;
  subject = "";
  detail = "down";
  metrics = [];
  monotonic_ts = pos 9_000_000;
}

abbrev answering : Result Exception (List CheckResult) → Scripted
answering answer = record {
  base = record {
    timer = fresh (pos 1_000_000) none (pos 5_000_000) "scripted" false;
    stats = no_stats;
    last_published = [];
  };
  answer = answer;
}

service_publishes_example :
    let c = answering (returned (faulty ∷ [])) in
    (service scripted (pos 9_000_000) none c small).0 ≡ faulty ∷ []
service_publishes_example =
    let c = answering (returned (faulty ∷ [])) in
    (service_publishes scripted (pos 9_000_000) none c small (faulty ∷ []) c small refl).0
