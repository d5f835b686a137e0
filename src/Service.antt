-- ===== src/Service.antt =====
-- src/health_monitor/service.py: the control loop of `HealthMonitorService`. The objects of the
-- checks are a store `T`, on which the subscribers and the checks act; what the loop knows of a
-- check is the interface `Check T T`.
pub mod Build
pub mod Valid
pub mod Watching
pub mod Sweeping
pub mod Scanning
pub mod Steps
pub mod Run
pub mod Loop
pub mod Stops
pub mod Main
pub mod Exits
pub mod Tests
pub mod MainTests
pub mod WatchingTests
pub mod SweepingTests
pub mod ScanningTests
use ca1_health_monitor.Prelude.{
  ℕ, suc, ◌+◌, ℤ, pos, ltb_ℤ, leb_ℤ, max_ℤ, min_ℤ, Bool, true, false, Option, none, some, List, [],
  ◌∷◌, ◌++◌, if◌then◌else◌, String,
}
use ca1_health_monitor.Common.Timer.{IntervalTimer, seconds_until_due}
use ca1_health_monitor.Common.Types.{
  int, float, str, dict, Value, Payload, HealthState, ok, CheckResult, max_state, as_fields,
  stats_payload,
}
use ca1_health_monitor.Prelude.Dict.{Dict, put}
use ca1_health_monitor.Prelude.Text.Format.{round_to}
use ca1_health_monitor.Bus
use ca1_health_monitor.Bus.{Message, MessageBus, drain, drain_limit, publish}
use ca1_health_monitor.Config.{ServiceConfig}
use ca1_health_monitor.Checks.Base.{PeriodicCheck, Check, service}

abbrev pub status_topic : String
status_topic = "health.monitor.status"

abbrev pub version : String
version = "2.4.1"

pub record HealthMonitorService (T : Type 0) : Type 0 where
  pub config : ServiceConfig
  pub bus : MessageBus T
  pub checks : List (Check T T)
  pub objects : T
  pub running : Bool
  pub iterations : ℕ
  pub started_at : Option ℤ

-- What `step` returns.
pub record Telemetry : Type 0 where
  pub results : ℕ
  pub worst_state : HealthState

-- The inner loop of `step`.
unfoldable pub tally : ℕ → HealthState → List CheckResult → ℕ × HealthState
tally emitted worst [] = (emitted, worst)
tally emitted worst (r ∷ rest) = tally (emitted + 1) (max_state worst r.state) rest

module _ {T : Type 0} where
  -- The loop of `step` over the checks; `clock i` is what the clock reads in the poll of the i-th.
  -- It gives what the checks returned, in order, beside what the loop keeps.
  unfoldable pub service_all :
      (ℕ → ℤ)
      → Option ℤ
      → ℕ
      → List (Check T T)
      → T
      → MessageBus T
      → List CheckResult × T × MessageBus T
  service_all clock now i [] objects bus = ([], objects, bus)
  service_all clock now i (k ∷ rest) objects bus =
      let (results, objects', bus') = service k (clock i) now objects bus in
      let (later, objects'', bus'') = service_all clock now (suc i) rest objects' bus' in
      (results ++ later, objects'', bus'')

  -- `step(now)`
  unfoldable pub step :
      (ℕ → ℤ) → Option ℤ → HealthMonitorService T → Telemetry × HealthMonitorService T
  unfolding service_all tally
  step clock now s =
      let (_, bus, objects) = drain drain_limit s.bus s.objects in
      let (results, objects', bus') = service_all clock now 0 s.checks objects bus in
      let (emitted, worst) = tally 0 ok results in
      (
        record { results = emitted; worst_state = worst },
        record s { bus = bus'; objects = objects'; iterations = s.iterations + 1 },
      )

  -- The loop of `_sleep_budget`; `clock i` is what the clock reads for the i-th check.
  unfoldable pub soonest_due : (ℕ → ℤ) → ℕ → List (Check T T) → T → ℤ → ℤ
  soonest_due clock i [] objects soonest = soonest
  soonest_due clock i (k ∷ rest) objects soonest =
      soonest_due clock (suc i) rest objects
        (min_ℤ soonest (seconds_until_due (k.base objects).timer (clock i) none))

  -- `_sleep_budget`
  unfoldable pub sleep_budget : (ℕ → ℤ) → HealthMonitorService T → ℤ
  unfolding soonest_due
  sleep_budget clock s =
      max_ℤ (pos 0) (
        min_ℤ (soonest_due clock 0 s.checks s.objects s.config.loop_period_s)
          s.config.loop_period_s)

  -- `{c.check_id: c.stats.as_payload() for c in self._checks}`, after the entries made so far
  unfoldable pub all_stats : List (Check T T) → T → Dict Value → Dict Value
  unfolding stats_payload
  all_stats [] objects made = made
  all_stats (k ∷ rest) objects made =
      all_stats rest objects
        (put k.check_id (dict (as_fields (stats_payload (k.base objects).stats))) made)

  -- `publish_status`; `clock` is the reading of the clock
  unfoldable pub publish_status : ℤ → ℤ → HealthMonitorService T → HealthMonitorService T
  unfolding all_stats round_to
  publish_status clock uptime s = record s {
    bus = publish s.bus (record {
      topic = status_topic;
      payload =
          ("version", str version)
          ∷ ("instance", str s.config.instance_id)
          ∷ ("uptime_s", float (round_to 3 uptime))
          ∷ ("iterations", int (pos s.iterations))
          ∷ ("checks", dict (as_fields (all_stats s.checks s.objects [])))
          ∷ (
            "bus",
            dict (
                as_fields (
                  ("published", int (pos s.bus.published))
                  ∷ ("delivered", int (pos s.bus.delivered))
                  ∷ ("dropped", int (pos s.bus.dropped))
                  ∷ [])),
          )
          ∷ [];
      source = s.config.service_name;
      monotonic_ts = clock;
    });
  }
