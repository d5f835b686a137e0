-- ===== src/Checks/Base.antt =====
-- src/health_monitor/checks/base.py: the class `PeriodicCheck`. A check is the interface `Check`: its
-- own state with the base class's part in it, and its `on_tick`.
pub mod Service
pub mod Tests
use ca1_health_monitor.Prelude.{
  ℕ, ℤ, pos, String, Bool, Option, none, some, List, [], ◌∷◌, ◌≡◌, Result, raised, returned,
}
use ca1_health_monitor.Prelude.Dict.{Dict, put}
use ca1_health_monitor.Common.Timer.{IntervalTimer, TimerTick, poll, mark_serviced}
use ca1_health_monitor.Common.Types.{
  Payload, Exception, HealthState, CheckResult, CheckStats, no_stats, topic, result_payload,
  record_run,
}
use ca1_health_monitor.Bus.{Message, MessageBus, publish}

pub record PeriodicCheck : Type 0 where
  pub timer : IntervalTimer
  pub stats : CheckStats
  pub last_published : Dict HealthState

-- `PeriodicCheck.__init__`
unfoldable pub new : IntervalTimer → PeriodicCheck
new timer = record { timer = timer; stats = no_stats; last_published = [] }

-- A subclass: where its state `C` keeps the base class's part, and what it does with a tick. It may
-- publish by itself, and may raise after it has changed its state.
pub record Check (S C : Type 0) : Type 0 where
  pub check_id : String
  pub base : C → PeriodicCheck
  pub with_base : C → PeriodicCheck → C
  pub on_tick :
      TimerTick → C → MessageBus S → Result Exception (List CheckResult) × C × MessageBus S
  pub base-with_base : (c : C) (b : PeriodicCheck) → base (with_base c b) ≡ b

-- `PeriodicCheck.result`, where its caller gives `monotonic_ts`
unfoldable pub result : String → HealthState → String → String → ℤ → Payload → CheckResult
result check_id state detail subject monotonic_ts metrics = record {
  check = check_id;
  state = state;
  subject = subject;
  detail = detail;
  metrics = metrics;
  monotonic_ts = monotonic_ts;
}

-- The message in which a result is published.
abbrev pub result_message : String → CheckResult → Message
result_message check_id r = record {
  topic = topic r;
  payload = result_payload r;
  source = check_id;
  monotonic_ts = r.monotonic_ts;
}

-- What `service` does after the loop.
unfoldable pub count_skipped : TimerTick → List CheckResult → PeriodicCheck → PeriodicCheck
count_skipped tick [] b = record b { stats = record_run b.stats none tick.missed_slots }
count_skipped tick (r ∷ rest) b = b

module _ {S : Type 0} where
  -- `_publish`; the record of a transition goes to the log alone
  unfoldable pub publish_result :
      String → PeriodicCheck → MessageBus S → CheckResult → PeriodicCheck × MessageBus S
  publish_result check_id b bus r = (
    record b { last_published = put r.subject r.state b.last_published },
    publish bus (result_message check_id r),
  )

  -- The loop over the results in `service`.
  unfoldable pub publish_all :
      String → PeriodicCheck → MessageBus S → List CheckResult → PeriodicCheck × MessageBus S
  unfolding publish_result
  publish_all check_id b bus [] = (b, bus)
  publish_all check_id b bus (r ∷ rest) =
      let (b', bus') = publish_result check_id b bus r in
      publish_all check_id (record b' { stats = record_run b'.stats (some r) (pos 0) }) bus' rest

  module _ {C : Type 0} (k : Check S C) where
    -- The `except` clause of `service`, and what follows the `try` statement.
    unfoldable pub finish :
        TimerTick
        → Result Exception (List CheckResult)
        → C
        → MessageBus S
        → List CheckResult × C × MessageBus S
    unfolding publish_all
    finish tick (raised e) c bus =
        let b = k.base c in
        (
          [],
          k.with_base c (record b { timer = mark_serviced b.timer tick.now (some tick.now) }),
          bus,
        )
    finish tick (returned results) c bus =
        let (b, bus') = publish_all k.check_id (k.base c) bus results in
        (results, k.with_base c (count_skipped tick results b), bus')

    -- `service(now)`; `clock` is what the timer's clock reads in `poll`
    unfoldable pub service : ℤ → Option ℤ → C → MessageBus S → List CheckResult × C × MessageBus S
    unfolding finish
    service clock now c bus =
        let tick = poll (k.base c).timer clock now in
        let (outcome, c', bus') = k.on_tick tick c bus in finish tick outcome c' bus'
