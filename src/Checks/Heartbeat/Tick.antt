-- ===== src/Checks/Heartbeat/Tick.antt =====
-- A tick of heartbeat.py: `_emit` and `on_tick`, and the check as an instance of the interface.
use ca1_health_monitor.Prelude.{
  ◌+◌, ℤ, pos, String, some, List, [], ◌∷◌, ◌++◌, refl, Result, returned, if◌then◌else◌,
}
use ca1_health_monitor.Prelude.Text.{concat}
use ca1_health_monitor.Common.Timer.{TimerTick, mark_serviced}
use ca1_health_monitor.Common.Types.{Exception, int, float, str, CheckResult}
use ca1_health_monitor.Bus.{Message, MessageBus, publish}
use ca1_health_monitor.Checks.Base.{Check}
use ca1_health_monitor.Checks.Heartbeat.{check_id, peer_topic_prefix, HeartbeatCheck}
use ca1_health_monitor.Checks.Heartbeat.Report.{add_result, evaluate_peers, evaluate_quorum}

abbrev pub self_name : String
self_name = "health-monitor"

-- The message that `_emit` publishes, when it has counted itself.
abbrev pub beacon : HeartbeatCheck → ℤ → Message
beacon c now = record {
  topic = concat (peer_topic_prefix ∷ "." ∷ self_name ∷ []);
  payload =
      ("instance", str c.instance_id)
      ∷ ("sequence", int (pos c.sequence))
      ∷ ("emit_period_s", float c.config.emit_period_s)
      ∷ [];
  source = check_id;
  monotonic_ts = now;
}

-- `_emit`
unfoldable pub emit :
    {S : Type 0} → HeartbeatCheck → MessageBus S → ℤ → HeartbeatCheck × MessageBus S
emit c bus now =
    let c' = record c { sequence = c.sequence + 1 } in (c', publish bus (beacon c' now))

module _ {S : Type 0} where
  -- The first `if` of `on_tick`.
  unfoldable pub emit_if_due :
      TimerTick → HeartbeatCheck → MessageBus S → HeartbeatCheck × MessageBus S
  unfolding emit
  emit_if_due tick c bus =
      if tick.due
      then (let (c', bus') = emit c bus tick.now in
          (
            record c' {
              base = record c'.base {
                timer = mark_serviced c'.base.timer tick.now (some tick.now);
              };
            },
            bus',
          ))
      else (c, bus)

  -- `on_tick`; nothing in it raises
  unfoldable pub on_tick :
      TimerTick
      → HeartbeatCheck
      → MessageBus S
      → Result Exception (List CheckResult) × HeartbeatCheck × MessageBus S
  on_tick tick c bus =
      let (c', bus') = emit_if_due tick c bus in
      let (results, peers) = evaluate_peers tick.now c'.peers in
      let c'' = record c' { peers = peers } in
      (returned (results ++ add_result (evaluate_quorum c'' tick.now) []), c'', bus')

  abbrev pub check : Check S HeartbeatCheck
  check = record {
    check_id = check_id;
    base = λ c. c.base;
    with_base = λ c b. record c { base = b };
    on_tick = on_tick;
    base-with_base = λ c b. refl;
  }
