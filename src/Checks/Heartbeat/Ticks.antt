-- ===== src/Checks/Heartbeat/Ticks.antt =====
-- A call of `service` on the check of heartbeat.py: our own heartbeat, and what is said of the peers.
use ca1_health_monitor.Prelude.{
  ◌+◌, ℤ, true, false, Option, none, some, List, [], ◌∷◌, ◌++◌, ◌≡◌, ◌⊎◌, refl, arith, inl, inr,
  Bool-cases, All, ap, sym, ◌∙◌,
}
use ca1_health_monitor.Prelude.Dict.{Dict, get}
use ca1_health_monitor.Common.Timer.{TimerTick, reading, poll, mark_serviced}
use ca1_health_monitor.Common.Types.{CheckResult}
use ca1_health_monitor.Bus.{MessageBus, publish}
use ca1_health_monitor.Checks.Base.{service}
use ca1_health_monitor.Checks.Base.Service.{
  service-returned, after_results, publish_each, messages, service_publishes,
}
use ca1_health_monitor.Checks.Heartbeat.{PeerRecord, HeartbeatCheck, check_id, quorum_subject}
use ca1_health_monitor.Checks.Heartbeat.Tick.{beacon, emit_if_due, check}
use ca1_health_monitor.Checks.Heartbeat.Report.{
  evaluate_peers, add_result, count_live, quorum_state, evaluate_quorum,
}
use ca1_health_monitor.Checks.Heartbeat.Peers.{
  HasWindow, lives, heard, announced, summary, evaluate_peers_lem,
}
use ca1_health_monitor.Checks.Heartbeat.Quorum.{
  count_true, count_live-lives, evaluate_quorum_lem, emit_if_due_keeps, evaluated, tick_results,
  on_tick_lem,
}

announced-steady :
    (window now : ℤ) (peers : Dict PeerRecord)
    → lives peers ≡ heard window now peers
    → announced window now peers ≡ []
unfolding announced
announced-steady window now [] e = refl
announced-steady window now ((k, r) ∷ rest) e = ground (arith, announced-steady window now rest)

summary-nil : (results : List CheckResult) → summary results ≡ [] → results ≡ []
summary-nil [] e = refl
summary-nil (r ∷ rest) e = cc

emit_if_due_lem :
    {S : Type 0} (tick : TimerTick) (c : HeartbeatCheck) (bus : MessageBus S)
    → let (c', bus') = emit_if_due tick c bus in
      ((tick.due ≡ true)
        × (c'.sequence ≡ c.sequence + 1)
        × (c'.base.timer ≡ mark_serviced c.base.timer tick.now (some tick.now))
        × (bus' ≡ publish bus (beacon (record c { sequence = c.sequence + 1 }) tick.now)))
      ⊎ ((tick.due ≡ false)
          × (c'.sequence ≡ c.sequence)
          × (c'.base.timer ≡ c.base.timer)
          × (bus' ≡ bus))
unfolding emit_if_due
emit_if_due_lem tick c bus = elim (Bool-cases tick.due) [
  | inl y ↦ rw y (inl (refl, refl, refl, refl))
  | inr n ↦ rw n (inr (refl, refl, refl, refl))
]

quorum_unsaid :
    (c : HeartbeatCheck) (now : ℤ)
    → get quorum_subject c.base.last_published
      ≡ some (quorum_state (count_live c.peers) c.config.quorum_min_live)
    → evaluate_quorum c now ≡ none
quorum_unsaid c now h = elim (evaluate_quorum_lem c now) [
  | inl (_, e) ↦ e
  | inr (d, _) ↦ absurd (d h)
]

module _ {S : Type 0} (clock : ℤ) (now : Option ℤ) (c : HeartbeatCheck) (bus : MessageBus S) where
  abbrev tick : TimerTick
  tick = poll c.base.timer clock now

  pub returned_by_service : service check clock now c bus ≡ (
    tick_results tick c bus,
    record (evaluated tick c bus) {
      base =
          after_results check clock now c bus (tick_results tick c bus) (evaluated tick c bus).base;
    },
    publish_each (emit_if_due tick c bus).1 (messages check_id (tick_results tick c bus)),
  )
  returned_by_service =
      service-returned check clock now c bus (tick_results tick c bus) (evaluated tick c bus)
        (emit_if_due tick c bus).1 (on_tick_lem tick c bus)

  timer_by_service :
      (service check clock now c bus).1.base.timer ≡ (emit_if_due tick c bus).0.base.timer
  timer_by_service =
      (service_publishes check clock now c bus (tick_results tick c bus) (evaluated tick c bus)
        (emit_if_due tick c bus).1 (on_tick_lem tick c bus)).2

  -- Our heartbeat is published once for each slot that is due, before the results of the tick, under
  -- the next number, and the slot is acknowledged; when none is due only the results are published.
  pub service_emits :
      let at = reading clock now in
      let (results, c', bus') = service check clock now c bus in
      let numbered = record c { sequence = c.sequence + 1 } in
      (((poll c.base.timer clock now).due ≡ true)
        × (c'.sequence ≡ c.sequence + 1)
        × (c'.base.timer ≡ mark_serviced c.base.timer at (some at))
        × (bus' ≡ publish_each (publish bus (beacon numbered at)) (messages check_id results)))
      ⊎ (((poll c.base.timer clock now).due ≡ false)
          × (c'.sequence ≡ c.sequence)
          × (c'.base.timer ≡ c.base.timer)
          × (bus' ≡ publish_each bus (messages check_id results)))
  unfolding poll
  service_emits =
      let results = tick_results tick c bus in
      let sequence = ap (λ t. t.1.sequence) returned_by_service in
      let out = ap (λ t. messages check_id t.0) (sym returned_by_service) in
      let sent =
        ap (λ t. t.2) returned_by_service ∙ ap (publish_each (emit_if_due tick c bus).1) out in
      elim (emit_if_due_lem tick c bus) [
        | inl (due, n, timer, bus') ↦ inl (
          due,
          sequence ∙ n,
          timer_by_service ∙ timer,
          sent
              ∙ ap (λ b. publish_each b (messages check_id (service check clock now c bus).0)) bus',
        )
        | inr (idle, n, timer, bus') ↦ inr (
          idle,
          sequence ∙ n,
          timer_by_service ∙ timer,
          sent
              ∙ ap (λ b. publish_each b (messages check_id (service check clock now c bus).0)) bus',
        )
      ]

  -- With one window for all peers, a call of `service` reports nothing while no peer changes
  -- between live and lost and the state of the quorum is the one last published.
  pub service_silent :
      (window : ℤ)
      → All (HasWindow window) c.peers
      → let at = reading clock now in
        lives c.peers ≡ heard window at c.peers
        → get quorum_subject c.base.last_published
          ≡ some (quorum_state (count_true (lives c.peers)) c.config.quorum_min_live)
        → (service check clock now c bus).0 ≡ []
  unfolding poll
  service_silent window w e q =
      let at = reading clock now in
      let (peers, config, published) = emit_if_due_keeps tick c bus in
      let (live, said) = evaluate_peers_lem window at c.peers w in
      let quiet = summary-nil _ (said ∙ announced-steady window at c.peers e) in
      let still : get quorum_subject (evaluated tick c bus).base.last_published
          ≡ some (
              quorum_state (count_live (evaluated tick c bus).peers)
                (evaluated tick c bus).config.quorum_min_live) =
        rw (published, peers, config, count_live-lives, live) (rw (← e) q) in
      ap (λ t. t.0) returned_by_service
      ∙ ap (λ q. (evaluate_peers at (emit_if_due tick c bus).0.peers).0 ++ add_result q [])
          (quorum_unsaid (evaluated tick c bus) at still)
      ∙ rw (peers, quiet)
