-- ===== src/Checks/Heartbeat/Operation.antt =====
-- Everything that a call of `service` on the check of heartbeat.py reports, whatever came before.
use ca1_health_monitor.Prelude.{
  leb_ℤ, ◌+ℤ◌, ℤ, String, Option, some, List, [], ◌∷◌, ◌++◌, ◌≡◌, ◌≢◌, refl, inl, inr, Bool-cases,
  All, All-map, All-Mem, if◌then◌else◌, ap, ap₂, sym, ◌∙◌,
}
use ca1_health_monitor.Prelude.Dict.{get, All-get}
use ca1_health_monitor.Common.Timer.{reading, poll}
use ca1_health_monitor.Common.Types.{HealthState, CheckResult}
use ca1_health_monitor.Bus.{MessageBus}
use ca1_health_monitor.Config.{HeartbeatCheckConfig}
use ca1_health_monitor.Checks.Base.{service, result}
use ca1_health_monitor.Checks.Heartbeat.{PeerRecord, HeartbeatCheck, quorum_subject}
use ca1_health_monitor.Checks.Heartbeat.Report.{
  evaluate_peer, evaluate_peers, add_result, count_live, quorum_state, is_same, quorum_result,
  evaluate_quorum,
}
use ca1_health_monitor.Checks.Heartbeat.Tick.{emit_if_due, check}
use ca1_health_monitor.Checks.Heartbeat.Peers.{
  HasWindow, lives, heard, announced, summary, evaluate_peers_lem, live-evaluate_peer,
  get-evaluate_peers,
}
use ca1_health_monitor.Checks.Heartbeat.Quorum.{
  count_true, count_live-lives, IsPeerName, emit_if_due_keeps, evaluated, service_quorum,
}
use ca1_health_monitor.Checks.Heartbeat.Registered.{IsWatched, IsWatching}
use ca1_health_monitor.Checks.Heartbeat.Contact.{Contact, Tracks}
use ca1_health_monitor.Checks.Heartbeat.Ticks.{returned_by_service}

-- What must be said of the quorum: its state, if that is not the one last published.
abbrev pub quorum_change : Option HealthState → HealthState → List (String × HealthState)
quorum_change previous state = if is_same previous state then [] else (quorum_subject, state) ∷ []

summary-append : (xs ys : List CheckResult) → summary (xs ++ ys) ≡ summary xs ++ summary ys
summary-append [] ys = refl
summary-append (x ∷ xs) ys = ap (λ l. (x.subject, x.state) ∷ l) (summary-append xs ys)

summary-evaluate_quorum :
    (c : HeartbeatCheck) (now : ℤ)
    → summary (add_result (evaluate_quorum c now) [])
      ≡ quorum_change
          (get quorum_subject c.base.last_published)
          (quorum_state (count_live c.peers) c.config.quorum_min_live)
unfolding evaluate_quorum quorum_result result
summary-evaluate_quorum c now =
    let state = quorum_state (count_live c.peers) c.config.quorum_min_live in
    elim (Bool-cases (is_same (get quorum_subject c.base.last_published) state)) [
      | inl y ↦ rw y refl
      | inr n ↦ rw n refl
    ]

windows :
    (config : HeartbeatCheckConfig) (c : HeartbeatCheck)
    → IsWatching config c
    → All (HasWindow config.peer_timeout_s) c.peers
windows config c v = All-map c.peers (λ entry w. w.window) v.watched

peer_names :
    (config : HeartbeatCheckConfig) (c : HeartbeatCheck)
    → IsWatching config c
    → All (λ n. n ≢ quorum_subject) config.peers
    → All IsPeerName c.peers
peer_names config c v h =
    All-map c.peers
      (λ entry w e.
        All-Mem (λ n. n ≢ quorum_subject) entry.0 config.peers h w.member (sym w.named ∙ e))
      v.watched

-- A call of `service` on a check that watches its peers as configured, none of which takes the
-- subject of the quorum: after it each peer is live exactly if it has been heard within the
-- configured time; the results are one for each peer that this changes, in the peers' order, and
-- then the state of the quorum if it is not the one last published; and the state last published
-- for the quorum is then the one that the number of peers heard calls for.
pub service-IsComplete :
    {S : Type 0} (config : HeartbeatCheckConfig) (clock : ℤ) (now : Option ℤ) (c : HeartbeatCheck)
    (bus : MessageBus S)
    → IsWatching config c
    → All (λ n. n ≢ quorum_subject) config.peers
    → let at = reading clock now in
      let (results, c', _) = service check clock now c bus in
      let on_time = heard config.peer_timeout_s at c.peers in
      let state = quorum_state (count_true on_time) config.quorum_min_live in
      (lives c'.peers ≡ on_time)
      × (summary results
          ≡ announced config.peer_timeout_s at c.peers
            ++ quorum_change (get quorum_subject c.base.last_published) state)
      × (get quorum_subject c'.base.last_published ≡ some state)
unfolding poll
service-IsComplete config clock now c bus v names =
    let at = reading clock now in
    let tick = poll c.base.timer clock now in
    let (peers, same_config, published) = emit_if_due_keeps tick c bus in
    let (live, said) = evaluate_peers_lem config.peer_timeout_s at c.peers (windows config c v) in
    let back = returned_by_service clock now c bus in
    let c' = evaluated tick c bus in
    let on_time = heard config.peer_timeout_s at c.peers in
    let first : summary (evaluate_peers at (emit_if_due tick c bus).0.peers).0
        ≡ announced config.peer_timeout_s at c.peers =
      rw peers said in
    let last : quorum_change (get quorum_subject c'.base.last_published)
          (quorum_state (count_live c'.peers) c'.config.quorum_min_live)
        ≡ quorum_change (get quorum_subject c.base.last_published)
            (quorum_state (count_true on_time) config.quorum_min_live) =
      rw (peers, same_config, published, count_live-lives, live, v.configured) refl in
    (
      ap (λ t. lives t.1.peers) back ∙ rw peers live,
      ap (λ t. summary t.0) back
          ∙ summary-append (evaluate_peers at (emit_if_due tick c bus).0.peers).0
              (add_result (evaluate_quorum c' at) [])
          ∙ ap₂ ◌++◌ first (summary-evaluate_quorum c' at ∙ last),
      service_quorum config.peer_timeout_s clock now c bus (windows config c v)
            (peer_names config c v names)
          ∙ rw v.configured refl,
    )

-- After a call of `service` a peer is live exactly if its contact is within the configured time.
pub service-live :
    {S : Type 0} (config : HeartbeatCheckConfig) (clock : ℤ) (now : Option ℤ) (c : HeartbeatCheck)
    (bus : MessageBus S) (name : String) (last : Contact)
    → IsWatching config c
    → Tracks name last c
    → (r : PeerRecord) × (get name (service check clock now c bus).1.peers ≡ some r)
      × (r.live ≡ leb_ℤ (reading clock now) (last.at +ℤ config.peer_timeout_s))
unfolding poll
service-live config clock now c bus name last v (r, e, same) =
    let at = reading clock now in
    let tick = poll c.base.timer clock now in
    let (peers, _, _) = emit_if_due_keeps tick c bus in
    let window = (All-get (IsWatched config) name r c.peers v.watched e).window in
    (
      (evaluate_peer r (poll r.timer at (some at))).1,
      ap (λ t. get name t.1.peers) (returned_by_service clock now c bus)
          ∙ rw peers (get-evaluate_peers at name r c.peers e),
      live-evaluate_peer r config.peer_timeout_s at window
          ∙ ap (λ k. leb_ℤ at (k.at +ℤ config.peer_timeout_s)) same,
    )
