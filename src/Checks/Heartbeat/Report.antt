-- ===== src/Checks/Heartbeat/Report.antt =====
-- What heartbeat.py reports: `_evaluate_peer` with the loop over the peers, and `_evaluate_quorum`.
use ca1_health_monitor.Prelude.{
  ℕ, suc, ◌+◌, ℤ, pos, leb_ℤ, String, Bool, true, false, not, Option, none, some, List, [], ◌∷◌,
  if◌then◌else◌, length,
}
use ca1_health_monitor.Prelude.Dict.{Dict, get}
use ca1_health_monitor.Prelude.Text.{concat}
use ca1_health_monitor.Prelude.Text.Format.{round_to, fixed, show_ℕ, show_ℤ}
use ca1_health_monitor.Common.Timer.{TimerTick, poll}
use ca1_health_monitor.Common.Types.{
  int, float, Payload, HealthState, ok, fault, same_state, CheckResult,
}
use ca1_health_monitor.Checks.Base.{result}
use ca1_health_monitor.Checks.Heartbeat.{check_id, quorum_subject, PeerRecord, HeartbeatCheck}

-- `peer_tick.time_since_refresh or 0.0`
abbrev pub silent_for : Option ℤ → ℤ
silent_for none = pos 0
silent_for (some gap) = gap

peer_metrics : ℤ → PeerRecord → Payload
unfolding round_to
peer_metrics gap r =
    ("silent_for_s", float (round_to 3 gap))
    ∷ ("losses", int (pos r.losses))
    ∷ ("refreshes", int (pos r.refreshes))
    ∷ []

-- The results for a peer that is back and for one that is lost.
unfoldable pub restored : PeerRecord → TimerTick → CheckResult
unfolding result peer_metrics
restored r tick =
    result check_id ok "peer heartbeat restored" r.name tick.now
      (peer_metrics (silent_for tick.time_since_refresh) r)

unfoldable pub lost : PeerRecord → TimerTick → CheckResult
unfolding result peer_metrics
lost r tick =
    let gap = silent_for tick.time_since_refresh in
    result check_id fault (concat ("no heartbeat for " ∷ fixed 2 gap ∷ " s" ∷ [])) r.name tick.now
      (peer_metrics gap r)

-- `_evaluate_peer`, by whether the peer was live and is live.
abbrev pub transition : Bool → Bool → PeerRecord → TimerTick → Option CheckResult × PeerRecord
transition true true r tick = (none, r)
transition false false r tick = (none, r)
transition false true r tick = (some (restored r tick), r)
transition true false r tick =
    let r' = record r { losses = r.losses + 1 } in (some (lost r' tick), r')

unfoldable pub evaluate_peer : PeerRecord → TimerTick → Option CheckResult × PeerRecord
evaluate_peer r tick =
    let live = not tick.expired in transition r.live live (record r { live = live }) tick

abbrev pub add_result : Option CheckResult → List CheckResult → List CheckResult
add_result none rest = rest
add_result (some r) rest = r ∷ rest

-- The loop of `on_tick` over the peers.
unfoldable pub evaluate_peers : ℤ → Dict PeerRecord → List CheckResult × Dict PeerRecord
evaluate_peers now [] = ([], [])
evaluate_peers now ((k, r) ∷ rest) =
    let (found, r') = evaluate_peer r (poll r.timer now (some now)) in
    let (later, rest') = evaluate_peers now rest in (add_result found later, (k, r') ∷ rest')

-- `sum(1 for record in self._peers.values() if record.live)`
unfoldable pub count_live : Dict PeerRecord → ℕ
count_live [] = 0
count_live ((k, r) ∷ rest) = let n = count_live rest in if r.live then suc n else n

abbrev pub quorum_state : ℕ → ℤ → HealthState
quorum_state live required = if leb_ℤ required (pos live) then ok else fault

quorum_detail : HealthState → ℕ → ℤ → String
quorum_detail ok live required = "peer quorum satisfied"
quorum_detail _ live required =
    concat ("only " ∷ show_ℕ live ∷ " of " ∷ show_ℤ required ∷ " required peers live" ∷ [])

-- `previous is state`
abbrev pub is_same : Option HealthState → HealthState → Bool
is_same none state = false
is_same (some previous) state = same_state previous state

unfoldable pub quorum_result : HeartbeatCheck → ℤ → CheckResult
unfolding result quorum_detail
quorum_result c now =
    let live = count_live c.peers in
    let required = c.config.quorum_min_live in
    let state = quorum_state live required in
    result check_id state (quorum_detail state live required) quorum_subject now (
      ("live_peers", int (pos live))
      ∷ ("required_peers", int required)
      ∷ ("configured_peers", int (pos (length c.peers)))
      ∷ [])

-- `_evaluate_quorum`
unfoldable pub evaluate_quorum : HeartbeatCheck → ℤ → Option CheckResult
evaluate_quorum c now =
    let state = quorum_state (count_live c.peers) c.config.quorum_min_live in
    if is_same (get quorum_subject c.base.last_published) state
    then none
    else some (quorum_result c now)
