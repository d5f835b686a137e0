-- ===== src/Checks/Heartbeat/Quorum.antt =====
-- The quorum of heartbeat.py: how many peers are live, and what is published of it.
use ca1_health_monitor.Prelude.{
  ℕ, suc, ℤ, String, Bool, true, Option, none, some, List, [], ◌∷◌, ◌++◌, ◌≡◌, ◌↔◌, ◌⊎◌, ◌≢◌, refl,
  arith, inl, inr, Bool-cases, All, returned, if◌then◌else◌, ap, sym, ◌∙◌,
}
use mathlib.Core.Bool.{false≢true}
use ca1_health_monitor.Prelude.Dict.{Dict, get, get-put_self}
use ca1_health_monitor.Common.Timer.{TimerTick, reading, poll}
use ca1_health_monitor.Common.Types.{HealthState, same_state, CheckResult}
use ca1_health_monitor.Bus.{MessageBus}
use ca1_health_monitor.Checks.Base.{service, result}
use ca1_health_monitor.Checks.Base.Service.{
  published_states, published_states-append, published_states-other, service_publishes,
}
use ca1_health_monitor.Checks.Heartbeat.{PeerRecord, HeartbeatCheck, quorum_subject}
use ca1_health_monitor.Checks.Heartbeat.Report.{
  evaluate_peer, evaluate_peers, add_result, count_live, quorum_state, is_same, quorum_result,
  evaluate_quorum, restored, lost,
}
use ca1_health_monitor.Checks.Heartbeat.Tick.{emit_if_due, on_tick, check}
use ca1_health_monitor.Checks.Heartbeat.Peers.{HasWindow, lives, heard, evaluate_peers_lem}

abbrev pub count_true : List Bool → ℕ
count_true [] = 0
count_true (b ∷ rest) = let n = count_true rest in if b then suc n else n

pub count_live-lives : (peers : Dict PeerRecord) → count_live peers ≡ count_true (lives peers)
unfolding count_live
count_live-lives [] = refl
count_live-lives ((k, r) ∷ rest) = rw (count_live-lives rest)

pub same_state_iff : (a b : HealthState) → (same_state a b ≡ true) ↔ (a ≡ b)
unfolding same_state
same_state_iff a b = ground arith

is_same_iff :
    (previous : Option HealthState) (state : HealthState)
    → (is_same previous state ≡ true) ↔ (previous ≡ some state)
is_same_iff none state = ground arith
is_same_iff (some p) state = ground (arith, same_state_iff p state)

-- A quorum result is published exactly if its state is not the one last published.
pub evaluate_quorum_lem :
    (c : HeartbeatCheck) (now : ℤ)
    → let state = quorum_state (count_live c.peers) c.config.quorum_min_live in
      let previous = get quorum_subject c.base.last_published in
      ((previous ≡ some state) × (evaluate_quorum c now ≡ none))
      ⊎ ((previous ≢ some state) × (evaluate_quorum c now ≡ some (quorum_result c now)))
unfolding evaluate_quorum
evaluate_quorum_lem c now =
    let state = quorum_state (count_live c.peers) c.config.quorum_min_live in
    let previous = get quorum_subject c.base.last_published in
    let iff = is_same_iff previous state in
    elim (Bool-cases (is_same previous state)) [
      | inl same ↦ inl (iff.0 same, rw same)
      | inr other ↦ inr ((λ e. false≢true (sym other ∙ iff.1 e)), rw other)
    ]

-- No peer has the subject of the quorum for its name.
abbrev pub IsPeerName : String × PeerRecord → Type 0
IsPeerName (k, r) = r.name ≢ quorum_subject

peer_subjects :
    (now : ℤ) (peers : Dict PeerRecord)
    → All IsPeerName peers
    → All (λ r. r.subject ≢ quorum_subject) (evaluate_peers now peers).0
unfolding evaluate_peers evaluate_peer restored lost result
peer_subjects now [] h = tt
peer_subjects now ((k, r) ∷ rest) h = ground (arith, peer_subjects now rest h.1, h.0)

pub emit_if_due_keeps :
    {S : Type 0} (tick : TimerTick) (c : HeartbeatCheck) (bus : MessageBus S)
    → let (c', _) = emit_if_due tick c bus in
      (c'.peers ≡ c.peers)
      × (c'.config ≡ c.config)
      × (c'.base.last_published ≡ c.base.last_published)
unfolding emit_if_due
emit_if_due_keeps tick c bus = ground arith

published_quorum :
    (c : HeartbeatCheck) (now : ℤ) (results : List CheckResult)
    → All (λ r. r.subject ≢ quorum_subject) results
    → get quorum_subject
        (published_states c.base.last_published (results ++ add_result (evaluate_quorum c now) []))
      ≡ some (quorum_state (count_live c.peers) c.config.quorum_min_live)
unfolding published_states quorum_result result
published_quorum c now results h =
    let d = c.base.last_published in
    let others = published_states-other quorum_subject d results h in
    rw published_states-append (elim (evaluate_quorum_lem c now) [
      | inl (same, none_said) ↦ rw none_said (others ∙ same)
      | inr (_, said) ↦ rw said (
          get-put_self quorum_subject (quorum_state (count_live c.peers) c.config.quorum_min_live)
            (published_states d results))
    ])

-- The check when its peers have been evaluated.
abbrev pub evaluated : {S : Type 0} → TimerTick → HeartbeatCheck → MessageBus S → HeartbeatCheck
evaluated tick c bus =
    let (c', _) = emit_if_due tick c bus in
    record c' { peers = (evaluate_peers tick.now c'.peers).1 }

-- What `on_tick` returns.
abbrev pub tick_results :
    {S : Type 0} → TimerTick → HeartbeatCheck → MessageBus S → List CheckResult
tick_results tick c bus =
    let (c', _) = emit_if_due tick c bus in
    (evaluate_peers tick.now c'.peers).0
    ++ add_result (evaluate_quorum (evaluated tick c bus) tick.now) []

pub on_tick_lem :
    {S : Type 0} (tick : TimerTick) (c : HeartbeatCheck) (bus : MessageBus S)
    → on_tick tick c bus
      ≡ (returned (tick_results tick c bus), evaluated tick c bus, (emit_if_due tick c bus).1)
unfolding on_tick
on_tick_lem tick c bus = refl

-- After every call of `service` the state last published for the quorum is the one that the number
-- of peers heard within their window calls for, if no peer takes the subject of the quorum.
pub service_quorum :
    {S : Type 0} (window clock : ℤ) (now : Option ℤ) (c : HeartbeatCheck) (bus : MessageBus S)
    → All (HasWindow window) c.peers
    → All IsPeerName c.peers
    → let at = reading clock now in
      get quorum_subject (service check clock now c bus).1.base.last_published
      ≡ some (quorum_state (count_true (heard window at c.peers)) c.config.quorum_min_live)
unfolding poll
service_quorum window clock now c bus w n =
    let tick = poll c.base.timer clock now in
    let (peers, config, _) = emit_if_due_keeps tick c bus in
    let c' = evaluated tick c bus in
    let results = (evaluate_peers tick.now (emit_if_due tick c bus).0.peers).0 in
    let published =
      service_publishes check clock now c bus (tick_results tick c bus) c'
        (emit_if_due tick c bus).1 (on_tick_lem tick c bus) in
    ap (get quorum_subject) published.3
    ∙ published_quorum c' tick.now results (rw peers (peer_subjects tick.now c.peers n))
    ∙ rw (peers, config, count_live-lives, (evaluate_peers_lem window tick.now c.peers w).0)
