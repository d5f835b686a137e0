-- ===== src/Checks/Heartbeat/Watch.antt =====
-- The invariant of the check of heartbeat.py, from its construction over any messages and ticks.
use ca1_health_monitor.Prelude.{
  ℤ, String, Option, none, some, [], ◌∷◌, ◌≡◌, refl, inl, inr, Bool-cases, All, All-map, Result,
  raised, returned, ap, ◌∙◌,
}
use ca1_health_monitor.Prelude.Dict.{
  Dict, get, All-get, All-put, IsPresent, put-IsPresent, Distinct, put-Distinct,
}
use ca1_health_monitor.Prelude.Text.{after_last_dot}
use ca1_health_monitor.Common.Timer.{refresh, poll}
use ca1_health_monitor.Common.Types.{Exception, to_int}
use ca1_health_monitor.Bus.{Message, MessageBus}
use ca1_health_monitor.Config.{HeartbeatCheckConfig}
use ca1_health_monitor.Checks.Base.{service}
use ca1_health_monitor.Checks.Base.Service.{service-returned}
use ca1_health_monitor.Checks.Heartbeat.{PeerRecord, HeartbeatCheck}
use ca1_health_monitor.Checks.Heartbeat.Receive.{
  is_stale, receive, with_sequence, with_peer, sequence_value, on_peer_heartbeat,
}
use ca1_health_monitor.Checks.Heartbeat.Report.{evaluate_peer, evaluate_peers}
use ca1_health_monitor.Checks.Heartbeat.Tick.{emit_if_due, check}
use ca1_health_monitor.Checks.Heartbeat.Peers.{
  evaluate_peer-KeepsContact, get-evaluate_peers, get-evaluate_peers-none,
}
use ca1_health_monitor.Checks.Heartbeat.Quorum.{
  emit_if_due_keeps, evaluated, tick_results, on_tick_lem,
}
use ca1_health_monitor.Checks.Heartbeat.Registered.{IsWatched, IsWatching}

module _ (config : HeartbeatCheckConfig) where
  receive-IsWatched :
      (clock sequence : ℤ) (k : String) (r : PeerRecord)
      → IsWatched config (k, r)
      → IsWatched config (k, receive clock sequence r)
  unfolding receive refresh
  receive-IsWatched clock sequence k r w = elim (Bool-cases (is_stale sequence r)) [
    | inl y ↦ rw y w
    | inr n ↦
        rw n (record { named = w.named; member = w.member; period = w.period; window = w.window })
  ]

  evaluate_peers-watched :
      (now : ℤ) (peers : Dict PeerRecord)
      → All (IsWatched config) peers
      → All (IsWatched config) (evaluate_peers now peers).1
  unfolding evaluate_peers
  evaluate_peers-watched now [] h = tt
  evaluate_peers-watched now ((k, r) ∷ rest) h =
      let kept = evaluate_peer-KeepsContact r (poll r.timer now (some now)) in
      (
        record {
          named = kept.name ∙ h.0.named;
          member = h.0.member;
          period = ap (λ t. t.period_s) kept.timer ∙ h.0.period;
          window = ap (λ t. t.expiry_s) kept.timer ∙ h.0.window;
        },
        evaluate_peers-watched now rest h.1,
      )

  evaluate_peers-Distinct :
      (now : ℤ) (peers : Dict PeerRecord) → Distinct peers → Distinct (evaluate_peers now peers).1
  unfolding evaluate_peers
  evaluate_peers-Distinct now [] d = tt
  evaluate_peers-Distinct now ((k, r) ∷ rest) d =
      (get-evaluate_peers-none now k rest d.0, evaluate_peers-Distinct now rest d.1)

  evaluate_peers-IsPresent :
      (now : ℤ) (peers : Dict PeerRecord) (n : String)
      → IsPresent n peers
      → IsPresent n (evaluate_peers now peers).1
  evaluate_peers-IsPresent now peers n (r, e) =
      ((evaluate_peer r (poll r.timer now (some now))).1, get-evaluate_peers now n r peers e)

  with_sequence-IsWatching :
      (clock : ℤ) (peer : String) (c : HeartbeatCheck) (r : PeerRecord) (n : Result Exception ℤ)
      → IsWatched config (peer, r)
      → IsWatching config c
      → IsWatching config (with_sequence clock peer c r n).1
  with_sequence-IsWatching clock peer c r (raised e) w v = v
  with_sequence-IsWatching clock peer c r (returned n) w v = record {
    configured = v.configured;
    watched =
        All-put (IsWatched config) peer (receive clock n r) c.peers v.watched
          (receive-IsWatched clock n peer r w);
    present =
        All-map config.peers (λ j p. put-IsPresent j peer (receive clock n r) c.peers p) v.present;
    distinct = put-Distinct peer (receive clock n r) c.peers v.distinct;
  }

  with_peer-IsWatching :
      (clock : ℤ) (peer : String) (m : Message) (c : HeartbeatCheck) (found : Option PeerRecord)
      → get peer c.peers ≡ found
      → IsWatching config c
      → IsWatching config (with_peer clock peer m c found).1
  with_peer-IsWatching clock peer m c none e v = v
  with_peer-IsWatching clock peer m c (some r) e v =
      with_sequence-IsWatching clock peer c r (to_int (sequence_value (get "sequence" m.payload)))
        (All-get (IsWatched config) peer r c.peers v.watched e) v

  on_peer_heartbeat-IsWatching :
      (clock : ℤ) (m : Message) (c : HeartbeatCheck)
      → IsWatching config c
      → IsWatching config (on_peer_heartbeat clock m c).1
  unfolding on_peer_heartbeat
  on_peer_heartbeat-IsWatching clock m c v =
      let peer = after_last_dot m.topic in
      with_peer-IsWatching clock peer m c (get peer c.peers) refl v

  service-IsWatching :
      {S : Type 0} (clock : ℤ) (now : Option ℤ) (c : HeartbeatCheck) (bus : MessageBus S)
      → IsWatching config c
      → IsWatching config (service check clock now c bus).1
  service-IsWatching clock now c bus v =
      let tick = poll c.base.timer clock now in
      let (peers, same, _) = emit_if_due_keeps tick c bus in
      rw
        (service-returned check clock now c bus (tick_results tick c bus) (evaluated tick c bus)
          (emit_if_due tick c bus).1 (on_tick_lem tick c bus))
        (record {
          configured = same ∙ v.configured;
          watched = rw peers (evaluate_peers-watched tick.now c.peers v.watched);
          present = rw peers (
              All-map config.peers (λ n p. evaluate_peers-IsPresent tick.now c.peers n p)
                v.present);
          distinct = rw peers (evaluate_peers-Distinct tick.now c.peers v.distinct);
        })

-- What can happen to a check: a message of a peer, or a call of `service`.
pub data Step (S : Type 0) (c : HeartbeatCheck) : HeartbeatCheck → Type 0 where
  hears : (clock : ℤ) (m : Message) → Step S c (on_peer_heartbeat clock m c).1
  serves :
      (clock : ℤ) (now : Option ℤ) (bus : MessageBus S) → Step S c (service check clock now c bus).1

pub data Reach (S : Type 0) (start : HeartbeatCheck) : HeartbeatCheck → Type 0 where
  here : Reach S start start
  next : {c d : HeartbeatCheck} → Reach S start c → Step S c d → Reach S start d

Step-IsWatching :
    {S : Type 0} (config : HeartbeatCheckConfig) {c d : HeartbeatCheck}
    → Step S c d
    → IsWatching config c
    → IsWatching config d
Step-IsWatching config {c} (hears clock m) v = on_peer_heartbeat-IsWatching config clock m c v
Step-IsWatching config {c} (serves clock now bus) v = service-IsWatching config clock now c bus v

-- Whatever messages come and whenever `service` is called, each configured peer keeps one record,
-- under its own name, with the configured period and window, and there is no other record.
pub Reach-IsWatching :
    {S : Type 0} (config : HeartbeatCheckConfig) {c d : HeartbeatCheck}
    → IsWatching config c
    → Reach S c d
    → IsWatching config d
Reach-IsWatching config v here = v
Reach-IsWatching config v (next r s) = Step-IsWatching config s (Reach-IsWatching config v r)
