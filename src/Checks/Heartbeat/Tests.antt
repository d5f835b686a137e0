-- ===== src/Checks/Heartbeat/Tests.antt =====
-- Runs of heartbeat.py and instances of its theorems: two peers, of which both are required, with a
-- period of one second and a window of three.
use ca1_health_monitor.Prelude.{
  ◌+◌, ℤ, pos, negsuc, ◌+ℤ◌, ◌-ℤ◌, String, true, false, none, some, [], ◌∷◌, ◌≡◌, ◌⊎◌, refl, arith,
  inl, inr, returned,
}
use mathlib.Core.List.{Memᴰ}
use ca1_health_monitor.Prelude.Dict.{get, put}
use ca1_health_monitor.Prelude.Text.{append, has_dot}
use ca1_health_monitor.Common.Timer.{fresh, poll, mark_serviced}
use ca1_health_monitor.Common.Types
use ca1_health_monitor.Common.Types.{
  int, str, ok, fault, HealthState, to_int, same_state, type_error, value_error, severity,
}
use ca1_health_monitor.Bus.{Message, MessageBus, publish}
use ca1_health_monitor.Bus.Topics.{IsUnder}
use ca1_health_monitor.Config.{HeartbeatCheckConfig}
use ca1_health_monitor.Checks.Base.{service, publish_all, result}
use ca1_health_monitor.Checks.Heartbeat.{PeerRecord, HeartbeatCheck}
use ca1_health_monitor.Checks.Heartbeat.Report.{
  evaluate_peer, lost, evaluate_quorum, quorum_result, count_live, evaluate_peers,
}
use ca1_health_monitor.Checks.Heartbeat.Receive.{on_peer_heartbeat}
use ca1_health_monitor.Checks.Heartbeat.Tick.{emit_if_due, on_tick, check}
use ca1_health_monitor.Checks.Heartbeat.Peers.{lives, heard, announced, summary, evaluate_peers_lem}
use ca1_health_monitor.Checks.Heartbeat.Messages.{
  heartbeat_topic, unnumbered_reopens, heartbeat_received,
}
use ca1_health_monitor.Checks.Heartbeat.Ticks.{service_emits, service_silent}
use ca1_health_monitor.Checks.Heartbeat.Registered.{IsWatching}
use ca1_health_monitor.Checks.Heartbeat.Watch.{Reach-IsWatching, here, next, hears, serves}

abbrev two_peers : HeartbeatCheckConfig
two_peers = record {
  enabled = true;
  emit_period_s = pos 1_000_000;
  peer_timeout_s = pos 3_000_000;
  peers = "a" ∷ "b" ∷ [];
  quorum_min_live = pos 2;
}

-- A peer heard at the instant.
abbrev peer_at : String → ℤ → PeerRecord
peer_at name at = record {
  name = name;
  timer = fresh (pos 1_000_000) (some (pos 3_000_000)) at (append "peer-" name) false;
  live = true;
  sequence = pos 5;
  losses = 0;
  refreshes = 1;
}

abbrev started : HeartbeatCheck
started = record {
  base = record {
    timer = fresh (pos 1_000_000) none (pos 10_000_000) "heartbeat-emit" false;
    stats = Types.no_stats;
    last_published = ("quorum", ok) ∷ [];
  };
  config = two_peers;
  instance_id = "hm-0";
  sequence = 4;
  peers = ("a", peer_at "a" (pos 10_000_000)) ∷ ("b", peer_at "b" (pos 8_000_000)) ∷ [];
}

abbrev bus : MessageBus HeartbeatCheck
bus = record {
  name = "bus";
  max_depth = pos 4096;
  queue = [];
  subscriptions = [];
  dropped = 0;
  published = 0;
  delivered = 0;
}

abbrev numbered : ℤ → Message
numbered n = record {
  topic = heartbeat_topic "a";
  payload = ("sequence", int n) ∷ [];
  source = "a";
  monotonic_ts = pos 0;
}

-- Three and a half seconds after its last message `b` is lost, and the quorum with it.
one_lost :
    summary (service check (pos 11_500_001) none started bus).0
    ≡ ("b", fault) ∷ ("quorum", fault) ∷ []
unfolding service poll publish_all publish put get mark_serviced ◌-ℤ◌ on_tick emit_if_due
    evaluate_peers evaluate_peer lost evaluate_quorum quorum_result count_live same_state result
one_lost = refl

evaluate_peers_example :
    (lives (evaluate_peers (pos 11_500_000) started.peers).1
      ≡ heard (pos 3_000_000) (pos 11_500_000) started.peers)
    × (summary (evaluate_peers (pos 11_500_000) started.peers).0
        ≡ announced (pos 3_000_000) (pos 11_500_000) started.peers)
evaluate_peers_example =
    evaluate_peers_lem (pos 3_000_000) (pos 11_500_000) started.peers (refl, (refl, tt))

service_silent_example : (service check (pos 10_900_000) none started bus).0 ≡ []
unfolding ◌+ℤ◌ get
service_silent_example =
    service_silent (pos 10_900_000) none started bus (pos 3_000_000) (refl, (refl, tt)) refl refl

service_emits_example :
    let at = pos 11_000_000 in
    let (results, c', bus') = service check at none started bus in
    ((poll started.base.timer at none).due ≡ true) ⊎ ((poll started.base.timer at none).due ≡ false)
service_emits_example = elim (service_emits (pos 11_000_000) none started bus) [
  | inl h ↦ inl h.0
  | inr h ↦ inr h.0
]

-- A heartbeat without a number.
abbrev unnumbered : Message
unnumbered = record (numbered (pos 0)) { payload = [] }

unnumbered_reopens_example :
    let c' =
      (on_peer_heartbeat
        (pos 12_000_000)
        (numbered (pos 2))
        (on_peer_heartbeat (pos 11_000_000) unnumbered started).1).1 in
    (r' : PeerRecord) × (get "a" c'.peers ≡ some r')
    × (r'.sequence ≡ pos 2)
    × (r'.refreshes ≡ 1 + 2)
    × (r'.timer.last_refresh ≡ pos 12_000_000)
unfolding has_dot get
unnumbered_reopens_example =
    unnumbered_reopens (pos 11_000_000) (pos 12_000_000) (negsuc 0) (pos 2) unnumbered
      (numbered (pos 2)) started "a" (peer_at "a" (pos 10_000_000)) refl refl refl
      (inr (refl, refl)) (omega arith) refl refl (omega arith)

heartbeat_received_example :
    (on_peer_heartbeat (pos 11_000_000) (numbered (pos 6)) started).0 ≡ returned tt
unfolding has_dot get
heartbeat_received_example =
    (heartbeat_received (pos 11_000_000) (numbered (pos 6)) started "a"
      (peer_at "a" (pos 10_000_000)) (pos 6) refl refl refl refl).0

a-IsUnder : IsUnder "peer.heartbeat" (heartbeat_topic "a")
unfolding has_dot
a-IsUnder = ("a", refl, refl)

started-IsWatching : IsWatching two_peers started
unfolding get
started-IsWatching = record {
  configured = refl;
  watched = (
    record { named = refl; member = Memᴰ.head refl; period = refl; window = refl },
    (
      record { named = refl; member = Memᴰ.tail (Memᴰ.head refl); period = refl; window = refl },
      tt,
    ),
  );
  present = ((_, refl), ((_, refl), tt));
  distinct = (refl, (refl, tt));
}

Reach-IsWatching_example :
    IsWatching two_peers
      (service check
        (pos 12_000_000)
        none
        (on_peer_heartbeat (pos 11_000_000) (numbered (pos 6)) started).1
        bus).1
Reach-IsWatching_example = Reach-IsWatching {S = HeartbeatCheck} two_peers started-IsWatching (
    next (next here (hears (pos 11_000_000) (numbered (pos 6)))) (serves (pos 12_000_000) none bus))
