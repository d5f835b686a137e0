-- ===== src/Checks/Heartbeat/Receive.antt =====
-- Incoming heartbeats of heartbeat.py: `on_peer_heartbeat` and its subscription, `attach`.
use ca1_health_monitor.Prelude.{
  ◌+◌, ℤ, pos, negsuc, leb_ℤ, String, Bool, ◌&&◌, Option, none, some, [], ◌∷◌, Result, raised,
  returned, if◌then◌else◌,
}
use ca1_health_monitor.Prelude.Dict.{get, put}
use ca1_health_monitor.Prelude.Text.{concat, after_last_dot}
use ca1_health_monitor.Common.Timer.{refresh}
use ca1_health_monitor.Common.Types.{Value, Exception, int, to_int}
use ca1_health_monitor.Bus.{Message, MessageBus, subscribe}
use ca1_health_monitor.Checks.Heartbeat.{peer_topic_prefix, PeerRecord, HeartbeatCheck}

-- `message.payload.get("sequence", -1)`
abbrev pub sequence_value : Option Value → Value
sequence_value none = int (negsuc 0)
sequence_value (some v) = v

-- `sequence >= 0 and sequence <= record.sequence`
abbrev pub is_stale : ℤ → PeerRecord → Bool
is_stale sequence r = leb_ℤ (pos 0) sequence && leb_ℤ sequence r.sequence

-- The rest of `on_peer_heartbeat` for a configured peer; `clock` is what its timer's clock reads.
unfoldable pub receive : ℤ → ℤ → PeerRecord → PeerRecord
receive clock sequence r = if is_stale sequence r then r else record r {
  sequence = sequence;
  refreshes = r.refreshes + 1;
  timer = refresh r.timer clock none;
}

-- `on_peer_heartbeat` once `sequence` is read.
abbrev pub with_sequence :
    ℤ
    → String
    → HeartbeatCheck
    → PeerRecord
    → Result Exception ℤ
    → Result Exception (Unit {0}) × HeartbeatCheck
with_sequence clock peer c r (raised e) = (raised e, c)
with_sequence clock peer c r (returned sequence) =
    (returned tt, record c { peers = put peer (receive clock sequence r) c.peers })

-- `on_peer_heartbeat` once the peer is looked up.
abbrev pub with_peer :
    ℤ
    → String
    → Message
    → HeartbeatCheck
    → Option PeerRecord
    → Result Exception (Unit {0}) × HeartbeatCheck
with_peer clock peer m c none = (returned tt, c)
with_peer clock peer m c (some r) =
    with_sequence clock peer c r (to_int (sequence_value (get "sequence" m.payload)))

-- `on_peer_heartbeat`
unfoldable pub on_peer_heartbeat :
    ℤ → Message → HeartbeatCheck → Result Exception (Unit {0}) × HeartbeatCheck
on_peer_heartbeat clock m c =
    let peer = after_last_dot m.topic in with_peer clock peer m c (get peer c.peers)

-- `attach`: the callback acts on the check's own state, which `get_check` and `set_check` find in the
-- subscribers' state; `clock` gives the reading of the peer's clock for each message.
unfoldable pub attach :
    {S : Type 0}
    → (S → HeartbeatCheck)
    → (S → HeartbeatCheck → S)
    → (Message → S → ℤ)
    → MessageBus S
    → MessageBus S
attach get_check set_check clock bus = subscribe bus (concat (peer_topic_prefix ∷ ".*" ∷ [])) λ m s.
    let (outcome, c) = on_peer_heartbeat (clock m s) m (get_check s) in (outcome, set_check s c)
