-- ===== src/Checks/Heartbeat.antt =====
-- src/health_monitor/checks/heartbeat.py: our own heartbeat, the liveness of the peers and the quorum.
pub mod Receive
pub mod Report
pub mod Tick
pub mod Peers
pub mod Messages
pub mod Quorum
pub mod Ticks
pub mod Operation
pub mod Registered
pub mod Watch
pub mod Contact
pub mod Tests
use ca1_health_monitor.Prelude.{
  ℕ, suc, ◌+◌, ℤ, pos, negsuc, leb_ℤ, String, Bool, true, false, not, ◌&&◌, Option, none, some,
  List, [], ◌∷◌, ◌++◌, ◌≡◌, refl, Result, raised, returned, ◌>>=◌, if◌then◌else◌, length,
}
use ca1_health_monitor.Prelude.Dict.{Dict, get, put}
use ca1_health_monitor.Prelude.Text.{concat, append, after_last_dot}
use ca1_health_monitor.Prelude.Text.Format.{round_to, fixed, show_ℕ, show_ℤ}
use ca1_health_monitor.Common.Timer
use ca1_health_monitor.Common.Timer.{
  IntervalTimer, TimerTick, TimerConfigurationError, poll, mark_serviced, refresh,
}
use ca1_health_monitor.Common.Types.{
  Value, Exception, int, float, str, Payload, HealthState, ok, fault, same_state, to_int,
  CheckResult,
}
use ca1_health_monitor.Bus.{Message, MessageBus, Handler, publish, subscribe}
use ca1_health_monitor.Config.{HeartbeatCheckConfig}
use ca1_health_monitor.Checks.Base
use ca1_health_monitor.Checks.Base.{PeriodicCheck, Check, result}

abbrev pub check_id : String
check_id = "heartbeat"

abbrev pub peer_topic_prefix : String
peer_topic_prefix = "peer.heartbeat"

abbrev pub quorum_subject : String
quorum_subject = "quorum"

pub record PeerRecord : Type 0 where
  pub name : String
  pub timer : IntervalTimer
  pub live : Bool
  pub sequence : ℤ
  pub losses : ℕ
  pub refreshes : ℕ

pub record HeartbeatCheck : Type 0 where
  pub base : PeriodicCheck
  pub config : HeartbeatCheckConfig
  pub instance_id : String
  pub sequence : ℕ
  pub peers : Dict PeerRecord

-- The record of a new peer, with the defaults of `PeerRecord`.
abbrev pub new_peer : String → IntervalTimer → PeerRecord
new_peer name timer = record {
  name = name;
  timer = timer;
  live = true;
  sequence = negsuc 0;
  losses = 0;
  refreshes = 0;
}

-- The dict comprehension of `__init__`: `clock i` is the reading of the clock for the timer of the
-- i-th peer, and the entries so far are `made`.
unfoldable pub new_peers :
    HeartbeatCheckConfig
    → (ℕ → ℤ)
    → ℕ
    → List String
    → Dict PeerRecord
    → Result TimerConfigurationError (Dict PeerRecord)
new_peers config clock i [] made = returned made
new_peers config clock i (peer ∷ rest) made = do
  timer ←
      Timer.new config.emit_period_s (some config.peer_timeout_s) (clock i) (append "peer-" peer)
        false
  new_peers config clock (suc i) rest (put peer (new_peer peer timer) made)

-- The assignments of `HeartbeatCheck.__init__`.
abbrev pub assembled :
    HeartbeatCheckConfig → String → IntervalTimer → Dict PeerRecord → HeartbeatCheck
assembled config instance_id emit_timer peers = record {
  base = Base.new emit_timer;
  config = config;
  instance_id = instance_id;
  sequence = 0;
  peers = peers;
}

-- `HeartbeatCheck.__init__`; `clock 0` is the reading for the emission timer.
unfoldable pub new :
    HeartbeatCheckConfig → String → (ℕ → ℤ) → Result TimerConfigurationError HeartbeatCheck
new config instance_id clock = do
  emit_timer ← Timer.new config.emit_period_s none (clock 0) "heartbeat-emit" true
  peers ← new_peers config clock 1 config.peers []
  returned (assembled config instance_id emit_timer peers)
