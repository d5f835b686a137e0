-- ===== src/Config/Validate.antt =====
-- `validate` of config.py, section by section, with `_require_positive` and `_require_fraction`.
use ca1_health_monitor.Prelude.{
  ℕ, ℤ, pos, ltb_ℤ, leb_ℤ, String, ◌==◌, Bool, true, false, not, ◌&&◌, ◌||◌, List, [], ◌∷◌, length,
  Result, raised, returned, ◌>>=◌,
}
use ca1_health_monitor.Prelude.Text.Case.{is_upper_case}
use ca1_health_monitor.Common.Types.{Value}
use ca1_health_monitor.Config.{
  MemoryCheckConfig, StorageCheckConfig, HeartbeatCheckConfig, LoggingConfig, ServiceConfig,
}

-- `ConfigError`, by what its message says, with the values that the message shows.
pub data ConfigError : Type 0 where
  not_positive : String → ℤ → ConfigError
  not_fraction : String → ℤ → ConfigError
  unsupported : String → String → ConfigError
  breaks : String → String → ConfigError
  expected : String → String → Value → ConfigError
  unknown_section : String → ConfigError
  not_found : String → ConfigError
  malformed : String → ℕ → ConfigError

abbrev pub Checked : Type 0
Checked = Result ConfigError (Unit {0})

-- `if wrong: raise ConfigError(...)`
unfoldable pub refuse : Bool → ConfigError → Checked
refuse true e = raised e
refuse false e = returned tt

-- `_require_positive`
unfoldable pub require_positive : ℤ → String → Checked
unfolding refuse
require_positive value path = refuse (leb_ℤ value (pos 0)) (not_positive path value)

-- `_require_fraction`
unfoldable pub require_fraction : ℤ → String → Checked
unfolding refuse
require_fraction value path =
    refuse (not (ltb_ℤ (pos 0) value && ltb_ℤ value (pos 1_000_000))) (not_fraction path value)

-- Only a list without entries counts as false.
abbrev pub is_empty : {A : Type 0} → List A → Bool
is_empty [] = true
is_empty (x ∷ xs) = false

unfoldable pub validate_service : ServiceConfig → Checked
validate_service config = do
  _ ← require_positive config.loop_period_s "loop_period_s"
  _ ← require_positive config.shutdown_grace_s "shutdown_grace_s"
  refuse (config.service_name == "") (breaks "service_name" "must not be empty")

unfoldable pub validate_memory : MemoryCheckConfig → Checked
validate_memory mem = do
  _ ← require_positive mem.scan_period_s "memory.scan_period_s"
  _ ← require_positive mem.slice_budget_ms "memory.slice_budget_ms"
  _ ←
      refuse (leb_ℤ mem.pages_per_slice (pos 0))
        (breaks "memory.pages_per_slice" "must be greater than zero")
  refuse (leb_ℤ mem.region_bytes (pos 0)) (breaks "memory.region_bytes" "must be greater than zero")

unfoldable pub validate_storage : StorageCheckConfig → Checked
validate_storage sto = do
  _ ← require_positive sto.scan_period_s "storage.scan_period_s"
  _ ← require_positive sto.stall_threshold_s "storage.stall_threshold_s"
  _ ← require_fraction sto.free_warn_fraction "storage.free_warn_fraction"
  _ ← require_fraction sto.free_fault_fraction "storage.free_fault_fraction"
  _ ←
      refuse (leb_ℤ sto.free_warn_fraction sto.free_fault_fraction)
        (breaks "storage.free_fault_fraction" "must be below storage.free_warn_fraction")
  _ ←
      refuse (leb_ℤ sto.probe_latency_fault_ms sto.probe_latency_warn_ms)
        (breaks "storage.probe_latency_fault_ms" "must exceed storage.probe_latency_warn_ms")
  _ ←
      refuse (sto.enabled && is_empty sto.mounts)
        (breaks "storage.mounts" "at least one mount point is required")
  refuse (leb_ℤ sto.stall_threshold_s sto.scan_period_s)
      (breaks "storage.stall_threshold_s" "must exceed storage.scan_period_s")

unfoldable pub validate_heartbeat : HeartbeatCheckConfig → Checked
validate_heartbeat hbt = do
  _ ← require_positive hbt.emit_period_s "heartbeat.emit_period_s"
  _ ← require_positive hbt.peer_timeout_s "heartbeat.peer_timeout_s"
  _ ← refuse (leb_ℤ hbt.peer_timeout_s hbt.emit_period_s) (
      breaks "heartbeat.peer_timeout_s"
        "must exceed heartbeat.emit_period_s so that a single late heartbeat does not declare a peer lost")
  _ ←
      refuse (hbt.enabled && is_empty hbt.peers)
        (breaks "heartbeat.peers" "at least one peer is required")
  refuse (ltb_ℤ (pos (length hbt.peers)) hbt.quorum_min_live)
      (breaks "heartbeat.quorum_min_live" "cannot exceed the number of configured peers")

-- `level.upper() in (...)`
unfoldable pub is_level : String → Bool
unfolding is_upper_case
is_level s =
    is_upper_case s "DEBUG"
    || (is_upper_case s "INFO"
        || (is_upper_case s "WARNING" || (is_upper_case s "ERROR" || is_upper_case s "CRITICAL")))

unfoldable pub validate_logging : LoggingConfig → Checked
validate_logging logging =
    refuse (not (is_level logging.level)) (unsupported "logging.level" logging.level)

-- `validate`
unfoldable pub validate : ServiceConfig → Checked
validate config = do
  _ ← validate_service config
  _ ← validate_memory config.memory
  _ ← validate_storage config.storage
  _ ← validate_heartbeat config.heartbeat
  validate_logging config.logging
