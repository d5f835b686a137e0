-- ===== src/Config/Rules.antt =====
-- The rules that `validate` of config.py enforces, stated apart from its code.
use ca1_health_monitor.Prelude.{
  pos, ◌≤ℤ◌, ◌<ℤ◌, eq_iff, true, false, List, [], ◌∷◌, length, raised, returned, ◌>>=◌, ◌≡◌, ◌≢◌,
  ◌↔◌, ◌⊎◌, arith, refl,
}
use ca1_health_monitor.Config.{
  MemoryCheckConfig, StorageCheckConfig, HeartbeatCheckConfig, LoggingConfig, ServiceConfig,
}
use ca1_health_monitor.Config.Validate.{
  Checked, refuse, require_positive, require_fraction, is_empty, is_level, validate_service,
  validate_memory, validate_storage, validate_heartbeat, validate_logging, validate,
}

abbrev pub MemoryRules : MemoryCheckConfig → Type 0
MemoryRules mem =
    (pos 0 <ℤ mem.scan_period_s)
    × (pos 0 <ℤ mem.slice_budget_ms)
    × (pos 0 <ℤ mem.pages_per_slice)
    × (pos 0 <ℤ mem.region_bytes)

abbrev pub StorageRules : StorageCheckConfig → Type 0
StorageRules sto =
    (pos 0 <ℤ sto.scan_period_s)
    × (sto.scan_period_s <ℤ sto.stall_threshold_s)
    × (pos 0 <ℤ sto.free_fault_fraction)
    × (sto.free_fault_fraction <ℤ sto.free_warn_fraction)
    × (sto.free_warn_fraction <ℤ pos 1_000_000)
    × (sto.probe_latency_warn_ms <ℤ sto.probe_latency_fault_ms)
    × ((sto.enabled ≡ false) ⊎ (sto.mounts ≢ []))

abbrev pub HeartbeatRules : HeartbeatCheckConfig → Type 0
HeartbeatRules hbt =
    (pos 0 <ℤ hbt.emit_period_s)
    × (hbt.emit_period_s <ℤ hbt.peer_timeout_s)
    × ((hbt.enabled ≡ false) ⊎ (hbt.peers ≢ []))
    × (hbt.quorum_min_live ≤ℤ pos (length hbt.peers))

abbrev pub ServiceRules : ServiceConfig → Type 0
ServiceRules config =
    (pos 0 <ℤ config.loop_period_s)
    × (pos 0 <ℤ config.shutdown_grace_s)
    × (config.service_name ≢ "")

-- All of them.
abbrev pub Rules : ServiceConfig → Type 0
Rules config =
    ServiceRules config
    × MemoryRules config.memory
    × StorageRules config.storage
    × HeartbeatRules config.heartbeat
    × (is_level config.logging.level ≡ true)

empty_iff : {A : Type 0} (xs : List A) → (is_empty xs ≡ true) ↔ (xs ≡ [])
empty_iff [] = (λ _. refl, λ _. refl)
empty_iff (x ∷ xs) = (λ h. absurd (ground arith), λ h. cc)

service_iff :
    (config : ServiceConfig) → (validate_service config ≡ returned tt) ↔ ServiceRules config
unfolding validate_service require_positive refuse
service_iff config =
    (ground (arith, eq_iff config.service_name ""), ground (arith, eq_iff config.service_name ""))

memory_iff : (mem : MemoryCheckConfig) → (validate_memory mem ≡ returned tt) ↔ MemoryRules mem
unfolding validate_memory require_positive refuse
memory_iff mem = (ground arith, ground arith)

heartbeat_iff :
    (hbt : HeartbeatCheckConfig) → (validate_heartbeat hbt ≡ returned tt) ↔ HeartbeatRules hbt
unfolding validate_heartbeat require_positive refuse
heartbeat_iff hbt = (ground (arith, empty_iff hbt.peers), ground (arith, empty_iff hbt.peers))

storage_iff : (sto : StorageCheckConfig) → (validate_storage sto ≡ returned tt) ↔ StorageRules sto
unfolding validate_storage require_positive require_fraction refuse
storage_iff sto = (ground (arith, empty_iff sto.mounts), ground (arith, empty_iff sto.mounts))

logging_iff :
    (logging : LoggingConfig)
    → (validate_logging logging ≡ returned tt) ↔ (is_level logging.level ≡ true)
unfolding validate_logging refuse
logging_iff logging = (ground arith, ground arith)

chain : (m k : Checked) → ((m >>= λ _. k) ≡ returned tt) ↔ ((m ≡ returned tt) × (k ≡ returned tt))
chain (raised e) k = (λ h. cc, λ h. absurd (cc h.0))
chain (returned tt) k = (λ h. (refl, h), λ h. h.1)

-- A configuration is accepted exactly if it obeys every rule.
pub validate_iff : (config : ServiceConfig) → (validate config ≡ returned tt) ↔ Rules config
unfolding validate
validate_iff config = ground (
  arith,
  service_iff config,
  memory_iff config.memory,
  storage_iff config.storage,
  heartbeat_iff config.heartbeat,
  logging_iff config.logging,
)
