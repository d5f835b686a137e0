-- ===== src/Config.antt =====
-- src/health_monitor/config.py: the configuration records and their defaults. A float is an integer
-- number of millionths, so a duration is one of microseconds and a latency one of nanoseconds.
pub mod Validate
pub mod Rules
pub mod Fields
pub mod Describe
pub mod Coerce
pub mod Environment
pub mod Load
pub mod Applied
pub mod Slots
pub mod Sections
pub mod Service
pub mod Built
pub mod Document
pub mod Override
pub mod Accepted
pub mod Variables
pub mod Complete
pub mod Phases
pub mod Exact
pub mod Precedence
pub mod Strict
pub mod RoundTrip
pub mod Described
pub mod Tests
pub mod LoadTests
use ca1_health_monitor.Prelude.{ℤ, pos, String, Bool, true, List, [], ◌∷◌}

pub record MemoryCheckConfig : Type 0 where
  pub enabled : Bool
  pub scan_period_s : ℤ
  pub region_bytes : ℤ
  pub pages_per_slice : ℤ
  pub slice_budget_ms : ℤ
  pub correctable_warn_threshold : ℤ
  pub uncorrectable_fault_threshold : ℤ

pub record StorageCheckConfig : Type 0 where
  pub enabled : Bool
  pub scan_period_s : ℤ
  pub mounts : List String
  pub free_warn_fraction : ℤ
  pub free_fault_fraction : ℤ
  pub probe_write_bytes : ℤ
  pub probe_latency_warn_ms : ℤ
  pub probe_latency_fault_ms : ℤ
  pub stall_threshold_s : ℤ

pub record HeartbeatCheckConfig : Type 0 where
  pub enabled : Bool
  pub emit_period_s : ℤ
  pub peer_timeout_s : ℤ
  pub peers : List String
  pub quorum_min_live : ℤ

pub record LoggingConfig : Type 0 where
  pub level : String
  pub format : String
  pub include_monotonic : Bool

pub record ServiceConfig : Type 0 where
  pub service_name : String
  pub instance_id : String
  pub loop_period_s : ℤ
  pub shutdown_grace_s : ℤ
  pub bus_socket : String
  pub logging : LoggingConfig
  pub memory : MemoryCheckConfig
  pub storage : StorageCheckConfig
  pub heartbeat : HeartbeatCheckConfig

abbrev pub default_memory : MemoryCheckConfig
default_memory = record {
  enabled = true;
  scan_period_s = pos 5_000_000;
  region_bytes = pos 1_048_576;
  pages_per_slice = pos 64;
  slice_budget_ms = pos 1_500_000;
  correctable_warn_threshold = pos 1;
  uncorrectable_fault_threshold = pos 1;
}

abbrev pub default_storage : StorageCheckConfig
default_storage = record {
  enabled = true;
  scan_period_s = pos 30_000_000;
  mounts = "/var/log" ∷ "/var/lib/cases" ∷ [];
  free_warn_fraction = pos 200_000;
  free_fault_fraction = pos 80_000;
  probe_write_bytes = pos 4096;
  probe_latency_warn_ms = pos 40_000_000;
  probe_latency_fault_ms = pos 250_000_000;
  stall_threshold_s = pos 120_000_000;
}

abbrev pub default_heartbeat : HeartbeatCheckConfig
default_heartbeat = record {
  enabled = true;
  emit_period_s = pos 1_000_000;
  peer_timeout_s = pos 3_000_000;
  peers = "generator-control" ∷ "mapping-engine" ∷ "catheter-io" ∷ "case-recorder" ∷ [];
  quorum_min_live = pos 3;
}

abbrev pub default_logging : LoggingConfig
default_logging = record { level = "INFO"; format = "json"; include_monotonic = true }

abbrev pub default_config : ServiceConfig
default_config = record {
  service_name = "health-monitor";
  instance_id = "hm-0";
  loop_period_s = pos 250_000;
  shutdown_grace_s = pos 5_000_000;
  bus_socket = "/run/platform/bus.sock";
  logging = default_logging;
  memory = default_memory;
  storage = default_storage;
  heartbeat = default_heartbeat;
}
