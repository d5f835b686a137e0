-- ===== src/Checks/Storage/States.antt =====
-- The ladder of `_evaluate` in storage_health.py.
use ca1_health_monitor.Prelude.{ℕ, ◌<◌, ℤ, ◌≤ℤ◌, ◌<ℤ◌, true, false, ◌≡◌, ◌↔◌, ◌⊎◌, arith}
use ca1_health_monitor.Common.Types.{HealthState, ok, fault}
use ca1_health_monitor.Config.{StorageCheckConfig}
use ca1_health_monitor.Checks.Storage.{MountProbe, judge}

-- The thresholds in the order that `validate` asks for.
pub record AreOrdered (config : StorageCheckConfig) : Type 0 where
  pub fractions : config.free_fault_fraction <ℤ config.free_warn_fraction
  pub latencies : config.probe_latency_warn_ms <ℤ config.probe_latency_fault_ms

module _ (config : StorageCheckConfig) (o : MountProbe) (failures : ℕ) (stale : ℤ) where
  abbrev pub state : HealthState
  state = (judge config o failures stale).0

  -- With the thresholds in the order that `validate` asks for, a mount is OK exactly if its probe
  -- succeeded with the free space and within the latency of the warning thresholds.
  pub judge_ok :
      AreOrdered config
      → (state ≡ ok) ↔ (
          (o.succeeded ≡ true)
          × (config.free_warn_fraction ≤ℤ o.free_fraction)
          × (o.write_latency_ms ≤ℤ config.probe_latency_warn_ms))
  unfolding judge
  judge_ok h = (ground arith, ground arith)

  -- A mount is at fault exactly if its probe succeeded below the fault floor or above the fault
  -- latency, or failed a second time in a row or after too long a time without a good probe.
  pub judge_fault : (state ≡ fault) ↔ (
      ((o.succeeded ≡ true)
        × ((o.free_fraction <ℤ config.free_fault_fraction)
            ⊎ (config.probe_latency_fault_ms <ℤ o.write_latency_ms)))
      ⊎ ((o.succeeded ≡ false) × ((config.stall_threshold_s <ℤ stale) ⊎ (1 < failures))))
  unfolding judge
  judge_fault = (ground arith, ground arith)
