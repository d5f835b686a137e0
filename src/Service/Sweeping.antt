-- ===== src/Service/Sweeping.antt =====
-- The sweep that service.py runs: the memory check that `build_checks` makes of a validated
-- configuration, over `NullMemorySource`.
use ca1_health_monitor.Prelude.{
  ℕ, ◌≤◌, ◌<◌, ℤ, pos_part, true, List, length, ◌≡◌, returned, returned-injective, arith, subst,
  sym, ◌∙◌,
}
use ca1_health_monitor.Common.Types.{CheckResult}
use ca1_health_monitor.Bus.{Message, MessageBus}
use ca1_health_monitor.Config.{ServiceConfig}
use ca1_health_monitor.Config.Validate.{validate}
use ca1_health_monitor.Checks.Base.{Check}
use ca1_health_monitor.Checks.Memory.{MemoryIntegrityCheck}
use ca1_health_monitor.Checks.Memory.Null.{null_source, null_source-IsStable}
use ca1_health_monitor.Checks.Memory.Started.{IsStarted}
use ca1_health_monitor.Checks.Memory.UnderWay.{page_count}
use ca1_health_monitor.Checks.Memory.Progress.{sweeps, sweeps_lem}
use ca1_health_monitor.Checks.Storage.Filesystem.{Os}
use ca1_health_monitor.Service.Build.{Objects, build_checks}
use ca1_health_monitor.Service.Valid.{valid_builds}

module _ {M S : Type 0} (budget : M → ℤ × M) (os : Os S) (config : ServiceConfig) (platform : M)
    (mounts : S) (clock : ℕ → ℤ) (heard_at : Message → Objects M S → ℤ) (t : Objects M S)
    (bus : MessageBus (Objects M S)) where
  -- The memory check that a validated configuration builds, where it is enabled, sweeps without an
  -- exception, whatever the budget clock reads: any number of due ticks returns, as many passes have
  -- ended as there are results, and as many ticks as the region has pages give one.
  pub build_checks-sweeps :
      (checks : List (Check (Objects M S) (Objects M S))) (u : Objects M S)
      (attached : MessageBus (Objects M S)) (times : List ℤ)
      → validate config ≡ returned tt
      → config.memory.enabled ≡ true
      → build_checks budget os config platform mounts clock heard_at t bus
        ≡ returned ((checks, u), attached)
      → (d : MemoryIntegrityCheck M) × (rs : List CheckResult) × (sweeps
            (null_source budget)
            times
            u.memory
          ≡ (returned rs, d))
        × (d.pass_index ≡ length rs)
        × (page_count (pos_part config.memory.region_bytes) ≤ length times → 0 < length rs)
  build_checks-sweeps checks u attached times valid on built =
      let (_, _, built', _, started, _, _) =
        valid_builds budget os config platform mounts clock heard_at t bus valid in
      let v =
        subst (λ r. IsStarted config.memory r.0.1.memory) (returned-injective (sym built' ∙ built))
          (started on) in
      let (d, rs, run, _, index, enough) =
        sweeps_lem (null_source budget) (λ _ _. true) (null_source-IsStable budget)
          (pos_part config.memory.region_bytes) times u.memory (v.ready (λ _ _. true)) in
      (d, rs, run, omega (arith, index, v.first), λ h. enough (omega (arith, h)))
