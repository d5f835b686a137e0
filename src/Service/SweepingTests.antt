-- ===== src/Service/SweepingTests.antt =====
-- An instance of the sweep that is run: the default configuration, in three due ticks.
use ca1_health_monitor.Prelude.{ℕ, pos, List, [], ◌∷◌, length, ◌≡◌, refl, returned}
use ca1_health_monitor.Common.Types.{CheckResult}
use ca1_health_monitor.Config.{default_config}
use ca1_health_monitor.Config.Tests.{defaults_accepted}
use ca1_health_monitor.Checks.Memory.{MemoryIntegrityCheck}
use ca1_health_monitor.Checks.Memory.Null.{null_source}
use ca1_health_monitor.Checks.Memory.Progress.{sweeps}
use ca1_health_monitor.Service.Build.{Objects, attach_all}
use ca1_health_monitor.Service.Valid.{valid_builds}
use ca1_health_monitor.Service.Sweeping.{build_checks-sweeps}
use ca1_health_monitor.Service.Tests.{reads_clock, works, store, empty_bus}

build_checks-sweeps_example :
    (u : Objects ℕ ℕ) × (d : MemoryIntegrityCheck ℕ) × (rs : List CheckResult) × (sweeps
        (null_source reads_clock)
        (pos 0 ∷ pos 5_000_000 ∷ pos 10_000_000 ∷ [])
        u.memory
      ≡ (returned rs, d))
    × (d.pass_index ≡ length rs)
build_checks-sweeps_example =
    let (checks, u, built, _, _, _, _) =
      valid_builds reads_clock works default_config 0 0 (λ _. pos 0) (λ _ _. pos 0) store empty_bus
        defaults_accepted in
    let (d, rs, run, index, _) =
      build_checks-sweeps reads_clock works default_config 0 0 (λ _. pos 0) (λ _ _. pos 0) store
        empty_bus checks u (attach_all reads_clock works default_config (λ _ _. pos 0) empty_bus)
        (pos 0 ∷ pos 5_000_000 ∷ pos 10_000_000 ∷ []) defaults_accepted refl built in
    (u, d, rs, run, index)
