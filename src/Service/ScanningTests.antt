-- ===== src/Service/ScanningTests.antt =====
-- An instance of what is reported of the mounts: the default configuration, after one scan.
use ca1_health_monitor.Prelude.{ℕ, pos, none, some, ◌≡◌, ◌⊎◌, [], refl, map, true, false}
use ca1_health_monitor.Common.Timer.{poll, mark_serviced}
use ca1_health_monitor.Config.{default_config, default_storage}
use ca1_health_monitor.Config.Tests.{defaults_accepted}
use ca1_health_monitor.Checks.Base.{service}
use ca1_health_monitor.Checks.Storage.{StorageHealthCheck, check, slug}
use ca1_health_monitor.Checks.Storage.Runs.{subjects}
use ca1_health_monitor.Checks.Storage.Cleanup.{Closes}
use ca1_health_monitor.Checks.Storage.Scans.{here, next}
use ca1_health_monitor.Service.Build.{attach_all}
use ca1_health_monitor.Service.Valid.{valid_builds}
use ca1_health_monitor.Service.Scanning.{build_checks-scans}
use ca1_health_monitor.Service.Tests.{reads_clock, works, store, empty_bus}

works-Closes : Closes works
works-Closes handle w = (w, refl)

build_checks-scans_example :
    (c : StorageHealthCheck ℕ) × (let tick = poll c.base.timer (pos 40_000_000) none in
      let (results, d, _) = service check (pos 40_000_000) none c empty_bus in
      ((tick.due ≡ true)
        × (subjects results ≡ map slug default_storage.mounts)
        × (d.base.timer ≡ mark_serviced c.base.timer tick.now (some tick.now)))
      ⊎ ((tick.due ≡ false) × (results ≡ []) × (d.base.timer ≡ c.base.timer)))
build_checks-scans_example =
    let (checks, u, built, _, _, _, _) =
      valid_builds reads_clock works default_config 0 0 (λ _. pos 0) (λ _ _. pos 0) store empty_bus
        defaults_accepted in
    let c = (service check (pos 1_000_000) none u.storage empty_bus).1 in
    (
      c,
      build_checks-scans reads_clock works default_config 0 0 (λ _. pos 0) (λ _ _. pos 0) store
          empty_bus checks u (attach_all reads_clock works default_config (λ _ _. pos 0) empty_bus)
          c (pos 40_000_000) none empty_bus works-Closes defaults_accepted refl built
          (next (pos 1_000_000) none empty_bus here),
    )
