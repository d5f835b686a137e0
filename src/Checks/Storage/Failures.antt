-- ===== src/Checks/Storage/Failures.antt =====
-- The bookkeeping of storage_health.py: consecutive failures and the last good probe of a mount.
use ca1_health_monitor.Prelude.{
  ◌+◌, ◌<◌, ℤ, pos, ◌≤ℤ◌, ◌<ℤ◌, String, Bool, true, false, some, ◌≡◌, ◌⊎◌, arith, if◌then◌else◌,
  ◌==◌, eq_iff,
}
use ca1_health_monitor.Prelude.Dict.{get, get-put, get-put_self}
use ca1_health_monitor.Common.Types.{degraded, fault}
use ca1_health_monitor.Checks.Base.{result}
use ca1_health_monitor.Checks.Storage.{
  MountProbe, StorageHealthCheck, or_zero, stale_for, judge, evaluate, observe,
}

module _ {W : Type 0} (c : StorageHealthCheck W) (mount : String) (now : ℤ) where
  -- A good probe ends a run of failures and is the mount's last good one; a failed probe makes the
  -- run one longer and leaves the last good one. Nothing is changed for another mount.
  pub observe_lem :
      (good : Bool) (j : String)
      → let d = observe c mount good now in
        (get j d.last_good_probe ≡ (
          if mount == j
          then (if good then some now else get j c.last_good_probe)
          else get j c.last_good_probe))
        × (or_zero (get j d.consecutive_failures) ≡ (
            if mount == j
            then (if good then 0 else or_zero (get j c.consecutive_failures) + 1)
            else or_zero (get j c.consecutive_failures)))
  unfolding observe
  observe_lem true j =
      ground
        (arith, get-put mount j now c.last_good_probe, get-put mount j 0 c.consecutive_failures)
  observe_lem false j = ground (
    arith,
    eq_iff mount j,
    get-put mount j (or_zero (get mount c.consecutive_failures) + 1) c.consecutive_failures,
  )

  -- A failed probe is reported as a fault exactly if the one before it failed too or the last good
  -- one is longer ago than the threshold, and as degraded otherwise.
  pub failed_probe :
      (o : MountProbe)
      → o.succeeded ≡ false
      → let r = evaluate (observe c mount false now) mount o now in
        let again = 0 < or_zero (get mount c.consecutive_failures) in
        let stalled = c.config.stall_threshold_s <ℤ stale_for (get mount c.last_good_probe) now in
        ((r.state ≡ fault) × (again ⊎ stalled))
        ⊎ ((r.state ≡ degraded)
            × (or_zero (get mount c.consecutive_failures) ≡ 0)
            × (stale_for (get mount c.last_good_probe) now ≤ℤ c.config.stall_threshold_s))
  unfolding evaluate observe judge result
  failed_probe o e = ground (
    arith,
    get-put_self mount (or_zero (get mount c.consecutive_failures) + 1) c.consecutive_failures,
  )

  -- After a good probe no time counts as stale, and the result does not depend on the past.
  pub good_probe_fresh :
      (o : MountProbe)
      → o.succeeded ≡ true
      → (evaluate (observe c mount true now) mount o now).state ≡ (judge c.config o 0 (pos 0)).0
  unfolding evaluate observe judge result
  good_probe_fresh o e = ground arith
