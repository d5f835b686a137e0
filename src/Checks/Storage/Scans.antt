-- ===== src/Checks/Storage/Scans.antt =====
-- The check of storage_health.py over any calls of `service`: it keeps its configuration and its
-- probe.
use ca1_health_monitor.Prelude.{ℤ, Option, ◌≡◌, inl, inr, Bool-cases, sym, subst, ◌∙◌, []}
use ca1_health_monitor.Common.Timer.{poll}
use ca1_health_monitor.Bus.{MessageBus}
use ca1_health_monitor.Config.{StorageCheckConfig}
use ca1_health_monitor.Checks.Base.{service}
use ca1_health_monitor.Checks.Base.Service.{service-returned}
use ca1_health_monitor.Checks.Storage.{StorageProbe, StorageHealthCheck, check}
use ca1_health_monitor.Checks.Storage.Runs.{NeverRaises, on_tick_due, on_tick_idle}

-- The check scans what is configured, with this probe.
pub record IsScanning {W : Type 0} (config : StorageCheckConfig) (probe : StorageProbe W)
    (c : StorageHealthCheck W) : Type 0 where
  pub configured : c.config ≡ config
  pub probed : c.probe ≡ probe

-- Any calls of `service`.
pub data Reach (S : Type 0) {W : Type 0} (start : StorageHealthCheck W)
    : StorageHealthCheck W → Type 0 where
  here : Reach S start start
  next :
      {c : StorageHealthCheck W} (clock : ℤ) (now : Option ℤ) (bus : MessageBus S)
      → Reach S start c
      → Reach S start (service check clock now c bus).1

module _ {W : Type 0} (config : StorageCheckConfig) (probe : StorageProbe W)
    (n : NeverRaises probe) where
  service-IsScanning :
      {S : Type 0} (clock : ℤ) (now : Option ℤ) (c : StorageHealthCheck W) (bus : MessageBus S)
      → IsScanning config probe c
      → IsScanning config probe (service check clock now c bus).1
  service-IsScanning clock now c bus v =
      let n' = subst NeverRaises (sym v.probed) n in
      elim (Bool-cases (poll c.base.timer clock now).due) [
        | inl due ↦
            let (results, d, ticked, _, _, kept, same) = on_tick_due clock now c bus n' due in
            rw (service-returned check clock now c bus results d bus ticked)
              (record { configured = kept ∙ v.configured; probed = same ∙ v.probed })
        | inr idle ↦
            rw
              (service-returned check clock now c bus [] c bus
                (on_tick_idle clock now c bus n' idle))
              (record { configured = v.configured; probed = v.probed })
      ]

  pub Reach-IsScanning :
      {S : Type 0} {c d : StorageHealthCheck W}
      → IsScanning config probe c
      → Reach S c d
      → IsScanning config probe d
  Reach-IsScanning v here = v
  Reach-IsScanning {S} v (next {c} clock now bus r) =
      service-IsScanning clock now c bus (Reach-IsScanning v r)
