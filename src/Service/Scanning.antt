-- ===== src/Service/Scanning.antt =====
-- What service.py reports of its mounts: the storage check that `build_checks` makes of a validated
-- configuration, after any calls.
use ca1_health_monitor.Prelude.{
  ℕ, ℤ, true, false, Option, some, List, [], map, ◌≡◌, ◌⊎◌, returned, returned-injective, subst,
  sym, ◌∙◌, inl, inr, ap,
}
use ca1_health_monitor.Common.Timer.{poll, mark_serviced}
use ca1_health_monitor.Bus.{Message, MessageBus}
use ca1_health_monitor.Config.{ServiceConfig}
use ca1_health_monitor.Config.Validate.{validate}
use ca1_health_monitor.Checks.Base.{Check, service}
use ca1_health_monitor.Checks.Storage.Filesystem.{Os, probe}
use ca1_health_monitor.Checks.Storage.Cleanup.{Closes, probe-NeverRaises}
use ca1_health_monitor.Checks.Storage.{StorageHealthCheck, slug, check}
use ca1_health_monitor.Checks.Storage.Runs.{NeverRaises, subjects, service_reports}
use ca1_health_monitor.Checks.Storage.Scans.{IsScanning, Reach, Reach-IsScanning}
use ca1_health_monitor.Service.Build.{Objects, build_checks}
use ca1_health_monitor.Service.Valid.{valid_builds}

module _ {M S : Type 0} (budget : M → ℤ × M) (os : Os S) (config : ServiceConfig) (platform : M)
    (mounts : S) (clock : ℕ → ℤ) (heard_at : Message → Objects M S → ℤ) (t : Objects M S)
    (bus : MessageBus (Objects M S)) where
  built-IsScanning :
      (checks : List (Check (Objects M S) (Objects M S))) (u : Objects M S)
      (attached : MessageBus (Objects M S))
      → validate config ≡ returned tt
      → config.storage.enabled ≡ true
      → build_checks budget os config platform mounts clock heard_at t bus
        ≡ returned ((checks, u), attached)
      → IsScanning config.storage (probe os) u.storage
  built-IsScanning checks u attached valid on built =
      let (_, _, built', _, _, _, scanning) =
        valid_builds budget os config platform mounts clock heard_at t bus valid in
      let same = returned-injective (sym built' ∙ built) in
      subst (λ r. IsScanning config.storage (probe os) r.0.1.storage) same (scanning on)

  -- A validated configuration with the storage check enabled builds a check of which this holds
  -- after any calls of `service`, where closing a file does not fail: one more call that is due reports
  -- every configured mount once, in order, and acknowledges the slot; when none is due nothing is
  -- reported and the timer stays.
  pub build_checks-scans :
      (checks : List (Check (Objects M S) (Objects M S))) (u : Objects M S)
      (attached : MessageBus (Objects M S)) (c : StorageHealthCheck S) (reads : ℤ) (now : Option ℤ)
      (later : MessageBus (Objects M S))
      → Closes os
      → validate config ≡ returned tt
      → config.storage.enabled ≡ true
      → build_checks budget os config platform mounts clock heard_at t bus
        ≡ returned ((checks, u), attached)
      → Reach (Objects M S) u.storage c
      → let tick = poll c.base.timer reads now in
        let (results, d, _) = service check reads now c later in
        ((tick.due ≡ true)
          × (subjects results ≡ map slug config.storage.mounts)
          × (d.base.timer ≡ mark_serviced c.base.timer tick.now (some tick.now)))
        ⊎ ((tick.due ≡ false) × (results ≡ []) × (d.base.timer ≡ c.base.timer))
  build_checks-scans checks u attached c reads now later closes valid on built reached =
      let n = probe-NeverRaises os closes in
      let v =
        Reach-IsScanning config.storage (probe os) n
          (built-IsScanning checks u attached valid on built) reached in
      elim (service_reports reads now c later (subst NeverRaises (sym v.probed) n)) [
        | inl (due, said, timer) ↦ inl (due, said ∙ ap (λ s. map slug s.mounts) v.configured, timer)
        | inr idle ↦ inr idle
      ]
