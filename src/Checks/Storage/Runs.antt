-- ===== src/Checks/Storage/Runs.antt =====
-- `on_tick` of storage_health.py: what is probed, reported and acknowledged.
use ca1_health_monitor.Prelude.{
  ℤ, pos, +ℤ-zero, String, Bool, true, false, Option, some, List, [], ◌∷◌, map, ◌≡◌, ◌≢◌, ◌⊎◌, inl,
  inr, refl, returned, Bool-cases, ap, sym, subst, ◌∙◌,
}
use mathlib.Core.Path.{ap₂}
use mathlib.Core.Bool.{false≢true}
use ca1_health_monitor.Common.Timer.{poll, mark_serviced}
use ca1_health_monitor.Common.Timer.Cadence.{overdue_by_lem}
use ca1_health_monitor.Common.Types.{CheckResult}
use ca1_health_monitor.Bus.{MessageBus}
use ca1_health_monitor.Checks.Base.{service, result}
use ca1_health_monitor.Checks.Base.Service.{service_counts, service_publishes, if_none}
use ca1_health_monitor.Checks.Storage.{
  MountProbe, StorageProbe, StorageHealthCheck, slug, observe, evaluate, probe_mount, probe_all,
  after_loop, on_tick, check,
}

-- What the probe answers is an observation, never an exception.
abbrev pub NeverRaises : {W : Type 0} → StorageProbe W → Type 0
NeverRaises {W} probe =
    (mount : String) (bytes : ℤ) (w : W)
    → (o : MountProbe) × (w' : W) × (probe mount bytes w ≡ (returned o, w'))

abbrev pub subjects : List CheckResult → List String
subjects [] = []
subjects (r ∷ rest) = r.subject ∷ subjects rest

-- A round or a loop keeps what it does not own.
pub record KeepsRest {W : Type 0} (c d : StorageHealthCheck W) : Type 0 where
  pub base : d.base ≡ c.base
  pub config : d.config ≡ c.config
  pub probe : d.probe ≡ c.probe

module _ {W : Type 0} where
  observe-KeepsRest :
      (c : StorageHealthCheck W) (mount : String) (good : Bool) (now : ℤ)
      → KeepsRest c (observe c mount good now)
  unfolding observe
  observe-KeepsRest c mount true now = record { base = refl; config = refl; probe = refl }
  observe-KeepsRest c mount false now = record { base = refl; config = refl; probe = refl }

  -- A round of the loop gives a result for its mount.
  probe_mount_lem :
      (mount : String) (now : ℤ) (c : StorageHealthCheck W)
      → NeverRaises c.probe
      → (r : CheckResult) × (d : StorageHealthCheck W) × (probe_mount mount now c ≡ (returned r, d))
        × (r.subject ≡ slug mount)
        × KeepsRest c d
  unfolding probe_mount evaluate result
  probe_mount_lem mount now c n =
      let (o, w, e) = n mount c.config.probe_write_bytes c.mounts in
      let c' = record c { mounts = w } in
      let d = observe c' mount o.succeeded now in
      let kept = observe-KeepsRest c' mount o.succeeded now in
      (
        evaluate d mount o now,
        d,
        rw e,
        refl,
        record { base = kept.base; config = kept.config; probe = kept.probe },
      )

  -- The loop gives one result for each mount, in order.
  probe_all_lem :
      (mounts : List String) (now : ℤ) (c : StorageHealthCheck W)
      → NeverRaises c.probe
      → (results : List CheckResult) × (d : StorageHealthCheck W) × (probe_all mounts now c
          ≡ (returned results, d))
        × (subjects results ≡ map slug mounts)
        × KeepsRest c d
  unfolding probe_all
  probe_all_lem [] now c n =
      ([], c, refl, refl, record { base = refl; config = refl; probe = refl })
  probe_all_lem (mount ∷ rest) now c n =
      let (r, c', round, subject, kept) = probe_mount_lem mount now c n in
      let (results, d, loop, said, kept') =
        probe_all_lem rest now c' (subst NeverRaises (sym kept.probe) n) in
      (
        r ∷ results,
        d,
        rw (round, loop) refl,
        ap₂ ◌∷◌ subject said,
        record {
          base = kept'.base ∙ kept.base;
          config = kept'.config ∙ kept.config;
          probe = kept'.probe ∙ kept.probe;
        },
      )

none_missed :
    (results : List CheckResult) (mounts : List String) (missed : ℤ)
    → mounts ≢ []
    → subjects results ≡ map slug mounts
    → if_none results missed ≡ pos 0
none_missed results [] missed h e = absurd (h refl)
none_missed [] (m ∷ rest) missed h e = cc
none_missed (r ∷ results) (m ∷ rest) missed h e = refl

module _ {S W : Type 0} (clock : ℤ) (now : Option ℤ) (c : StorageHealthCheck W) (bus : MessageBus S)
    (n : NeverRaises c.probe) where
  pub on_tick_due :
      let tick = poll c.base.timer clock now in
      tick.due ≡ true
      → (results : List CheckResult) × (d : StorageHealthCheck W) × (on_tick tick c bus
          ≡ (returned results, d, bus))
        × (subjects results ≡ map slug c.config.mounts)
        × (d.base ≡ record c.base { timer = mark_serviced c.base.timer tick.now (some tick.now) })
        × (d.config ≡ c.config)
        × (d.probe ≡ c.probe)
  unfolding on_tick
  on_tick_due due =
      let tick = poll c.base.timer clock now in
      let (results, d, loop, said, kept) = probe_all_lem c.config.mounts tick.now c n in
      (
        results,
        after_loop tick.now (returned results) d,
        rw (due, loop) refl,
        said,
        rw kept.base,
        kept.config,
        kept.probe,
      )

  pub on_tick_idle :
      let tick = poll c.base.timer clock now in
      tick.due ≡ false → on_tick tick c bus ≡ (returned [], c, bus)
  unfolding on_tick
  on_tick_idle idle = rw idle

  -- With a probe that never raises, a scan that is due reports every configured mount once, in
  -- order, and acknowledges the slot; when none is due nothing is reported and the timer stays.
  pub service_reports :
      let tick = poll c.base.timer clock now in
      let (results, d, _) = service check clock now c bus in
      ((tick.due ≡ true)
        × (subjects results ≡ map slug c.config.mounts)
        × (d.base.timer ≡ mark_serviced c.base.timer tick.now (some tick.now)))
      ⊎ ((tick.due ≡ false) × (results ≡ []) × (d.base.timer ≡ c.base.timer))
  service_reports = elim (Bool-cases (poll c.base.timer clock now).due) [
    | inl due ↦
        (let (results, d, ticked, said, base, _, _) = on_tick_due due in
          let p = service_publishes check clock now c bus results d bus ticked in
          inl (due, ap subjects p.0 ∙ said, p.2 ∙ ap (λ b. b.timer) base))
    | inr idle ↦
        (let p = service_publishes check clock now c bus [] c bus (on_tick_idle idle) in
          inr (idle, p.0, p.2))
  ]

  skipped :
      (results : List CheckResult) (d : StorageHealthCheck W)
      → on_tick (poll c.base.timer clock now) c bus ≡ (returned results, d, bus)
      → d.base.stats.skipped_slots ≡ c.base.stats.skipped_slots
      → if_none results (poll c.base.timer clock now).missed_slots ≡ pos 0
      → (service check clock now c bus).1.base.stats.skipped_slots ≡ c.base.stats.skipped_slots
  skipped results d ticked same none_left =
      (service_counts check clock now c bus results d bus ticked).3 ∙ rw (none_left, +ℤ-zero) same

  -- With a probe that never raises and a mount to scan, no slot ever counts as skipped, however
  -- many periods the tick has missed.
  pub service_skips_nothing :
      c.config.mounts ≢ []
      → (service check clock now c bus).1.base.stats.skipped_slots ≡ c.base.stats.skipped_slots
  service_skips_nothing some_mount = elim (Bool-cases (poll c.base.timer clock now).due) [
    | inl due ↦
        (let (results, d, ticked, said, base, _, _) = on_tick_due due in
          skipped results d ticked (ap (λ b. b.stats.skipped_slots) base) (
            none_missed results c.config.mounts (poll c.base.timer clock now).missed_slots
              some_mount said))
    | inr idle ↦
        skipped [] c (on_tick_idle idle) refl (elim (overdue_by_lem c.base.timer clock now) [
          | inl (due, _) ↦ absurd (false≢true (sym idle ∙ due))
          | inr (_, _, missed) ↦ missed
        ])
  ]
