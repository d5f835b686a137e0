-- ===== src/Checks/Storage.antt =====
-- src/health_monitor/checks/storage_health.py: the check `StorageHealthCheck`. The probe it is given
-- is a parameter, on a state `W` of the mounts that every call of it may change.
pub mod States
pub mod Failures
pub mod Runs
pub mod Scans
pub mod Filesystem
pub mod Cleanup
pub mod Tests
use ca1_health_monitor.Prelude.{
  ℕ, ◌+◌, ℤ, pos, not, ◌-ℤ◌, ltb_ℤ, max_ℤ, String, Bool, true, false, ◌||◌, Option, none, some,
  List, [], ◌∷◌, refl, Result, raised, returned, ◌>>=◌, if◌then◌else◌, ltb, ◌==◌,
}
use ca1_health_monitor.Prelude.Dict.{Dict, get, put}
use ca1_health_monitor.Prelude.Text.{concat}
use ca1_health_monitor.Prelude.Text.Path.{strip_slashes, slashes_to_dashes}
use ca1_health_monitor.Prelude.Text.Format.{round_to, fixed, percent}
use ca1_health_monitor.Common.Timer
use ca1_health_monitor.Common.Timer.{
  IntervalTimer, TimerTick, TimerConfigurationError, mark_serviced,
}
use ca1_health_monitor.Common.Types.{
  int, float, Payload, Exception, HealthState, ok, degraded, fault, CheckResult,
}
use ca1_health_monitor.Bus.{MessageBus}
use ca1_health_monitor.Config.{StorageCheckConfig}
use ca1_health_monitor.Checks.Base
use ca1_health_monitor.Checks.Base.{PeriodicCheck, Check, result}

abbrev pub check_id : String
check_id = "disk"

pub record MountProbe : Type 0 where
  pub mount : String
  pub succeeded : Bool
  pub free_fraction : ℤ
  pub total_bytes : ℤ
  pub write_latency_ms : ℤ
  pub error : String

-- The protocol `StorageProbe`: its method on the mounts as they are, which may raise.
abbrev pub StorageProbe : Type 0 → Type 0
StorageProbe W = String → ℤ → W → Result Exception MountProbe × W

pub record StorageHealthCheck (W : Type 0) : Type 0 where
  pub base : PeriodicCheck
  pub config : StorageCheckConfig
  pub probe : StorageProbe W
  pub mounts : W
  pub last_good_probe : Dict ℤ
  pub consecutive_failures : Dict ℕ

-- `{m: 0 for m in config.mounts}`
unfoldable pub no_failures : List String → Dict ℕ → Dict ℕ
no_failures [] made = made
no_failures (m ∷ rest) made = no_failures rest (put m 0 made)

-- The assignments of `__init__`.
unfoldable pub assembled :
    {W : Type 0} → StorageCheckConfig → StorageProbe W → W → IntervalTimer → StorageHealthCheck W
unfolding no_failures
assembled config probe mounts timer = record {
  base = Base.new timer;
  config = config;
  probe = probe;
  mounts = mounts;
  last_good_probe = [];
  consecutive_failures = no_failures config.mounts [];
}

-- `StorageHealthCheck.__init__`, with a probe; `clock` is the reading for the timer
unfoldable pub new :
    {W : Type 0}
    → StorageCheckConfig
    → StorageProbe W
    → W
    → ℤ
    → Result TimerConfigurationError (StorageHealthCheck W)
new config probe mounts clock = do
  timer ← Timer.new config.scan_period_s none clock "disk-scan" true
  returned (assembled config probe mounts timer)

-- `_slug`
unfoldable pub slug : String → String
slug mount =
    let name = slashes_to_dashes (strip_slashes mount) in if name == "" then "root" else name

abbrev pub or_zero : Option ℕ → ℕ
or_zero none = 0
or_zero (some n) = n

-- `_stale_for`, on the last good probe of the mount
unfoldable pub stale_for : Option ℤ → ℤ → ℤ
stale_for none now = pos 0
stale_for (some last_good) now = max_ℤ (pos 0) (now -ℤ last_good)

unfoldable pub probe_metrics : MountProbe → ℕ → ℤ → Payload
unfolding round_to
probe_metrics o failures stale =
    ("free_fraction", float (round_to 4 o.free_fraction))
    ∷ ("total_bytes", int o.total_bytes)
    ∷ ("write_latency_ms", float (round_to 3 o.write_latency_ms))
    ∷ ("consecutive_failures", int (pos failures))
    ∷ ("stale_for_s", float (round_to 3 stale))
    ∷ []

took : ℤ → String
unfolding concat fixed
took latency = concat ("write probe took " ∷ fixed 1 latency ∷ " ms" ∷ [])

free_below : ℤ → String → String
unfolding concat percent
free_below fraction floor = concat ("free space " ∷ percent fraction ∷ " below " ∷ floor ∷ [])

-- The state and the detail that `_evaluate` chooses, return by return.
unfoldable pub judge : StorageCheckConfig → MountProbe → ℕ → ℤ → HealthState × String
unfolding took free_below
judge config o failures stale =
    if not o.succeeded
    then (
      if ltb_ℤ config.stall_threshold_s stale || ltb 1 failures then fault else degraded,
      o.error,
    )
    else if ltb_ℤ o.free_fraction config.free_fault_fraction
    then (fault, free_below o.free_fraction "fault floor")
    else if ltb_ℤ config.probe_latency_fault_ms o.write_latency_ms
    then (fault, took o.write_latency_ms)
    else if ltb_ℤ o.free_fraction config.free_warn_fraction
    then (degraded, free_below o.free_fraction "warning floor")
    else if ltb_ℤ config.probe_latency_warn_ms o.write_latency_ms
    then (degraded, took o.write_latency_ms)
    else (ok, "mount healthy")

module _ {W : Type 0} where
  -- `_evaluate`
  unfoldable pub evaluate : StorageHealthCheck W → String → MountProbe → ℤ → CheckResult
  unfolding result
  evaluate c mount o now =
      let stale = stale_for (get mount c.last_good_probe) now in
      let failures = or_zero (get mount c.consecutive_failures) in
      let (state, detail) = judge c.config o failures stale in
      result check_id state detail (slug mount) now (probe_metrics o failures stale)

  -- The bookkeeping of `on_tick` for one observation.
  unfoldable pub observe : StorageHealthCheck W → String → Bool → ℤ → StorageHealthCheck W
  observe c mount true now = record c {
    last_good_probe = put mount now c.last_good_probe;
    consecutive_failures = put mount 0 c.consecutive_failures;
  }
  observe c mount false now = record c {
    consecutive_failures =
        put mount (or_zero (get mount c.consecutive_failures) + 1) c.consecutive_failures;
  }

  -- What one round of the loop does with what the probe gave.
  abbrev pub with_observation :
      String
      → ℤ
      → StorageHealthCheck W
      → Result Exception MountProbe
      → Result Exception CheckResult × StorageHealthCheck W
  with_observation mount now c (raised e) = (raised e, c)
  with_observation mount now c (returned o) =
      let c' = observe c mount o.succeeded now in (returned (evaluate c' mount o now), c')

  -- One round of the loop of `on_tick`.
  unfoldable pub probe_mount :
      String → ℤ → StorageHealthCheck W → Result Exception CheckResult × StorageHealthCheck W
  probe_mount mount now c =
      let (outcome, mounts) = c.probe mount c.config.probe_write_bytes c.mounts in
      with_observation mount now (record c { mounts = mounts }) outcome

  -- A round's result before those of the later rounds; an exception leaves the loop.
  abbrev pub joined :
      Result Exception CheckResult
      → StorageHealthCheck W
      → Result Exception (List CheckResult) × StorageHealthCheck W
      → Result Exception (List CheckResult) × StorageHealthCheck W
  joined (raised e) c (later, d) = (raised e, c)
  joined (returned r) c (later, d) = (later >>= (λ results. returned (r ∷ results)), d)

  -- The loop of `on_tick`.
  unfoldable pub probe_all :
      List String
      → ℤ
      → StorageHealthCheck W
      → Result Exception (List CheckResult) × StorageHealthCheck W
  probe_all [] now c = (returned [], c)
  probe_all (mount ∷ rest) now c =
      let (outcome, c') = probe_mount mount now c in joined outcome c' (probe_all rest now c')

  -- What follows the loop.
  abbrev pub after_loop :
      ℤ → Result Exception (List CheckResult) → StorageHealthCheck W → StorageHealthCheck W
  after_loop now (raised e) c = c
  after_loop now (returned results) c = record c {
    base = record c.base { timer = mark_serviced c.base.timer now (some now) };
  }

  module _ {S : Type 0} where
    -- `on_tick`
    unfoldable pub on_tick :
        TimerTick
        → StorageHealthCheck W
        → MessageBus S
        → Result Exception (List CheckResult) × StorageHealthCheck W × MessageBus S
    on_tick tick c bus =
        if tick.due
        then (let (outcome, c') = probe_all c.config.mounts tick.now c in
            (outcome, after_loop tick.now outcome c', bus))
        else (returned [], c, bus)

    abbrev pub check : Check S (StorageHealthCheck W)
    check = record {
      check_id = check_id;
      base = λ c. c.base;
      with_base = λ c b. record c { base = b };
      on_tick = on_tick;
      base-with_base = λ c b. refl;
    }
