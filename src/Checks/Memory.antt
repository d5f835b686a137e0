-- ===== src/Checks/Memory.antt =====
-- src/health_monitor/checks/memory_integrity.py: the check `MemoryIntegrityCheck`. What is under it,
-- the memory source and the budget clock, is a parameter, on a state `W` that each call may change.
pub mod Slice
pub mod Tick
pub mod Sweep
pub mod UnderWay
pub mod Started
pub mod Passes
pub mod Progress
pub mod Detection
pub mod Null
pub mod Summary
pub mod Tests
use ca1_health_monitor.Prelude.{
  ℕ, zero, suc, ◌+◌, ◌*◌, ℤ, pos, negsuc, ◌-ℤ◌, ◌+ℤ◌, leb_ℤ, ltb_ℤ, max_ℤ, min_ℤ, neg_part,
  pos_part, sub_ℕ, String, Bool, true, false, not, ◌&&◌, Option, none, some, List, [], ◌∷◌, refl,
  Result, raised, returned, ◌>>=◌, if◌then◌else◌, ltb,
}
use ca1_health_monitor.Prelude.Crc.{crc32}
use ca1_health_monitor.Prelude.Text.{same, concat}
use ca1_health_monitor.Prelude.Text.Format.{show_ℕ, show_ℤ}
use ca1_health_monitor.Common.Timer
use ca1_health_monitor.Common.Timer.{
  IntervalTimer, TimerTick, TimerConfigurationError, mark_serviced,
}
use ca1_health_monitor.Common.Types.{
  int, Payload, Exception, HealthState, ok, degraded, fault, CheckResult,
}
use ca1_health_monitor.Bus.{MessageBus}
use ca1_health_monitor.Config.{MemoryCheckConfig}
use ca1_health_monitor.Checks.Base
use ca1_health_monitor.Checks.Base.{PeriodicCheck, Check, result}

abbrev pub check_id : String
check_id = "ram"

abbrev pub page_bytes : ℤ
page_bytes = pos 4096

pub record EccCounters : Type 0 where
  pub correctable : ℤ
  pub uncorrectable : ℤ

-- The protocol `MemorySource`, and the budget clock. The methods of a source may raise.
pub record MemorySource (W : Type 0) : Type 0 where
  pub read_page : ℤ → ℤ → W → Result Exception (List ℕ) × W
  pub expected_checksum : ℤ → ℤ → W → Result Exception ℕ × W
  pub ecc_counters : W → Result Exception EccCounters × W
  pub budget_clock : W → ℤ × W

pub record MemoryIntegrityCheck (W : Type 0) : Type 0 where
  pub base : PeriodicCheck
  pub config : MemoryCheckConfig
  pub platform : W
  pub cursor : ℤ
  pub pass_index : ℕ
  pub mismatches_this_pass : ℕ
  pub pages_this_pass : ℕ
  pub baseline : Option EccCounters

-- The assignments of `__init__`.
abbrev pub assembled : {W : Type 0} → MemoryCheckConfig → W → IntervalTimer → MemoryIntegrityCheck W
assembled config platform timer = record {
  base = Base.new timer;
  config = config;
  platform = platform;
  cursor = pos 0;
  pass_index = 0;
  mismatches_this_pass = 0;
  pages_this_pass = 0;
  baseline = none;
}

-- `MemoryIntegrityCheck.__init__`, with a source; `clock` is the reading for the timer
unfoldable pub new :
    {W : Type 0}
    → MemoryCheckConfig
    → W
    → ℤ
    → Result TimerConfigurationError (MemoryIntegrityCheck W)
new config platform clock = do
  timer ← Timer.new config.scan_period_s none clock "ram-sweep" true
  returned (assembled config platform timer)

-- A state with failure: what was changed before an exception stays changed.
abbrev pub M : Type 0 → Type 0 → Type 0
M W A = MemoryIntegrityCheck W → Result Exception A × MemoryIntegrityCheck W

abbrev pub continue :
    {W A B : Type 0}
    → Result Exception A
    → MemoryIntegrityCheck W
    → (A → M W B)
    → Result Exception B × MemoryIntegrityCheck W
continue (raised e) c f = (raised e, c)
continue (returned a) c f = f a c

abbrev pub bind : {W A B : Type 0} → M W A → (A → M W B) → M W B
bind m f c = let (r, c') = m c in continue r c' f

-- A call of the source or the clock.
abbrev pub call : {W A : Type 0} → (W → Result Exception A × W) → M W A
call f c = let (r, w) = f c.platform in (r, record c { platform = w })
