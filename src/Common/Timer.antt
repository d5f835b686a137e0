-- ===== src/Common/Timer.antt =====
-- src/health_monitor/common/interval_timer.py. An instant or a duration is an integer number of
-- microseconds. A method takes what its call of the injected clock reads, and the optional `now`.
pub mod Cadence
pub mod Expiry
pub mod Tests
use ca1_health_monitor.Prelude.{
  ℤ, pos, ◌-ℤ◌, ◌<ℤ◌, leb_ℤ, ltb_ℤ, max_ℤ, floor_div, String, Bool, true, false, Option, none, some,
  if◌then◌else◌, Result, raised, returned,
}

-- `TimerConfigurationError`, with the rejected value that its message shows.
pub data TimerConfigurationError : Type 0 where
  period_not_positive expiry_not_positive : ℤ → TimerConfigurationError

pub record TimerTick : Type 0 where
  pub now : ℤ
  pub due : Bool
  pub elapsed_since_service : ℤ
  pub overdue_by : ℤ
  pub missed_slots : ℤ
  pub expiry_enabled : Bool
  pub expired : Bool
  pub time_since_refresh : Option ℤ

-- The clock and the lock are not in the record: see `reading`.
pub record IntervalTimer : Type 0 where
  pub period_s : ℤ
  pub expiry_s : Option ℤ
  pub name : String
  pub last_service : ℤ
  pub last_refresh : ℤ
  pub created_at : ℤ

-- `expiry_s is not None and expiry_s <= 0`
pub rejects_expiry : Option ℤ → Bool
rejects_expiry none = false
rejects_expiry (some e) = leb_ℤ e (pos 0)

abbrev given : Option ℤ → ℤ
given none = pos 0
given (some e) = e

-- The assignments of `__init__`; `clock` is the value that `clock()` returns.
abbrev pub fresh : ℤ → Option ℤ → ℤ → String → Bool → IntervalTimer
fresh period expiry clock name start_due = record {
  period_s = period;
  expiry_s = expiry;
  name = name;
  last_service = if start_due then clock -ℤ period else clock;
  last_refresh = clock;
  created_at = clock;
}

-- `IntervalTimer.__init__`
unfoldable pub new : ℤ → Option ℤ → ℤ → String → Bool → Result TimerConfigurationError IntervalTimer
unfolding rejects_expiry
new period expiry clock name start_due =
    if leb_ℤ period (pos 0)
    then raised (period_not_positive period)
    else if rejects_expiry expiry
    then raised (expiry_not_positive (given expiry))
    else returned (fresh period expiry clock name start_due)

-- The property `expiry_enabled`.
unfoldable pub expiry_enabled : IntervalTimer → Bool
expiry_enabled t = elim t.expiry_s [ none ↦ false | some _ ↦ true ]

-- `self._clock() if now is None else float(now)`
abbrev pub reading : ℤ → Option ℤ → ℤ
reading clock none = clock
reading clock (some now) = now

-- The fields in which the two `return` statements of `poll` differ.
abbrev pub is_expired : Option ℤ → ℤ → Bool
is_expired none gap = false
is_expired (some expiry) gap = ltb_ℤ expiry gap

abbrev pub gap_if_enabled : Option ℤ → ℤ → Option ℤ
gap_if_enabled none gap = none
gap_if_enabled (some _) gap = some gap

unfoldable pub poll : IntervalTimer → ℤ → Option ℤ → TimerTick
unfolding expiry_enabled
poll t clock now =
    let at = reading clock now in
    let elapsed = at -ℤ t.last_service in
    let is_due = leb_ℤ t.period_s elapsed in
    let gap = at -ℤ t.last_refresh in
    record {
      now = at;
      due = is_due;
      elapsed_since_service = elapsed;
      overdue_by = if is_due then max_ℤ (pos 0) (elapsed -ℤ t.period_s) else pos 0;
      missed_slots =
          if is_due then max_ℤ (pos 0) (floor_div elapsed t.period_s -ℤ pos 1) else pos 0;
      expiry_enabled = expiry_enabled t;
      expired = is_expired t.expiry_s gap;
      time_since_refresh = gap_if_enabled t.expiry_s gap;
    }

unfoldable pub mark_serviced : IntervalTimer → ℤ → Option ℤ → IntervalTimer
mark_serviced t clock now = record t { last_service = reading clock now }

unfoldable pub refresh : IntervalTimer → ℤ → Option ℤ → IntervalTimer
refresh t clock now = record t { last_refresh = reading clock now }

unfoldable pub reset : IntervalTimer → ℤ → Option ℤ → IntervalTimer
reset t clock now = record t { last_service = reading clock now; last_refresh = reading clock now }

unfoldable pub seconds_until_due : IntervalTimer → ℤ → Option ℤ → ℤ
seconds_until_due t clock now = max_ℤ (pos 0) (t.period_s -ℤ (reading clock now -ℤ t.last_service))

-- What the constructor guarantees of a timer.
abbrev pub IsPositive : Option ℤ → Type 0
IsPositive none = Unit
IsPositive (some e) = pos 0 <ℤ e

pub record IsConfigured (t : IntervalTimer) : Type 0 where
  pub period_positive : pos 0 <ℤ t.period_s
  pub expiry_positive : IsPositive t.expiry_s
