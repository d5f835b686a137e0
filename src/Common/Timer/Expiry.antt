-- ===== src/Common/Timer/Expiry.antt =====
-- The expiry window of interval_timer.py.
use ca1_health_monitor.Prelude.{
  ℤ, ◌+ℤ◌, ◌≤ℤ◌, ◌<ℤ◌, -ℤ_parts, +ℤ_parts, true, false, Option, none, some, List, [], ◌∷◌, ◌≡◌, ◌↔◌,
  arith, All, int_laws,
}
use ca1_health_monitor.Common.Timer.{IntervalTimer, poll, reading, mark_serviced, refresh, reset}

-- Without a window the expiry fields are inert.
pub expiry_disabled :
    (t : IntervalTimer) (clock : ℤ) (now : Option ℤ)
    → t.expiry_s ≡ none
    → let tick = poll t clock now in
      (tick.expiry_enabled ≡ false) × (tick.expired ≡ false) × (tick.time_since_refresh ≡ none)
unfolding poll
expiry_disabled t clock now e = ground arith

pub expired_iff :
    (t : IntervalTimer) (clock : ℤ) (now : Option ℤ) (window : ℤ)
    → t.expiry_s ≡ some window
    → ((poll t clock now).expired ≡ true) ↔ (t.last_refresh +ℤ window <ℤ reading clock now)
unfolding poll
expired_iff t clock now window e =
    ground (arith, -ℤ_parts (reading clock now) t.last_refresh, +ℤ_parts t.last_refresh window)

-- The calls that change a timer, each with what it reads.
pub data Call : Type 0 where
  marks refreshes resets : ℤ → Call

pub apply : IntervalTimer → Call → IntervalTimer
apply t (marks at) = mark_serviced t at none
apply t (refreshes at) = refresh t at none
apply t (resets at) = reset t at none

pub run : IntervalTimer → List Call → IntervalTimer
run t [] = t
run t (c ∷ cs) = run (apply t c) cs

abbrev pub instant : Call → ℤ
instant (marks at) = at
instant (refreshes at) = at
instant (resets at) = at

-- The calls are in the order of a clock that does not run backwards, from `start`.
abbrev pub InOrder : ℤ → List Call → Type 0
InOrder start [] = Unit
InOrder start (c ∷ cs) = (start ≤ℤ instant c) × InOrder (instant c) cs

-- The call was no sighting of the watched event within the window before `now`.
abbrev pub OutOfWindow : ℤ → ℤ → Call → Type 0
OutOfWindow window now (marks at) = Unit
OutOfWindow window now (refreshes at) = at +ℤ window <ℤ now
OutOfWindow window now (resets at) = at +ℤ window <ℤ now

still_out :
    (t : IntervalTimer) (at window now start : ℤ)
    → t.last_refresh ≤ℤ start
    → start ≤ℤ at
    → at +ℤ window <ℤ now
    → t.last_refresh +ℤ window <ℤ now
still_out t at window now start h k l = omega int_laws

-- After any calls in the order of time, a timer with a window has expired exactly if its last
-- refresh at the start, and every refresh or reset among them, is longer ago than the window.
pub expired_after_run :
    (t : IntervalTimer) (calls : List Call) (start window now : ℤ)
    → t.expiry_s ≡ some window
    → t.last_refresh ≤ℤ start
    → InOrder start calls
    → ((poll (run t calls) now none).expired ≡ true)
      ↔ ((t.last_refresh +ℤ window <ℤ now) × All (OutOfWindow window now) calls)
unfolding run apply mark_serviced refresh reset
expired_after_run t [] start window now e h o =
    let both = expired_iff t now none window e in (λ x. (both.0 x, tt), λ x. both.1 x.0)
expired_after_run t (marks at ∷ cs) start window now e h o =
    let (to, from) =
      expired_after_run (record t { last_service = at }) cs at window now e (omega arith) o.1 in
    (λ x. ((to x).0, (tt, (to x).1)), λ x. from (x.0, x.1.1))
expired_after_run t (refreshes at ∷ cs) start window now e h o =
    let (to, from) =
      expired_after_run (record t { last_refresh = at }) cs at window now e (omega arith) o.1 in
    (λ x. (still_out t at window now start h o.0 (to x).0, to x), λ x. from x.1)
expired_after_run t (resets at ∷ cs) start window now e h o =
    let (to, from) =
      expired_after_run (record t { last_service = at; last_refresh = at }) cs at window now e
        (omega arith) o.1 in
    (λ x. (still_out t at window now start h o.0 (to x).0, to x), λ x. from x.1)
