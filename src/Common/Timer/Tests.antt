-- ===== src/Common/Timer/Tests.antt =====
-- Runs of interval_timer.py and instances of its theorems.
use ca1_health_monitor.Prelude.{
  ℕ, ◌+◌, ◌*◌, ◌≤◌, ◌<◌, pos, pos_part, ◌≤ℤ◌, ◌<ℤ◌, ◌+ℤ◌, ◌-ℤ◌, floor_div, true, false, none, some,
  [], ◌∷◌, ◌≡◌, ◌↔◌, refl, arith, raised, All,
}
use ca1_health_monitor.Common.Timer.{
  IntervalTimer, period_not_positive, IsConfigured, fresh, new, poll, mark_serviced, refresh,
}
use ca1_health_monitor.Common.Timer.Cadence.{
  new-IsConfigured, missed_slots_lem, mark_serviced_lem, refresh_keeps_cadence, service_times,
  IsSpaced, service_times-IsSpaced,
}
use ca1_health_monitor.Common.Timer.Expiry.{
  expiry_disabled, marks, refreshes, run, OutOfWindow, expired_after_run,
}

-- A period of two seconds and a window of three, made at ten seconds.
abbrev watched : IntervalTimer
watched = fresh (pos 2_000_000) (some (pos 3_000_000)) (pos 10_000_000) "peer-a" false

abbrev plain : IntervalTimer
plain = fresh (pos 2_000_000) none (pos 10_000_000) "plain" false

watched-IsConfigured : IsConfigured watched
watched-IsConfigured = record { period_positive = omega arith; expiry_positive = omega arith }

poll_late : poll watched (pos 17_000_000) none ≡ record {
  now = pos 17_000_000;
  due = true;
  elapsed_since_service = pos 7_000_000;
  overdue_by = pos 5_000_000;
  missed_slots = pos 2;
  expiry_enabled = true;
  expired = true;
  time_since_refresh = some (pos 7_000_000);
}
unfolding poll ◌-ℤ◌ floor_div
poll_late = refl

bad_period : new (pos 0) none (pos 1) "t" true ≡ raised (period_not_positive (pos 0))
unfolding new
bad_period = refl

new-IsConfigured_example : IsConfigured watched × ((poll watched (pos 10_000_000) none).due ≡ false)
unfolding new
new-IsConfigured_example =
    new-IsConfigured (pos 2_000_000) (some (pos 3_000_000)) (pos 10_000_000) "peer-a" false watched
      refl

missed_slots_example :
    (k : ℕ) × ((poll watched (pos 17_000_000) none).missed_slots ≡ pos k)
    × ((k + 1) * 2_000_000 ≤ pos_part (poll watched (pos 17_000_000) none).elapsed_since_service)
    × (pos_part (poll watched (pos 17_000_000) none).elapsed_since_service < (k + 2) * 2_000_000)
unfolding poll ◌-ℤ◌
missed_slots_example = missed_slots_lem watched (pos 17_000_000) none watched-IsConfigured refl

mark_serviced_example :
    ((poll (mark_serviced watched (pos 12_000_000) none) (pos 13_000_000) none).due ≡ true)
    ↔ (pos 12_000_000 +ℤ pos 2_000_000 ≤ℤ pos 13_000_000)
mark_serviced_example = (mark_serviced_lem watched (pos 12_000_000) none (pos 13_000_000) none).0

refresh_keeps_cadence_example :
    (poll (refresh watched (pos 12_000_000) none) (pos 13_000_000) none).due
    ≡ (poll watched (pos 13_000_000) none).due
refresh_keeps_cadence_example =
    (refresh_keeps_cadence watched (pos 12_000_000) none (pos 13_000_000) none).0

service_times-IsSpaced_example :
    IsSpaced
      (pos 2_000_000)
      (pos 10_000_000)
      (service_times watched (pos 11_000_000 ∷ pos 12_500_000 ∷ pos 14_000_000 ∷ []))
service_times-IsSpaced_example =
    service_times-IsSpaced watched (pos 11_000_000 ∷ pos 12_500_000 ∷ pos 14_000_000 ∷ [])

expiry_disabled_example : (poll plain (pos 99_000_000) none).expired ≡ false
expiry_disabled_example = (expiry_disabled plain (pos 99_000_000) none refl).1

expired_after_run_example :
    ((poll
        (run watched (refreshes (pos 11_000_000) ∷ marks (pos 12_000_000) ∷ []))
        (pos 14_500_000)
        none).expired
      ≡ true)
    ↔ ((pos 10_000_000 +ℤ pos 3_000_000 <ℤ pos 14_500_000)
        × All
            (OutOfWindow (pos 3_000_000) (pos 14_500_000))
            (refreshes (pos 11_000_000) ∷ marks (pos 12_000_000) ∷ []))
expired_after_run_example =
    expired_after_run watched (refreshes (pos 11_000_000) ∷ marks (pos 12_000_000) ∷ [])
      (pos 10_000_000) (pos 3_000_000) (pos 14_500_000) refl (omega arith) (omega arith)
