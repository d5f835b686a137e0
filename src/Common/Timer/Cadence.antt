-- ===== src/Common/Timer/Cadence.antt =====
-- The cadence of interval_timer.py: construction, when a slot is due, how it is counted and kept.
use ca1_health_monitor.Prelude.{
  ℕ, ℤ, pos, ◌+◌, ◌*◌, ◌≤◌, ◌<◌, ◌+ℤ◌, ◌-ℤ◌, ◌≤ℤ◌, ◌<ℤ◌, leb_ℤ, floor_div, -ℤ_parts, +ℤ_parts,
  int_laws, String, Bool, true, false, Option, none, some, List, [], ◌∷◌, ◌≡◌, ◌↔◌, ◌⊎◌, arith,
  returned, Bool-cases, pos_part, ◌-◌, ◌/◌, ◌%◌, if◌then◌else◌, refl, List, [], ◌∷◌, max_ℤ,
  leb_ℤ_iff, negsuc, inl, inr,
}
use native.Mathlib.Nat.{div-add-mod', le-div_iff_mul-le, mod-lt}
use ca1_health_monitor.Common.Timer.{
  IntervalTimer, IsConfigured, IsPositive, fresh, new, reading, poll, mark_serviced, refresh,
  seconds_until_due,
}

module _ (period clock : ℤ) (name : String) (start_due : Bool) where
  new-fresh :
      (expiry : Option ℤ)
      → pos 0 <ℤ period
      → IsPositive expiry
      → new period expiry clock name start_due ≡ returned (fresh period expiry clock name start_due)
  unfolding new
  new-fresh none h k = ground arith
  new-fresh (some x) h k = ground arith

  -- The only timer that construction returns, and what it asks of its arguments.
  pub new-inversion :
      (expiry : Option ℤ) (t : IntervalTimer)
      → new period expiry clock name start_due ≡ returned t
      → (pos 0 <ℤ period) × IsPositive expiry × (t ≡ fresh period expiry clock name start_due)
  unfolding new
  new-inversion none t h = ground arith
  new-inversion (some x) t h = ground arith

  -- Construction succeeds exactly when the period is positive and the expiry, if given, is too.
  pub new_iff :
      (expiry : Option ℤ)
      → ((t : IntervalTimer) × (new period expiry clock name start_due ≡ returned t))
        ↔ ((pos 0 <ℤ period) × IsPositive expiry)
  new_iff expiry = (
    λ (t, e). let (h, k, _) = new-inversion expiry t e in (h, k),
    λ (h, k). (fresh period expiry clock name start_due, new-fresh expiry h k),
  )

fresh-due :
    (period : ℤ) (expiry : Option ℤ) (clock : ℤ) (name : String) (start_due : Bool)
    → pos 0 <ℤ period
    → (poll (fresh period expiry clock name start_due) clock none).due ≡ start_due
unfolding poll
fresh-due period expiry clock name true h =
    ground (arith, -ℤ_parts clock period, -ℤ_parts clock (clock -ℤ period))
fresh-due period expiry clock name false h = ground (arith, -ℤ_parts clock clock)

-- A new timer is configured, and its first poll at the same instant is due exactly if asked for.
pub new-IsConfigured :
    (period : ℤ) (expiry : Option ℤ) (clock : ℤ) (name : String) (start_due : Bool)
    (t : IntervalTimer)
    → new period expiry clock name start_due ≡ returned t
    → IsConfigured t × ((poll t clock none).due ≡ start_due)
new-IsConfigured period expiry clock name start_due t h =
    let (p, k, e) = new-inversion period clock name start_due expiry t h in
    rw e (
      record { period_positive = p; expiry_positive = k },
      fresh-due period expiry clock name start_due p,
    )

max_ℤ-zero : (x : ℤ) → pos 0 ≤ℤ x → max_ℤ (pos 0) x ≡ x
max_ℤ-zero x h = ground arith

pos_part_mono : (a b : ℤ) → a ≤ℤ b → pos_part a ≤ pos_part b
pos_part_mono a b h = ground arith

module _ (t : IntervalTimer) (clock : ℤ) (now : Option ℤ) where
  pub due_iff :
      ((poll t clock now).due ≡ true) ↔ (t.last_service +ℤ t.period_s ≤ℤ reading clock now)
  unfolding poll
  due_iff =
      ground
        (arith, -ℤ_parts (reading clock now) t.last_service, +ℤ_parts t.last_service t.period_s)

  -- When due, `overdue_by` is what has passed since the scheduled instant; otherwise it is 0, and
  -- so are the missed slots.
  pub overdue_by_lem :
      let tick = poll t clock now in
      ((tick.due ≡ true) × (t.last_service +ℤ t.period_s +ℤ tick.overdue_by ≡ tick.now))
      ⊎ ((tick.due ≡ false) × (tick.overdue_by ≡ pos 0) × (tick.missed_slots ≡ pos 0))
  unfolding poll
  overdue_by_lem = elim (Bool-cases (leb_ℤ t.period_s elapsed)) [
    | inl h ↦ inl (
      h,
      rw (h, max_ℤ-zero (elapsed -ℤ t.period_s) (ground (arith, -ℤ_parts elapsed t.period_s)))
          (omega int_laws),
    )
    | inr h ↦ inr (h, rw h, rw h)
  ]
    where
      elapsed : ℤ
      elapsed = reading clock now -ℤ t.last_service

  -- The poll is due `d` later exactly if `seconds_until_due` is at most `d`.
  pub seconds_until_due_exact :
      (d : ℤ)
      → pos 0 ≤ℤ d
      → ((poll t clock (some (reading clock now +ℤ d))).due ≡ true)
        ↔ (seconds_until_due t clock now ≤ℤ d)
  unfolding poll seconds_until_due
  seconds_until_due_exact d h = ground (
    arith,
    -ℤ_parts (reading clock now +ℤ d) t.last_service,
    +ℤ_parts (reading clock now) d,
    -ℤ_parts (reading clock now) t.last_service,
    -ℤ_parts t.period_s (reading clock now -ℤ t.last_service),
  )

div_bounds : (e p : ℕ) → 0 < p → p ≤ e → ((e / p - 1 + 1) * p ≤ e) × (e < (e / p - 1 + 2) * p)
div_bounds e p h k =
    let r : e / p * p + e % p ≡ e = div-add-mod' e p in
    let q : 0 < e / p = (le-div_iff_mul-le h).1 (omega arith) in
    let m : e % p < p = mod-lt e h in
    let g : e / p - 1 + 1 ≡ e / p = omega arith in
    let g' : e / p - 1 + 2 ≡ e / p + 1 = omega arith in (rw g (omega arith), rw g' (omega arith))

missed_slots_pos :
    (e p : ℤ)
    → pos 0 <ℤ p
    → p ≤ℤ e
    → max_ℤ (pos 0) (floor_div e p -ℤ pos 1) ≡ pos (pos_part e / pos_part p - 1)
unfolding floor_div ◌-ℤ◌
missed_slots_pos (pos e) (pos p) h k = ground arith
missed_slots_pos (negsuc e) (pos p) h k = absurd (omega arith)
missed_slots_pos e (negsuc p) h k = absurd (omega arith)

-- `missed_slots` counts the whole periods that passed unserviced, but for the one that is due.
pub missed_slots_lem :
    (t : IntervalTimer) (clock : ℤ) (now : Option ℤ)
    → IsConfigured t
    → let tick = poll t clock now in
      tick.due ≡ true
      → (k : ℕ) × (tick.missed_slots ≡ pos k)
        × ((k + 1) * pos_part t.period_s ≤ pos_part tick.elapsed_since_service)
        × (pos_part tick.elapsed_since_service < (k + 2) * pos_part t.period_s)
unfolding poll
missed_slots_lem t clock now c d =
    let elapsed = reading clock now -ℤ t.last_service in
    let h : t.period_s ≤ℤ elapsed = (leb_ℤ_iff t.period_s elapsed).0 d in
    let p : 0 < pos_part t.period_s = omega (arith, c.period_positive) in
    let k : pos_part t.period_s ≤ pos_part elapsed = pos_part_mono t.period_s elapsed h in
    (
      pos_part elapsed / pos_part t.period_s - 1,
      rw (d) (missed_slots_pos elapsed t.period_s c.period_positive h),
      (div_bounds _ _ p k).0,
      (div_bounds _ _ p k).1,
    )

-- Acknowledging a slot anchors the next one a period later, and leaves the expiry alone.
pub mark_serviced_lem :
    (t : IntervalTimer) (clock : ℤ) (at : Option ℤ) (clock' : ℤ) (now : Option ℤ)
    → let before = poll t clock' now in
      let after = poll (mark_serviced t clock at) clock' now in
      ((after.due ≡ true) ↔ (reading clock at +ℤ t.period_s ≤ℤ reading clock' now))
      × (after.expired ≡ before.expired)
      × (after.time_since_refresh ≡ before.time_since_refresh)
unfolding mark_serviced poll
mark_serviced_lem t clock at clock' now =
    (due_iff (mark_serviced t clock at) clock' now, refl, refl)

-- A refresh leaves every cadence field of the tick alone.
pub refresh_keeps_cadence :
    (t : IntervalTimer) (clock : ℤ) (at : Option ℤ) (clock' : ℤ) (now : Option ℤ)
    → let before = poll t clock' now in
      let after = poll (refresh t clock at) clock' now in
      (after.due ≡ before.due)
      × (after.overdue_by ≡ before.overdue_by)
      × (after.missed_slots ≡ before.missed_slots)
      × (after.elapsed_since_service ≡ before.elapsed_since_service)
unfolding refresh poll
refresh_keeps_cadence t clock at clock' now = (refl, refl, refl, refl)

-- The instants at which a caller runs who polls at the given instants and acknowledges each due slot.
pub service_times : IntervalTimer → List ℤ → List ℤ
service_times t [] = []
service_times t (now ∷ rest) =
    let due = (poll t now none).due in
    let later = service_times (if due then mark_serviced t now none else t) rest in
    if due then now ∷ later else later

-- Each instant is at least `gap` after the one before, the first at least `gap` after `last`.
abbrev pub IsSpaced : ℤ → ℤ → List ℤ → Type 0
IsSpaced gap last [] = Unit
IsSpaced gap last (x ∷ xs) = (last +ℤ gap ≤ℤ x) × IsSpaced gap x xs

-- Whatever the polls, two runs of a check are at least a period apart.
pub service_times-IsSpaced :
    (t : IntervalTimer) (readings : List ℤ)
    → IsSpaced t.period_s t.last_service (service_times t readings)
unfolding service_times mark_serviced
service_times-IsSpaced t [] = tt
service_times-IsSpaced t (now ∷ rest) = elim (Bool-cases (poll t now none).due) [
  | inl d ↦
      rw d ((due_iff t now none).0 d, service_times-IsSpaced (record t { last_service = now }) rest)
  | inr d ↦ rw d (service_times-IsSpaced t rest)
]
