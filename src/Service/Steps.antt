-- ===== src/Service/Steps.antt =====
-- One round of the control loop of service.py: what `step` returns, and how long `_sleep_budget`
-- lets the loop sleep.
use ca1_health_monitor.Prelude.{
  ℕ, suc, ◌+◌, ◌≤◌, ℤ, pos, ◌≤ℤ◌, min_ℤ, max_ℤ, Option, none, List, [], ◌∷◌, All, length, ◌≡◌, ◌⊎◌,
  inl, inr, refl, arith, ◌∙◌,
}
use ca1_health_monitor.Common.Timer.{IntervalTimer, seconds_until_due}
use ca1_health_monitor.Common.Types.{HealthState, ok, severity, max_state, CheckResult}
use ca1_health_monitor.Common.Types.Laws.{max_state-severity}
use ca1_health_monitor.Bus.{drain, drain_limit}
use ca1_health_monitor.Checks.Base.{Check}
use ca1_health_monitor.Service.{
  HealthMonitorService, tally, service_all, step, soonest_due, sleep_budget,
}

-- Some result has the state.
abbrev pub Some : HealthState → List CheckResult → Type 0
Some s [] = ⊥
Some s (r ∷ rest) = (r.state ≡ s) ⊎ Some s rest

abbrev pub AtMost : HealthState → CheckResult → Type 0
AtMost worst r = severity r.state ≤ severity worst

max_state-cases : (a b : HealthState) → (max_state a b ≡ a) ⊎ (max_state a b ≡ b)
unfolding max_state
max_state-cases a b = ground arith

tally_lem :
    (emitted : ℕ) (worst : HealthState) (results : List CheckResult)
    → let (n, w) = tally emitted worst results in
      (n ≡ emitted + length results)
      × (severity worst ≤ severity w)
      × All (AtMost w) results
      × ((w ≡ worst) ⊎ Some w results)
unfolding tally
tally_lem emitted worst [] = (omega arith, omega arith, tt, inl refl)
tally_lem emitted worst (r ∷ rest) =
    let (n, above, all, how) = tally_lem (emitted + 1) (max_state worst r.state) rest in
    let (p, q) = max_state-severity worst r.state in
    (
      omega (arith, n),
      omega (arith, above, p),
      (omega (arith, above, q), all),
      elim how [
        | inr later ↦ inr (inr later)
        | inl same ↦ elim (max_state-cases worst r.state) [
          | inl old ↦ inl (same ∙ old)
          | inr new ↦ inr (inl (cc (same, new)))
        ]
      ],
    )

seconds-nonnegative : (t : IntervalTimer) (clock : ℤ) → pos 0 ≤ℤ seconds_until_due t clock none
unfolding seconds_until_due
seconds-nonnegative t clock = ground arith

min_lem : (a b : ℤ) → (min_ℤ a b ≤ℤ a) × (min_ℤ a b ≤ℤ b) × ((min_ℤ a b ≡ a) ⊎ (min_ℤ a b ≡ b))
min_lem a b = ground arith

at_least : (a b : ℤ) → pos 0 ≤ℤ a → pos 0 ≤ℤ b → pos 0 ≤ℤ min_ℤ a b
at_least a b h k = ground arith

clamped : (a b : ℤ) → pos 0 ≤ℤ a → a ≤ℤ b → max_ℤ (pos 0) (min_ℤ a b) ≡ a
clamped a b h k = ground arith

module _ {T : Type 0} where
  -- What the checks return in a step.
  abbrev pub step_results : (ℕ → ℤ) → Option ℤ → HealthMonitorService T → List CheckResult
  step_results clock now s =
      let (_, bus, objects) = drain drain_limit s.bus s.objects in
      (service_all clock now 0 s.checks objects bus).0

  -- `step` counts the results of all checks, and `worst_state` is OK or the state of one of them and
  -- no result is more severe.
  pub step_telemetry :
      (clock : ℕ → ℤ) (now : Option ℤ) (s : HealthMonitorService T)
      → let (t, s') = step clock now s in
        let results = step_results clock now s in
        (t.results ≡ length results)
        × All (AtMost t.worst_state) results
        × ((t.worst_state ≡ ok) ⊎ Some t.worst_state results)
        × (s'.iterations ≡ s.iterations + 1)
  unfolding step
  step_telemetry clock now s =
      let (n, _, all, how) = tally_lem 0 ok (step_results clock now s) in
      (n ∙ omega arith, all, how, refl)

  -- A predicate on the waiting times of all checks, and of some check.
  abbrev pub AllDue : (ℤ → Type 0) → (ℕ → ℤ) → ℕ → List (Check T T) → T → Type 0
  AllDue P clock i [] objects = Unit
  AllDue P clock i (k ∷ rest) objects =
      P (seconds_until_due (k.base objects).timer (clock i) none)
      × AllDue P clock (suc i) rest objects

  abbrev pub AnyDue : (ℤ → Type 0) → (ℕ → ℤ) → ℕ → List (Check T T) → T → Type 0
  AnyDue P clock i [] objects = ⊥
  AnyDue P clock i (k ∷ rest) objects =
      P (seconds_until_due (k.base objects).timer (clock i) none)
      ⊎ AnyDue P clock (suc i) rest objects

  soonest_due_lem :
      (clock : ℕ → ℤ) (i : ℕ) (checks : List (Check T T)) (objects : T) (soonest : ℤ)
      → pos 0 ≤ℤ soonest
      → let b = soonest_due clock i checks objects soonest in
        (pos 0 ≤ℤ b)
        × (b ≤ℤ soonest)
        × AllDue (λ d. b ≤ℤ d) clock i checks objects
        × ((b ≡ soonest) ⊎ AnyDue (λ d. b ≡ d) clock i checks objects)
  unfolding soonest_due
  soonest_due_lem clock i [] objects soonest h = (h, omega arith, tt, inl refl)
  soonest_due_lem clock i (k ∷ rest) objects soonest h =
      let d = seconds_until_due (k.base objects).timer (clock i) none in
      let (p, q, which) = min_lem soonest d in
      let (low, high, all, how) =
        soonest_due_lem clock (suc i) rest objects (min_ℤ soonest d)
          (at_least soonest d h (seconds-nonnegative (k.base objects).timer (clock i))) in
      (
        low,
        omega (arith, high, p),
        (omega (arith, high, q), all),
        elim how [
          | inr later ↦ inr (inr later)
          | inl same ↦ elim which [ inl old ↦ inl (same ∙ old) | inr new ↦ inr (inl (same ∙ new)) ]
        ],
      )

  -- With a loop period that is not negative, the loop sleeps until the first check is due or for the
  -- loop period, whichever is sooner.
  pub sleep_budget_lem :
      (clock : ℕ → ℤ) (s : HealthMonitorService T)
      → pos 0 ≤ℤ s.config.loop_period_s
      → let b = sleep_budget clock s in
        (pos 0 ≤ℤ b)
        × (b ≤ℤ s.config.loop_period_s)
        × AllDue (λ d. b ≤ℤ d) clock 0 s.checks s.objects
        × ((b ≡ s.config.loop_period_s) ⊎ AnyDue (λ d. b ≡ d) clock 0 s.checks s.objects)
  unfolding sleep_budget
  sleep_budget_lem clock s h =
      let lem = soonest_due_lem clock 0 s.checks s.objects s.config.loop_period_s h in
      rw
        (clamped (soonest_due clock 0 s.checks s.objects s.config.loop_period_s)
          s.config.loop_period_s lem.0 lem.1)
        lem
