-- ===== src/Common/Types/Laws.antt =====
-- The severity ladder, the counters and the payloads of types.py.
use ca1_health_monitor.Prelude.{
  ℕ, ◌+◌, ◌≤◌, Option, none, some, List, [], ◌∷◌, ◌≡◌, ◌↔◌, arith, refl, pos, length, +ℤ-zero, ◌⊎◌,
  inl,
}
use ca1_health_monitor.Common.Types.{
  none_value, HealthState, ok, degraded, fault, unknown, severity, max_state, CheckResult,
  CheckStats, record_run, state_value,
}

pub max_state-severity :
    (a b : HealthState)
    → (severity a ≤ severity (max_state a b)) × (severity b ≤ severity (max_state a b))
unfolding max_state
max_state-severity a b = ground arith

-- Results recorded one after the other, as `service` does.
unfoldable pub record_all : CheckStats → List CheckResult → CheckStats
record_all s [] = s
record_all s (r ∷ rest) = record_all (record_run s (some r) (pos 0)) rest

-- How often a state stands among results.
unfoldable pub occurrences : (HealthState → ℕ) → List CheckResult → ℕ
occurrences counts [] = 0
occurrences counts (r ∷ rest) = counts r.state + occurrences counts rest

abbrev pub is_fault : HealthState → ℕ
is_fault fault = 1
is_fault ok = 0
is_fault degraded = 0
is_fault unknown = 0

abbrev pub is_degraded : HealthState → ℕ
is_degraded degraded = 1
is_degraded ok = 0
is_degraded fault = 0
is_degraded unknown = 0

record_run_counts :
    (s : CheckStats) (r : CheckResult)
    → let t = record_run s (some r) (pos 0) in
      (t.runs ≡ s.runs + 1)
      × (t.faults ≡ s.faults + is_fault r.state)
      × (t.degraded_runs ≡ s.degraded_runs + is_degraded r.state)
      × (t.skipped_slots ≡ s.skipped_slots)
unfolding record_run
record_run_counts s r = ground (arith, +ℤ-zero s.skipped_slots)

-- The counters count the recorded results, in all and by state; no slot counts as skipped.
pub record_all_counts :
    (s : CheckStats) (results : List CheckResult)
    → let t = record_all s results in
      (t.runs ≡ s.runs + length results)
      × (t.faults ≡ s.faults + occurrences is_fault results)
      × (t.degraded_runs ≡ s.degraded_runs + occurrences is_degraded results)
      × (t.skipped_slots ≡ s.skipped_slots)
unfolding record_all occurrences
record_all_counts s [] = (omega arith, omega arith, omega arith, refl)
record_all_counts s (r ∷ rest) =
    ground (arith, record_run_counts s r, record_all_counts (record_run s (some r) (pos 0)) rest)

-- The published `last_state` is null exactly if nothing was recorded or the last state was OK.
pub state_value_null :
    (s : Option HealthState) → (state_value s ≡ none_value) ↔ ((s ≡ none) ⊎ (s ≡ some ok))
unfolding state_value
state_value_null none = (λ _. inl refl, λ _. refl)
state_value_null (some s) = (ground arith, ground arith)
