-- ===== src/Service/Loop.antt =====
-- One round of the loop of `run` in service.py, by the outcome of its tests.
use ca1_health_monitor.Prelude.{
  if_true, if_false, ℕ, ◌+◌, ◌≤◌, ◌<◌, ℤ, pos, leb_ℤ, leb, if◌then◌else◌, not, true, false, Option,
  none, List, [], ◌∷◌, ◌≡◌, refl, arith, ap, ◌∙◌,
}
use ca1_health_monitor.Service.{HealthMonitorService, step, sleep_budget}
use ca1_health_monitor.Service.Run.{Round, reached, slept, signal_received, run_loop}

-- No signal arrives in the round.
abbrev pub IsQuiet : Round → Type 0
IsQuiet r = r.signalled ≡ false

-- The rounds until a signal arrives, with the one in which the first does; all of them if none does.
abbrev pub until_signal : List Round → ℕ
until_signal [] = 0
until_signal (r ∷ rest) = let later = until_signal rest in if r.signalled then 1 else later + 1

abbrev pub lesser : ℕ → ℕ → ℕ
lesser a b = if leb a b then a else b

pub until_signal-positive : (r : Round) (rest : List Round) → 1 ≤ until_signal (r ∷ rest)
until_signal-positive r rest = ground arith

pub meets_limit : (n i m : ℕ) → i < n → n ≤ i + 1 → 1 ≤ m → i + 1 ≡ lesser n (i + m)
meets_limit n i m h k l = ground arith

pub below_limit : (n i : ℕ) → i + 1 < n → i + 1 ≡ lesser n (i + 1)
below_limit n i h = ground arith

pub was_reached : (n i : ℕ) → leb_ℤ (pos n) (pos i) ≡ true → n ≤ i
was_reached n i h = ground arith

pub not_reached : (n i : ℕ) → leb_ℤ (pos n) (pos i) ≡ false → i < n
not_reached n i h = ground arith

module _ {T : Type 0} where
  -- What a step changes of the loop's own state.
  pub step_keeps :
      (clock : ℕ → ℤ) (now : Option ℤ) (s : HealthMonitorService T)
      → let s' = (step clock now s).1 in
        (s'.running ≡ s.running) × (s'.iterations ≡ s.iterations + 1) × (s'.config ≡ s.config)
  unfolding step
  step_keeps clock now s = (refl, refl, refl)

  -- The loop, by the outcome of its tests.
  pub loop_off :
      (limit : Option ℤ) (rounds : List Round) (s : HealthMonitorService T)
      → s.running ≡ false
      → run_loop limit rounds s ≡ record { ended = true; sleeps = []; service = s }
  unfolding run_loop
  loop_off limit [] s off = ap (λ b. record { ended = not b; sleeps = []; service = s }) off
  loop_off limit (r ∷ rest) s off = if_true (not s.running) _ _ (ap not off)

  pub loop_reached :
      (limit : Option ℤ) (r : Round) (rest : List Round) (s : HealthMonitorService T)
      → s.running ≡ true
      → let s' = (step r.clock none s).1 in
        reached limit s'.iterations ≡ true
        → run_loop limit (r ∷ rest) s ≡ record { ended = true; sleeps = []; service = s' }
  unfolding run_loop
  loop_reached limit r rest s on h =
      if_false (not s.running) _ _ (ap not on)
      ∙ if_true (reached limit (step r.clock none s).1.iterations) _ _ h

  pub loop_more :
      (limit : Option ℤ) (r : Round) (rest : List Round) (s : HealthMonitorService T)
      → s.running ≡ true
      → let s' = (step r.clock none s).1 in
        let later = run_loop limit rest (signal_received r.signalled s') in
        reached limit s'.iterations ≡ false
        → run_loop limit (r ∷ rest) s
          ≡ record later { sleeps = slept (sleep_budget r.sleep_clock s') later.sleeps }
  unfolding run_loop
  loop_more limit r rest s on h =
      if_false (not s.running) _ _ (ap not on)
      ∙ if_false (reached limit (step r.clock none s).1.iterations) _ _ h

  pub stopped :
      (limit : Option ℤ) (r : Round) (rest : List Round) (s : HealthMonitorService T)
      → r.signalled ≡ true
      → run_loop limit rest (signal_received r.signalled s)
        ≡ record { ended = true; sleeps = []; service = record s { running = false } }
  stopped limit r rest s e =
      ap (λ b. run_loop limit rest (signal_received b s)) e
      ∙ loop_off limit rest (record s { running = false }) refl

  pub resumed :
      (limit : Option ℤ) (r : Round) (rest : List Round) (s : HealthMonitorService T)
      → r.signalled ≡ false
      → run_loop limit rest (signal_received r.signalled s) ≡ run_loop limit rest s
  resumed limit r rest s e = ap (λ b. run_loop limit rest (signal_received b s)) e
