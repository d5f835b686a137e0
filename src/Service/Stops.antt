-- ===== src/Service/Stops.antt =====
-- When the loop of service.py stops, and how long it sleeps.
use ca1_health_monitor.Prelude.{
  if_true, ℕ, ◌+◌, ◌≤◌, ◌<◌, ℤ, pos, true, false, none, some, List, [], ◌∷◌, ◌++◌, All, length, ◌≡◌,
  inl, inr, refl, arith, ap, ◌∙◌, Bool-cases,
}
use ca1_health_monitor.Service.{HealthMonitorService, step, publish_status}
use ca1_health_monitor.Service.Run.{Round, Progress, reached, run_loop, shutdown, finally, run}
use ca1_health_monitor.Service.Loop.{
  IsQuiet, until_signal, lesser, until_signal-positive, meets_limit, below_limit, was_reached,
  not_reached, step_keeps, loop_reached, loop_more, stopped, resumed,
}

module _ {T : Type 0} where
  -- A loop that is to stop after `n` rounds and is given them does so, earlier only for a signal.
  loop_bounded :
      (n : ℕ) (rounds : List Round) (s : HealthMonitorService T)
      → s.running ≡ true
      → s.iterations < n
      → n ≤ s.iterations + length rounds
      → let p = run_loop (some (pos n)) rounds s in
        (p.ended ≡ true)
        × (p.service.iterations ≤ n)
        × (s.iterations < p.service.iterations)
        × (All IsQuiet rounds → p.service.iterations ≡ n)
        × (p.service.iterations ≡ lesser n (s.iterations + until_signal rounds))
  loop_bounded n [] s on below enough = absurd (omega (arith, below, enough))
  loop_bounded n (r ∷ rest) s on below enough =
      let s' = (step r.clock none s).1 in
      let (still, counted, _) = step_keeps r.clock none s in
      elim (Bool-cases (reached (some (pos n)) s'.iterations)) [
        | inl done ↦
            let there : n ≤ s'.iterations = was_reached n s'.iterations done in
            rw (loop_reached (some (pos n)) r rest s on done) (
              refl,
              omega (arith, counted, below),
              omega (arith, counted),
              λ _. omega (arith, counted, below, there),
              counted
                  ∙ meets_limit n s.iterations (until_signal (r ∷ rest)) below
                      (omega (arith, counted, there)) (until_signal-positive r rest),
            )
        | inr not_yet ↦
            let on_the_way : s'.iterations < n = not_reached n s'.iterations not_yet in
            elim (Bool-cases r.signalled) [
              | inl e ↦
                  rw
                    (
                      loop_more (some (pos n)) r rest s on not_yet,
                      stopped (some (pos n)) r rest s' e,
                    )
                    (
                      refl,
                      omega (arith, on_the_way),
                      omega (arith, counted),
                      λ q. absurd (ground (arith, e, q.0)),
                      counted
                          ∙ below_limit n s.iterations (omega (arith, counted, on_the_way))
                          ∙ rw e refl,
                    )
              | inr e ↦
                  let (ended, most, more, all, exact) =
                    loop_bounded n rest s' (still ∙ on) on_the_way
                      (omega (arith, counted, enough)) in
                  rw
                    (
                      loop_more (some (pos n)) r rest s on not_yet,
                      resumed (some (pos n)) r rest s' e,
                    )
                    (
                      ended,
                      most,
                      omega (arith, counted, more),
                      λ q. all q.1,
                      exact ∙ ap (lesser n) (rw e (omega (arith, counted))),
                    )
            ]
      ]

  -- A signal ends the loop after the round in which it arrives.
  loop_signalled :
      (before : List Round) (r : Round) (after : List Round) (s : HealthMonitorService T)
      → s.running ≡ true
      → All IsQuiet before
      → r.signalled ≡ true
      → let p = run_loop none (before ++ r ∷ after) s in
        (p.ended ≡ true) × (p.service.iterations ≡ s.iterations + (length before + 1))
  loop_signalled [] r after s on quiet e =
      let s' = (step r.clock none s).1 in
      let (_, counted, _) = step_keeps r.clock none s in
      rw (loop_more none r after s on refl, stopped none r after s' e)
        (refl, omega (arith, counted))
  loop_signalled (q ∷ before) r after s on quiet e =
      let s' = (step q.clock none s).1 in
      let (still, counted, _) = step_keeps q.clock none s in
      let (ended, all) = loop_signalled before r after s' (still ∙ on) quiet.1 e in
      rw
        (
          loop_more none q (before ++ r ∷ after) s on refl,
          resumed none q (before ++ r ∷ after) s' quiet.0,
        )
        (ended, omega (arith, counted, all))

  finally_lem :
      (clock status_clock : ℤ) (p : Progress T)
      → p.ended ≡ true
      → let q = finally clock status_clock p in
        (q.ended ≡ true)
        × (q.service.running ≡ false)
        × (q.service.iterations ≡ p.service.iterations)
  unfolding shutdown publish_status
  finally_lem clock status_clock p e =
      rw (if_true p.ended (record p { service = shutdown clock status_clock p.service }) p e)
        (e, refl, refl)

  module _ (start clock status_clock : ℤ) (s : HealthMonitorService T) where
    -- A service that is to stop at `n` iterations, has done fewer and is given the rounds for them
    -- stops, after at least one more: at the end of the round in which the first signal arrives, or
    -- at `n` iterations if these are fewer, and so at `n` if no signal arrives.
    pub run_bounded :
        (n : ℕ) (rounds : List Round)
        → s.iterations < n
        → n ≤ s.iterations + length rounds
        → let p = run (some (pos n)) start clock status_clock rounds s in
          (p.ended ≡ true)
          × (p.service.running ≡ false)
          × (p.service.iterations ≤ n)
          × (s.iterations < p.service.iterations)
          × (All IsQuiet rounds → p.service.iterations ≡ n)
          × (p.service.iterations ≡ lesser n (s.iterations + until_signal rounds))
    unfolding run
    run_bounded n rounds below enough =
        let s₀ = record s { running = true; started_at = some start } in
        let (ended, most, more, all, exact) = loop_bounded n rounds s₀ refl below enough in
        let (e, off, same) =
          finally_lem clock status_clock (run_loop (some (pos n)) rounds s₀) ended in
        (
          e,
          off,
          omega (arith, same, most),
          omega (arith, same, more),
          λ q. same ∙ all q,
          same ∙ exact,
        )

    -- Without a limit the service runs until a signal arrives: it finishes the round in which the
    -- first one does, and stops.
    pub run_signalled :
        (before : List Round) (r : Round) (after : List Round)
        → All IsQuiet before
        → r.signalled ≡ true
        → let p = run none start clock status_clock (before ++ r ∷ after) s in
          (p.ended ≡ true)
          × (p.service.running ≡ false)
          × (p.service.iterations ≡ s.iterations + (length before + 1))
    unfolding run
    run_signalled before r after quiet e =
        let s₀ = record s { running = true; started_at = some start } in
        let (ended, all) = loop_signalled before r after s₀ refl quiet e in
        let (done, off, same) =
          finally_lem clock status_clock (run_loop none (before ++ r ∷ after) s₀) ended in
        (done, off, same ∙ all)
