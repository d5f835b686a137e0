-- ===== src/Service/Exits.antt =====
-- The exit codes of `main` in service.py.
use ca1_health_monitor.Prelude.{
  leb, not, if_true, or-true, ℕ, ◌≤◌, ◌<◌, ℤ, pos, true, Option, none, some, Bool-cases, length,
  All, raised, returned, ◌≡◌, ◌⊎◌, inl, inr, refl, ap, ◌∙◌, arith,
}
use ca1_health_monitor.Bus
use ca1_health_monitor.Bus.{max_queue_depth}
use ca1_health_monitor.Config.{ServiceConfig}
use ca1_health_monitor.Config.Validate.{ConfigError}
use ca1_health_monitor.Config.Rules.{validate_iff}
use ca1_health_monitor.Config.Coerce.{refused, crashed, outside, Loaded}
use ca1_health_monitor.Config.Load.{load}
use ca1_health_monitor.Config.Strict.{load-Rules}
use ca1_health_monitor.Checks.Storage.Filesystem.{Os}
use ca1_health_monitor.Service.{HealthMonitorService}
use ca1_health_monitor.Service.Build.{Objects, attach_all}
use ca1_health_monitor.Service.Valid.{valid_builds}
use ca1_health_monitor.Service.Run.{run}
use ca1_health_monitor.Logging.Extra.{AllReserved}
use ca1_health_monitor.Logging.Startup.{describe-taken}
use ca1_health_monitor.Logging.Setup.{Library, configure_lem}
use ca1_health_monitor.Service.Loop.{IsQuiet}
use ca1_health_monitor.Service.Stops.{run_bounded}
use ca1_health_monitor.Service.Main.{
  Arguments, World, Outcome, exits, quits, uncaught, unmodelled, serving, assembled, exit_code,
  configured, logs_configuration, start_up, serve, loaded, main,
}

module _ {M S : Type 0} (budget : M → ℤ × M) (os : Os S) where
  abbrev pub loading : Arguments → World M S → Loaded ServiceConfig
  loading args w = load w.repr args.config (w.read args.config) w.environ

  -- Logging the configuration does not raise.
  logs :
      (c : ServiceConfig) (w : World M S) (l : Library)
      → AllReserved w.attributes
      → logs_configuration budget os c w l ≡ true
  unfolding logs_configuration
  logs c w l r =
      let taken = describe-taken w.attributes c r in
      rw (logs_configuration, taken) (or-true (not (leb l.level 20)))

  -- A configuration that has been loaded is served.
  loaded_serves :
      (args : Arguments) (w : World M S) (c : ServiceConfig)
      → AllReserved w.attributes
      → loading args w ≡ returned c
      → (s : HealthMonitorService (Objects M S)) × (s.iterations ≡ 0)
        × (main budget os args w
            ≡ exit_code budget os
                (configured budget os c w)
                (run args.max_iterations w.start w.stop w.status w.rounds s))
  unfolding main loaded start_up serve assembled
  loaded_serves args w c r h =
      let rules = (load-Rules w.repr args.config (w.read args.config) w.environ c h).0 in
      let (checks, u, built, _, _, _, _) =
        valid_builds budget os c w.platform w.mounts w.clock w.heard w.store
          (Bus.new c.service_name max_queue_depth) ((validate_iff c).1 rules) in
      (
        assembled budget os c
            ((checks, u), attach_all budget os c w.heard (Bus.new c.service_name max_queue_depth)),
        refl,
        ap (loaded budget os args.max_iterations w) h
            ∙ if_true (logs_configuration budget os c w (configured budget os c w)) _ _
                (logs c w (configured budget os c w) r)
            ∙ ap (serve budget os c args.max_iterations w (configured budget os c w)) built,
      )

  abbrev pub code : Outcome M S → Option ℕ
  code (exits n l s) = some n
  code (quits n l) = some n
  code (uncaught e) = none
  code (unmodelled path) = none
  code (serving l s) = none

  runs_code :
      (limit : Option ℤ) (w : World M S) (l : Library) (s : HealthMonitorService (Objects M S))
      (n : ℕ)
      → code (exit_code budget os l (run limit w.start w.stop w.status w.rounds s)) ≡ some n
      → n ≡ 0
  unfolding exit_code
  runs_code limit w l s n h =
      elim (Bool-cases (run limit w.start w.stop w.status w.rounds s).ended) [
        | inl e ↦ cc (rw (exit_code, e) at h)
        | inr e ↦ absurd (cc (rw (exit_code, e) at h))
      ]

  ended :
      (args : Arguments) (w : World M S) (l : Loaded ServiceConfig)
      → AllReserved w.attributes
      → loading args w ≡ l
      → (n : ℕ) → code (main budget os args w) ≡ some n
      → ((n ≡ 2) × ((e : ConfigError) × (loading args w ≡ raised (refused e))))
        ⊎ ((n ≡ 0) × ((c : ServiceConfig) × (loading args w ≡ returned c)))
  unfolding main loaded
  ended args w (raised (refused e)) r h n k = inl (cc (rw (main, h) at k), (e, h))
  ended args w (raised (crashed e)) r h n k = absurd (cc (rw (main, h) at k))
  ended args w (raised (outside path)) r h n k = absurd (cc (rw (main, h) at k))
  ended args w (returned c) r h n k =
      let (s, fresh, e) = loaded_serves args w c r h in
      inr (runs_code args.max_iterations w (configured budget os c w) s n (rw e at k), (c, h))

  -- The program exits with a code only in two ways: with 2 after a `ConfigError`, or with 0 after a
  -- configuration has been loaded and the loop has ended. So 3, which the code has for a check that
  -- cannot be constructed, is never the exit code; and every `ConfigError` ends in exit code 2.
  pub main_exits :
      (args : Arguments) (w : World M S)
      → AllReserved w.attributes
      → ((n : ℕ)
          → code (main budget os args w) ≡ some n
          → ((n ≡ 2) × ((e : ConfigError) × (loading args w ≡ raised (refused e))))
            ⊎ ((n ≡ 0) × ((c : ServiceConfig) × (loading args w ≡ returned c))))
        × ((e : ConfigError)
            → loading args w ≡ raised (refused e)
            → code (main budget os args w) ≡ some 2)
  unfolding main loaded
  main_exits args w r = (λ n h. ended args w (loading args w) r refl n h, λ e h. rw (main, h) refl)

  -- Given a file with an accepted configuration, a limit of at least one iteration and rounds enough,
  -- the program exits with 0, after at most as many iterations, and after as many if no signal
  -- arrives.
  pub main_returns :
      (args : Arguments) (w : World M S) (c : ServiceConfig) (n : ℕ)
      → AllReserved w.attributes
      → loading args w ≡ returned c
      → args.max_iterations ≡ some (pos n)
      → 0 < n
      → n ≤ length w.rounds
      → (s : HealthMonitorService (Objects M S)) × (main budget os args w
          ≡ exits 0 (configured budget os c w) s)
        × (length (configured budget os c w).handlers ≡ 1)
        × (s.iterations ≤ n)
        × (All IsQuiet w.rounds → s.iterations ≡ n)
  unfolding exit_code configured
  main_returns args w c n r h limit some_rounds enough =
      let (s, fresh, e) = loaded_serves args w c r h in
      let (ended, _, most, _, all, _) =
        run_bounded w.start w.stop w.status s n w.rounds (omega (arith, fresh))
          (omega (arith, fresh)) in
      (
        (run (some (pos n)) w.start w.stop w.status w.rounds s).service,
        e
            ∙ ap
                (λ l.
                  exit_code budget os (configured budget os c w)
                    (run l w.start w.stop w.status w.rounds s))
                limit
            ∙ if_true (run (some (pos n)) w.start w.stop w.status w.rounds s).ended _ _ ended,
        ap length
            (configure_lem c.logging.level c.logging.format c.service_name c.instance_id
              c.logging.include_monotonic none w.handler w.library).0,
        most,
        all,
      )
