-- ===== src/Service/Run.antt =====
-- `run`, `_shutdown` and `request_stop` of service.py. The loop is given its rounds: what the clock
-- reads in each, and whether a signal arrives in it.
use ca1_health_monitor.Prelude.{
  ℕ, ℤ, pos, ◌-ℤ◌, leb_ℤ, ltb_ℤ, Bool, true, false, not, Option, none, some, List, [], ◌∷◌,
  if◌then◌else◌,
}
use ca1_health_monitor.Bus.{drain, drain_limit, stop}
use ca1_health_monitor.Service.{HealthMonitorService, step, sleep_budget, publish_status}

pub record Round : Type 0 where
  pub clock : ℕ → ℤ
  pub sleep_clock : ℕ → ℤ
  pub signalled : Bool

-- The state of the loop after its rounds: whether it has ended, and how long it slept each time.
pub record Progress (T : Type 0) : Type 0 where
  pub ended : Bool
  pub sleeps : List ℤ
  pub service : HealthMonitorService T

-- `max_iterations is not None and self._iterations >= max_iterations`
abbrev pub reached : Option ℤ → ℕ → Bool
reached none iterations = false
reached (some n) iterations = leb_ℤ n (pos iterations)

-- `if budget > 0: time.sleep(budget)`, by the time slept
abbrev pub slept : ℤ → List ℤ → List ℤ
slept budget later = if ltb_ℤ (pos 0) budget then budget ∷ later else later

-- `self._started_at is None`
abbrev pub uptime : Option ℤ → ℤ → ℤ
uptime none clock = pos 0
uptime (some started_at) clock = clock -ℤ started_at

module _ {T : Type 0} where
  -- `request_stop`
  abbrev pub request_stop : HealthMonitorService T → HealthMonitorService T
  request_stop s = record s { running = false }

  -- What a signal does in a round, through the handler.
  abbrev pub signal_received : Bool → HealthMonitorService T → HealthMonitorService T
  signal_received true s = request_stop s
  signal_received false s = s

  -- The loop of `run`.
  unfoldable pub run_loop : Option ℤ → List Round → HealthMonitorService T → Progress T
  run_loop max_iterations [] s = record { ended = not s.running; sleeps = []; service = s }
  run_loop max_iterations (r ∷ rest) s =
      let s' = (step r.clock none s).1 in
      let budget = sleep_budget r.sleep_clock s' in
      let later = run_loop max_iterations rest (signal_received r.signalled s') in
      if not s.running
      then record { ended = true; sleeps = []; service = s }
      else if reached max_iterations s'.iterations
      then record { ended = true; sleeps = []; service = s' }
      else record later { sleeps = slept budget later.sleeps }

  -- `_shutdown`; the clock reads `clock` for the uptime and `status_clock` for the message.
  unfoldable pub shutdown : ℤ → ℤ → HealthMonitorService T → HealthMonitorService T
  shutdown clock status_clock s =
      let s' = publish_status status_clock (uptime s.started_at clock) (request_stop s) in
      let (_, bus, objects) = drain drain_limit s'.bus s'.objects in
      let (bus', objects') = stop bus objects in record s' { bus = bus'; objects = objects' }

  abbrev pub finally : ℤ → ℤ → Progress T → Progress T
  finally clock status_clock p =
      if p.ended then record p { service = shutdown clock status_clock p.service } else p

  -- `run`, as far as the rounds go
  unfoldable pub run : Option ℤ → ℤ → ℤ → ℤ → List Round → HealthMonitorService T → Progress T
  unfolding run_loop shutdown
  run max_iterations start clock status_clock rounds s =
      finally clock status_clock
        (run_loop max_iterations rounds (record s { running = true; started_at = some start }))
