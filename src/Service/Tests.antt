-- ===== src/Service/Tests.antt =====
-- Runs of service.py and instances of its theorems: the default configuration over the stand-in for
-- the memory and over mounts that answer.
use ca1_health_monitor.Prelude.{
  ℕ, ℤ, Bool, false, ◌+◌, pos, ◌-ℤ◌, ◌≤ℤ◌, true, none, some, List, [], ◌∷◌, length, ◌≡◌, ◌⊎◌, refl,
  arith, returned,
}
use ca1_health_monitor.Common.Timer.{fresh, seconds_until_due}
use ca1_health_monitor.Bus
use ca1_health_monitor.Bus.{Message, MessageBus, max_queue_depth}
use ca1_health_monitor.Config.{default_config, default_memory, default_storage, default_heartbeat}
use ca1_health_monitor.Config.Tests.{defaults_accepted}
use ca1_health_monitor.Checks.Base.{Check, new}
use ca1_health_monitor.Checks.Memory
use ca1_health_monitor.Checks.Storage
use ca1_health_monitor.Checks.Storage.Filesystem.{Os, probe}
use ca1_health_monitor.Checks.Heartbeat
use ca1_health_monitor.Service.{HealthMonitorService, sleep_budget}
use ca1_health_monitor.Service.Build.{
  Objects, build_checks, attach_all, storage_check, heartbeat_check, in_store,
}
use ca1_health_monitor.Service.Run.{Round, run}
use ca1_health_monitor.Service.Stops.{run_bounded, run_signalled}
use ca1_health_monitor.Service.Valid.{ids, valid_builds}
use ca1_health_monitor.Service.Steps.{AllDue, AnyDue, sleep_budget_lem}

-- A budget clock that goes on with each reading.
abbrev pub reads_clock : ℕ → ℤ × ℕ
reads_clock w = (pos w, w + 100)

-- An operating system whose calls all succeed.
abbrev pub works : Os ℕ
works = record {
  disk_usage = λ mount w. (returned (record { total = 1_000_000; free = 500_000 }), w);
  mkstemp = λ mount w. (returned (3, "/data/.hm-probe-1"), w);
  fdopen = λ fd w. (returned fd, w);
  write = λ handle bytes w. (returned tt, w);
  flush = λ handle w. (returned tt, w);
  fsync = λ handle w. (returned tt, w);
  close = λ handle w. (returned tt, w);
  unlink = λ path w. (returned tt, w);
  strerror = λ n. "";
  latency_clock = λ w. (pos w, w + 1);
}

abbrev pub store : Objects ℕ ℕ
store = record {
  memory = Memory.assembled default_memory 0 (fresh (pos 5_000_000) none (pos 0) "ram-sweep" true);
  storage =
      Storage.assembled default_storage (probe works) 0
        (fresh (pos 30_000_000) none (pos 0) "disk-scan" true);
  heartbeat =
      Heartbeat.assembled default_heartbeat "hm-0"
        (fresh (pos 1_000_000) none (pos 0) "heartbeat-emit" true) [];
}

abbrev pub empty_bus : MessageBus (Objects ℕ ℕ)
empty_bus = Bus.new "health-monitor" max_queue_depth

abbrev running : HealthMonitorService (Objects ℕ ℕ)
running = record {
  config = default_config;
  bus = empty_bus;
  checks = storage_check reads_clock works ∷ heartbeat_check reads_clock works ∷ [];
  objects = store;
  running = true;
  iterations = 0;
  started_at = some (pos 0);
}

valid_builds_example :
    (checks : List (Check (Objects ℕ ℕ) (Objects ℕ ℕ))) × (u : Objects ℕ ℕ) × (build_checks
        reads_clock works default_config 0 0
        (λ _. pos 0)
        (λ _ _. pos 0)
        store
        empty_bus
      ≡ returned
          ((checks, u), attach_all reads_clock works default_config (λ _ _. pos 0) empty_bus))
    × (ids checks ≡ "ram" ∷ "disk" ∷ "heartbeat" ∷ [])
valid_builds_example =
    let (checks, u, built, order, _, _, _) =
      valid_builds reads_clock works default_config 0 0 (λ _. pos 0) (λ _ _. pos 0) store empty_bus
        defaults_accepted in
    (checks, u, built, order)

-- The heartbeat is due at once, so there is no sleep.
no_sleep : sleep_budget (λ _. pos 10_000_000) running ≡ pos 0
unfolding sleep_budget storage_check heartbeat_check in_store seconds_until_due ◌-ℤ◌
    Storage.assembled new
no_sleep = refl

sleep_budget_example :
    let b = sleep_budget (λ _. pos 10_000_000) running in
    (pos 0 ≤ℤ b)
    × (b ≤ℤ pos 250_000)
    × AllDue (λ d. b ≤ℤ d) (λ _. pos 10_000_000) 0 running.checks store
    × ((b ≡ pos 250_000) ⊎ AnyDue (λ d. b ≡ d) (λ _. pos 10_000_000) 0 running.checks store)
sleep_budget_example = sleep_budget_lem (λ _. pos 10_000_000) running (omega arith)

-- A round at an instant, in which a signal arrives or not.
abbrev pub round_at : ℤ → Bool → Round
round_at t signalled = record { clock = λ _. t; sleep_clock = λ _. t; signalled = signalled }

run_bounded_example :
    let rounds = round_at (pos 10_000_000) false ∷ round_at (pos 11_000_000) false ∷ [] in
    let p = run (some (pos 2)) (pos 9_000_000) (pos 12_000_000) (pos 12_000_000) rounds running in
    (p.ended ≡ true) × (p.service.running ≡ false) × (p.service.iterations ≡ 2)
run_bounded_example =
    let (ended, off, _, _, all, _) =
      run_bounded (pos 9_000_000) (pos 12_000_000) (pos 12_000_000) running 2
        (round_at (pos 10_000_000) false ∷ round_at (pos 11_000_000) false ∷ []) (omega arith)
        (omega arith) in
    (ended, off, all (refl, (refl, tt)))

run_signalled_example :
    let rounds = round_at (pos 10_000_000) false ∷ round_at (pos 11_000_000) true ∷ [] in
    let p = run none (pos 9_000_000) (pos 12_000_000) (pos 12_000_000) rounds running in
    (p.ended ≡ true)
    × (p.service.running ≡ false)
    × (p.service.iterations ≡ 0 + (length (round_at (pos 10_000_000) false ∷ []) + 1))
run_signalled_example =
    run_signalled (pos 9_000_000) (pos 12_000_000) (pos 12_000_000) running
      (round_at (pos 10_000_000) false ∷ []) (round_at (pos 11_000_000) true) [] (refl, tt) refl
