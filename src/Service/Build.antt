-- ===== src/Service/Build.antt =====
-- `build_checks` of service.py: the objects of the checks, and that a validated configuration
-- constructs them all.
use ca1_health_monitor.Prelude.{
  ℕ, ◌+◌, ℤ, String, List, [], ◌∷◌, ◌++◌, ◌≡◌, refl, Result, returned, ◌>>=◌, if◌then◌else◌, ap,
  ◌∙◌,
}
use ca1_health_monitor.Common.Timer.{TimerConfigurationError}
use ca1_health_monitor.Bus.{Message, MessageBus}
use ca1_health_monitor.Config.{
  ServiceConfig, MemoryCheckConfig, StorageCheckConfig, HeartbeatCheckConfig,
}
use ca1_health_monitor.Checks.Base.{Check}
use ca1_health_monitor.Checks.Memory
use ca1_health_monitor.Checks.Memory.Tick.{check as memory}
use ca1_health_monitor.Checks.Memory.Null.{null_source}
use ca1_health_monitor.Checks.Memory.{MemoryIntegrityCheck}
use ca1_health_monitor.Checks.Storage
use ca1_health_monitor.Checks.Storage.Filesystem.{Os, probe}
use ca1_health_monitor.Checks.Storage.{StorageHealthCheck}
use ca1_health_monitor.Checks.Heartbeat
use ca1_health_monitor.Checks.Heartbeat.Tick.{check as heartbeat}
use ca1_health_monitor.Checks.Heartbeat.{HeartbeatCheck}
use ca1_health_monitor.Checks.Heartbeat.Receive.{attach}

-- Where the three checks live. The field of a check that is not enabled is never looked at.
pub record Objects (M S : Type 0) : Type 0 where
  pub memory : MemoryIntegrityCheck M
  pub storage : StorageHealthCheck S
  pub heartbeat : HeartbeatCheck

-- A check on its own field of the store.
unfoldable pub in_store :
    {T C : Type 0} (get : T → C) (set : T → C → T)
    → ((t : T) (c : C) → get (set t c) ≡ c)
    → Check T C
    → Check T T
in_store get set law k = record {
  check_id = k.check_id;
  base = λ t. k.base (get t);
  with_base = λ t b. set t (k.with_base (get t) b);
  on_tick =
      λ tick t bus. let (outcome, c, bus') = k.on_tick tick (get t) bus in (outcome, set t c, bus');
  base-with_base = λ t b. ap k.base (law t (k.with_base (get t) b)) ∙ k.base-with_base (get t) b;
}

module _ {M S : Type 0} (budget : M → ℤ × M) (os : Os S) where
  -- The service gives no memory source and no probe, so the checks take `NullMemorySource` and
  -- `FilesystemProbe`.
  abbrev pub Built : Type 0
  Built = List (Check (Objects M S) (Objects M S)) × Objects M S

  unfoldable pub memory_check : Check (Objects M S) (Objects M S)
  unfolding in_store
  memory_check =
      in_store (λ t. t.memory) (λ t c. record t { memory = c }) (λ t c. refl)
        (memory (null_source budget))

  unfoldable pub storage_check : Check (Objects M S) (Objects M S)
  unfolding in_store
  storage_check =
      in_store (λ t. t.storage) (λ t c. record t { storage = c }) (λ t c. refl) Storage.check

  unfoldable pub heartbeat_check : Check (Objects M S) (Objects M S)
  unfolding in_store
  heartbeat_check =
      in_store (λ t. t.heartbeat) (λ t c. record t { heartbeat = c }) (λ t c. refl) heartbeat

  -- The `if` of each check: what is appended to the list, and the object it constructs.
  unfoldable pub build_memory :
      MemoryCheckConfig → M → ℤ → Objects M S → Result TimerConfigurationError Built
  build_memory config platform clock t =
      if config.enabled
      then (Memory.new config platform clock >>= λ c.
          returned (memory_check ∷ [], record t { memory = c }))
      else returned ([], t)

  unfoldable pub build_storage :
      StorageCheckConfig → S → ℤ → Objects M S → Result TimerConfigurationError Built
  build_storage config mounts clock t =
      if config.enabled
      then (Storage.new config (probe os) mounts clock >>= λ c.
          returned (storage_check ∷ [], record t { storage = c }))
      else returned ([], t)

  unfoldable pub build_heartbeat :
      HeartbeatCheckConfig → String → (ℕ → ℤ) → Objects M S → Result TimerConfigurationError Built
  build_heartbeat config instance_id clock t =
      if config.enabled
      then (Heartbeat.new config instance_id clock >>= λ c.
          returned (heartbeat_check ∷ [], record t { heartbeat = c }))
      else returned ([], t)

  -- The loop over `attach`: the checks but the heartbeat's have the base class's, which does nothing.
  unfoldable pub attach_all :
      ServiceConfig
      → (Message → Objects M S → ℤ)
      → MessageBus (Objects M S)
      → MessageBus (Objects M S)
  attach_all config clock bus =
      if config.heartbeat.enabled
      then attach (λ t. t.heartbeat) (λ t c. record t { heartbeat = c }) clock bus
      else bus

  -- `build_checks`. `platform` and `mounts` are the states at the construction; `t` is the store
  -- before it; the clock reads `clock 0` for the sweep, `clock 1` for the scan, and the rest for the
  -- timers of the heartbeat.
  unfoldable pub build_checks :
      ServiceConfig
      → M
      → S
      → (ℕ → ℤ)
      → (Message → Objects M S → ℤ)
      → Objects M S
      → MessageBus (Objects M S)
      → Result TimerConfigurationError (Built × MessageBus (Objects M S))
  unfolding build_memory build_storage build_heartbeat attach_all
  build_checks config platform mounts clock heard t bus = do
    (ms, t₁) ← build_memory config.memory platform (clock 0) t
    (ss, t₂) ← build_storage config.storage mounts (clock 1) t₁
    (hs, t₃) ← build_heartbeat config.heartbeat config.instance_id (λ i. clock (i + 2)) t₂
    returned ((ms ++ ss ++ hs, t₃), attach_all config heard bus)
