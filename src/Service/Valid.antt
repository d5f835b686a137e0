-- ===== src/Service/Valid.antt =====
-- `build_checks` of service.py on a validated configuration.
use ca1_health_monitor.Prelude.{
  if_true, ℕ, suc, ◌+◌, ℤ, pos, ◌<ℤ◌, String, Bool, true, false, none, some, List, [], ◌∷◌, ◌++◌,
  ◌≡◌, refl, arith, returned, All, if◌then◌else◌, ap, subst, sym, ◌∙◌, Bool-cases, inl, inr,
}
use ca1_health_monitor.Prelude.Dict.{Dict, put}
use ca1_health_monitor.Prelude.Text.{append}
use ca1_health_monitor.Common.Timer.Cadence.{new_iff}
use ca1_health_monitor.Bus.{Message, MessageBus}
use ca1_health_monitor.Config.{
  ServiceConfig, MemoryCheckConfig, StorageCheckConfig, HeartbeatCheckConfig,
}
use ca1_health_monitor.Config.Validate.{validate}
use ca1_health_monitor.Config.Rules.{MemoryRules, StorageRules, HeartbeatRules, validate_iff}
use ca1_health_monitor.Checks.Base.{Check}
use ca1_health_monitor.Checks.Memory.Started.{IsStarted, memory_new}
use ca1_health_monitor.Checks.Storage
use ca1_health_monitor.Checks.Storage.Filesystem.{Os, probe}
use ca1_health_monitor.Checks.Storage.{StorageProbe, StorageHealthCheck}
use ca1_health_monitor.Checks.Storage.Scans.{IsScanning}
use ca1_health_monitor.Checks.Heartbeat
use ca1_health_monitor.Checks.Heartbeat.{HeartbeatCheck, PeerRecord, new_peer, new_peers}
use ca1_health_monitor.Checks.Heartbeat.Registered.{IsWatching, IsFresh, new-IsWatching}
use ca1_health_monitor.Service.Build.{
  Objects, in_store, memory_check, storage_check, heartbeat_check, build_memory, build_storage,
  build_heartbeat, attach_all, build_checks,
}

abbrev pub ids : {T : Type 0} → List (Check T T) → List String
ids [] = []
ids (k ∷ rest) = k.check_id ∷ ids rest

ids-append : {T : Type 0} (xs ys : List (Check T T)) → ids (xs ++ ys) ≡ ids xs ++ ids ys
ids-append [] ys = refl
ids-append (x ∷ xs) ys = ap (λ l. x.check_id ∷ l) (ids-append xs ys)

abbrev pub if_enabled : Bool → String → List String
if_enabled enabled id = if enabled then id ∷ [] else []

new_peers_returns :
    (config : HeartbeatCheckConfig) (clock : ℕ → ℤ) (i : ℕ) (peers : List String)
    (made : Dict PeerRecord)
    → pos 0 <ℤ config.emit_period_s
    → pos 0 <ℤ config.peer_timeout_s
    → (found : Dict PeerRecord) × (new_peers config clock i peers made ≡ returned found)
unfolding new_peers
new_peers_returns config clock i [] made h k = (made, refl)
new_peers_returns config clock i (p ∷ rest) made h k =
    let (t, built) =
      (new_iff config.emit_period_s (clock i) (append "peer-" p) false
          (some config.peer_timeout_s)).1
        (h, k) in
    let (found, others) =
      new_peers_returns config clock (suc i) rest (put p (new_peer p t) made) h k in
    (found, rw built others)

storage_new :
    {S : Type 0} (config : StorageCheckConfig) (probe : StorageProbe S) (mounts : S) (clock : ℤ)
    → StorageRules config
    → (c : StorageHealthCheck S) × (Storage.new config probe mounts clock ≡ returned c)
      × IsScanning config probe c
unfolding Storage.new Storage.assembled
storage_new config probe mounts clock rules =
    let (timer, built) =
      (new_iff config.scan_period_s clock "disk-scan" true none).1 (rules.0, tt) in
    (
      Storage.assembled config probe mounts timer,
      rw built refl,
      record { configured = refl; probed = refl },
    )

heartbeat_new :
    (config : HeartbeatCheckConfig) (instance_id : String) (clock : ℕ → ℤ)
    → HeartbeatRules config
    → (c : HeartbeatCheck) × (Heartbeat.new config instance_id clock ≡ returned c)
unfolding Heartbeat.new
heartbeat_new config instance_id clock rules =
    let (timer, built) =
      (new_iff config.emit_period_s (clock 0) "heartbeat-emit" true none).1 (rules.0, tt) in
    let (peers, others) =
      new_peers_returns config clock 1 config.peers [] rules.0 (omega (arith, rules)) in
    (Heartbeat.assembled config instance_id timer peers, rw (built, others) refl)

module _ {M S : Type 0} (budget : M → ℤ × M) (os : Os S) where
  memory_builds :
      (config : MemoryCheckConfig) (platform : M) (clock : ℤ) (t : Objects M S)
      → MemoryRules config
      → (l : List (Check (Objects M S) (Objects M S))) × (u : Objects M S) × (build_memory budget os
            config platform clock t
          ≡ returned (l, u))
        × (ids l ≡ if_enabled config.enabled "ram")
        × (config.enabled ≡ true → IsStarted config u.memory)
  unfolding build_memory memory_check in_store
  memory_builds config platform clock t rules = elim (Bool-cases config.enabled) [
    | inr off ↦ ([], t, rw off refl, rw off refl, λ on. absurd (ground arith))
    | inl on ↦
        let (c, built, fresh) = memory_new config platform clock rules in
        (
          memory_check budget os ∷ [],
          record t { memory = c },
          if_true config.enabled _ _ on ∙ rw built refl,
          rw on refl,
          λ _. fresh,
        )
  ]

  storage_builds :
      (config : StorageCheckConfig) (mounts : S) (clock : ℤ) (t : Objects M S)
      → StorageRules config
      → (l : List (Check (Objects M S) (Objects M S))) × (u : Objects M S) × (build_storage budget
            os config mounts clock t
          ≡ returned (l, u))
        × (ids l ≡ if_enabled config.enabled "disk")
        × (u.memory ≡ t.memory)
        × (config.enabled ≡ true → IsScanning config (probe os) u.storage)
  unfolding build_storage storage_check in_store
  storage_builds config mounts clock t rules = elim (Bool-cases config.enabled) [
    | inr off ↦ ([], t, rw off refl, rw off refl, refl, λ on. absurd (ground arith))
    | inl on ↦
        let (c, built, scanning) = storage_new config (probe os) mounts clock rules in
        (
          storage_check budget os ∷ [],
          record t { storage = c },
          if_true config.enabled _ _ on ∙ rw built refl,
          rw on refl,
          refl,
          λ _. scanning,
        )
  ]

  heartbeat_builds :
      (config : HeartbeatCheckConfig) (instance_id : String) (clock : ℕ → ℤ) (t : Objects M S)
      → HeartbeatRules config
      → (l : List (Check (Objects M S) (Objects M S))) × (u : Objects M S) × (build_heartbeat budget
            os config instance_id clock t
          ≡ returned (l, u))
        × (ids l ≡ if_enabled config.enabled "heartbeat")
        × (u.memory ≡ t.memory)
        × (u.storage ≡ t.storage)
        × (config.enabled ≡ true
            → IsWatching config u.heartbeat × All (IsFresh config clock) u.heartbeat.peers)
  unfolding build_heartbeat heartbeat_check in_store
  heartbeat_builds config instance_id clock t rules = elim (Bool-cases config.enabled) [
    | inr off ↦ ([], t, rw off refl, rw off refl, refl, refl, λ on. absurd (ground arith))
    | inl on ↦
        let (c, built) = heartbeat_new config instance_id clock rules in
        (
          heartbeat_check budget os ∷ [],
          record t { heartbeat = c },
          if_true config.enabled _ _ on ∙ rw built refl,
          rw on refl,
          refl,
          refl,
          λ _. new-IsWatching config instance_id clock c built,
        )
  ]

  -- A validated configuration constructs: no constructor raises, the checks are the enabled ones in
  -- their order; an enabled sweep has the configuration and is at the start of the pass with the
  -- number 0, without a baseline; an enabled heartbeat check has one new record for each configured
  -- peer and no other; and an enabled storage check has the configuration and `FilesystemProbe`.
  pub valid_builds :
      (config : ServiceConfig) (platform : M) (mounts : S) (clock : ℕ → ℤ)
      (heard : Message → Objects M S → ℤ) (t : Objects M S) (bus : MessageBus (Objects M S))
      → validate config ≡ returned tt
      → (checks : List (Check (Objects M S) (Objects M S))) × (u : Objects M S) × (build_checks
            budget os config platform mounts clock heard t bus
          ≡ returned ((checks, u), attach_all budget os config heard bus))
        × (ids checks
            ≡ if_enabled config.memory.enabled "ram"
              ++ if_enabled config.storage.enabled "disk"
              ++ if_enabled config.heartbeat.enabled "heartbeat")
        × (config.memory.enabled ≡ true → IsStarted config.memory u.memory)
        × (config.heartbeat.enabled ≡ true
            → IsWatching config.heartbeat u.heartbeat
              × All (IsFresh config.heartbeat (λ i. clock (i + 2))) u.heartbeat.peers)
        × (config.storage.enabled ≡ true → IsScanning config.storage (probe os) u.storage)
  unfolding build_checks
  valid_builds config platform mounts clock heard t bus valid =
      let rules = (validate_iff config).0 valid in
      let (l₁, t₁, m, i₁, fresh) = memory_builds config.memory platform (clock 0) t rules.1 in
      let (l₂, t₂, s, i₂, k₂, scanning) =
        storage_builds config.storage mounts (clock 1) t₁ rules.2 in
      let (l₃, t₃, h, i₃, k₃, kept, watching) =
        heartbeat_builds config.heartbeat config.instance_id (λ i. clock (i + 2)) t₂ rules.3 in
      (
        l₁ ++ l₂ ++ l₃,
        t₃,
        rw (m, s, h) refl,
        rw (ids-append (l₁ ++ l₂) l₃, ids-append l₁ l₂, i₁, i₂, i₃) refl,
        λ on. rw (k₃, k₂) (fresh on),
        watching,
        λ on. subst (IsScanning config.storage (probe os)) (sym kept) (scanning on),
      )
