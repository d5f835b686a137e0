-- ===== src/Checks/Heartbeat/Registered.antt =====
-- The peers that `__init__` of heartbeat.py registers.
use ca1_health_monitor.Prelude.{
  ℕ, suc, ℤ, String, true, false, none, some, List, [], ◌∷◌, ◌≡◌, refl, arith, All, Mem-All,
  returned, ap, subst, >>=-returned, returned-injective, ◌>>=◌,
}
use mathlib.Core.List.{Memᴰ}
use ca1_health_monitor.Prelude.Dict.{
  Dict, put, All-put, IsPresent, put-IsPresent, get-put_self, Distinct, put-Distinct,
}
use ca1_health_monitor.Prelude.Text.{append}
use ca1_health_monitor.Common.Timer
use ca1_health_monitor.Common.Timer.{
  IntervalTimer, IsConfigured, refresh, poll, TimerConfigurationError, fresh,
}
use ca1_health_monitor.Common.Timer.Cadence.{new-inversion}
use ca1_health_monitor.Config.{HeartbeatCheckConfig}
use ca1_health_monitor.Checks.Heartbeat.{
  PeerRecord, HeartbeatCheck, new_peer, new_peers, assembled, new,
}

-- A peer's record is under its own name, which is a configured one, and its timer has the
-- configured period and window.
pub record IsWatched (config : HeartbeatCheckConfig) (entry : String × PeerRecord) : Type 0 where
  pub named : entry.1.name ≡ entry.0
  pub member : Memᴰ entry.0 config.peers
  pub period : entry.1.timer.period_s ≡ config.emit_period_s
  pub window : entry.1.timer.expiry_s ≡ some config.peer_timeout_s

-- There is one record for each configured peer, and no other.
pub record IsWatching (config : HeartbeatCheckConfig) (c : HeartbeatCheck) : Type 0 where
  pub configured : c.config ≡ config
  pub watched : All (IsWatched config) c.peers
  pub present : All (λ n. IsPresent n c.peers) config.peers
  pub distinct : Distinct c.peers

-- The record of a peer at its construction, when the clock reads the instant.
abbrev pub fresh_peer : HeartbeatCheckConfig → ℤ → String → PeerRecord
fresh_peer config instant name =
    new_peer name
      (fresh config.emit_period_s (some config.peer_timeout_s) instant (append "peer-" name) false)

-- The record is as at its construction, at a reading of the clock.
abbrev pub IsFresh : HeartbeatCheckConfig → (ℕ → ℤ) → String × PeerRecord → Type 0
IsFresh config clock (k, r) = (i : ℕ) × (r ≡ fresh_peer config (clock i) k)

module _ (config : HeartbeatCheckConfig) where
  new_peers-inversion :
      (clock : ℕ → ℤ) (i : ℕ) (name : String) (rest : List String) (made peers : Dict PeerRecord)
      → new_peers config clock i (name ∷ rest) made ≡ returned peers
      → new_peers config clock (suc i) rest (put name (fresh_peer config (clock i) name) made)
        ≡ returned peers
  unfolding new_peers
  new_peers-inversion clock i name rest made peers e =
      let (timer, built, more) =
        >>=-returned
          (Timer.new config.emit_period_s (some config.peer_timeout_s) (clock i)
            (append "peer-" name) false)
          (λ timer. new_peers config clock (suc i) rest (put name (new_peer name timer) made)) e in
      let (_, _, same) =
        new-inversion config.emit_period_s (clock i) (append "peer-" name) false
          (some config.peer_timeout_s) timer built in
      subst
        (λ t.
          new_peers config clock (suc i) rest (put name (new_peer name t) made) ≡ returned peers)
        same more

  new_peers-IsFresh :
      (clock : ℕ → ℤ) (i : ℕ) (names : List String) (made peers : Dict PeerRecord)
      → All (IsFresh config clock) made
      → new_peers config clock i names made ≡ returned peers
      → All (IsFresh config clock) peers
  unfolding new_peers
  new_peers-IsFresh clock i [] made peers h e = ground arith
  new_peers-IsFresh clock i (name ∷ rest) made peers h e =
      let r = fresh_peer config (clock i) name in
      new_peers-IsFresh clock (suc i) rest (put name r made) peers
        (All-put (IsFresh config clock) name r made h (i, refl))
        (new_peers-inversion clock i name rest made peers e)

  new_peers-member :
      (clock : ℕ → ℤ) (i : ℕ) (names : List String) (made peers : Dict PeerRecord)
      → All (λ n. Memᴰ n config.peers) names
      → All (λ entry. Memᴰ entry.0 config.peers) made
      → new_peers config clock i names made ≡ returned peers
      → All (λ entry. Memᴰ entry.0 config.peers) peers
  unfolding new_peers
  new_peers-member clock i [] made peers m h e = ground arith
  new_peers-member clock i (name ∷ rest) made peers m h e =
      let r = fresh_peer config (clock i) name in
      new_peers-member clock (suc i) rest (put name r made) peers m.1
        (All-put (λ entry. Memᴰ entry.0 config.peers) name r made h m.0)
        (new_peers-inversion clock i name rest made peers e)

  new_peers-keeps :
      (clock : ℕ → ℤ) (i : ℕ) (names : List String) (made peers : Dict PeerRecord)
      → Distinct made
      → new_peers config clock i names made ≡ returned peers
      → Distinct peers × ((n : String) → IsPresent n made → IsPresent n peers)
  unfolding new_peers
  new_peers-keeps clock i [] made peers d e =
      let same : made ≡ peers = returned-injective e in
      subst (λ ps. Distinct ps × ((n : String) → IsPresent n made → IsPresent n ps)) same
        (d, λ n p. p)
  new_peers-keeps clock i (name ∷ rest) made peers d e =
      let r = fresh_peer config (clock i) name in
      let (d', keeps) =
        new_peers-keeps clock (suc i) rest (put name r made) peers (put-Distinct name r made d)
          (new_peers-inversion clock i name rest made peers e) in
      (d', λ n p. keeps n (put-IsPresent n name r made p))

  new_peers-IsPresent :
      (clock : ℕ → ℤ) (i : ℕ) (names : List String) (made peers : Dict PeerRecord)
      → Distinct made
      → new_peers config clock i names made ≡ returned peers
      → All (λ n. IsPresent n peers) names
  new_peers-IsPresent clock i [] made peers d e = tt
  new_peers-IsPresent clock i (name ∷ rest) made peers d e =
      let r = fresh_peer config (clock i) name in
      let more = new_peers-inversion clock i name rest made peers e in
      let d' = put-Distinct name r made d in
      (
        (new_peers-keeps clock (suc i) rest (put name r made) peers d' more).1 name
            (r, get-put_self name r made),
        new_peers-IsPresent clock (suc i) rest (put name r made) peers d' more,
      )

  fresh-IsWatched :
      (clock : ℕ → ℤ) (peers : Dict PeerRecord)
      → All (IsFresh config clock) peers
      → All (λ entry. Memᴰ entry.0 config.peers) peers
      → All (IsWatched config) peers
  fresh-IsWatched clock [] h m = tt
  fresh-IsWatched clock ((k, r) ∷ rest) h m =
      let same = h.0.1 in
      (
        record {
          named = ap (λ r. r.name) same;
          member = m.0;
          period = ap (λ r. r.timer.period_s) same;
          window = ap (λ r. r.timer.expiry_s) same;
        },
        fresh-IsWatched clock rest h.1 m.1,
      )

  -- A constructed check watches its peers as it is configured, and every record is fresh.
  pub new-IsWatching :
      (instance_id : String) (clock : ℕ → ℤ) (c : HeartbeatCheck)
      → new config instance_id clock ≡ returned c
      → IsWatching config c × All (IsFresh config clock) c.peers
  unfolding new
  new-IsWatching instance_id clock c e =
      let made = new_peers config clock 1 config.peers [] in
      let finish =
        λ (t : IntervalTimer). made >>= λ peers. returned (assembled config instance_id t peers) in
      let (t, _, rest) =
        >>=-returned (Timer.new config.emit_period_s none (clock 0) "heartbeat-emit" true) finish
          e in
      let (peers, found, same) =
        >>=-returned made (λ peers. returned (assembled config instance_id t peers)) rest in
      let c' = assembled config instance_id t peers in
      let fresh_all = new_peers-IsFresh clock 1 config.peers [] peers tt found in
      let v : IsWatching config c' = record {
        configured = refl;
        watched =
            fresh-IsWatched clock peers fresh_all
              (new_peers-member clock 1 config.peers [] peers (Mem-All config.peers) tt found);
        present = new_peers-IsPresent clock 1 config.peers [] peers tt found;
        distinct = (new_peers-keeps clock 1 config.peers [] peers tt found).0;
      } in
      subst (λ c. IsWatching config c × All (IsFresh config clock) c.peers)
        (returned-injective same) (v, fresh_all)
