-- ===== src/Service/Watching.antt =====
-- What service.py says of its peers: the heartbeat check that `build_checks` makes of a validated
-- configuration, after any messages and ticks.
use ca1_health_monitor.Prelude.{
  ℕ, ◌+◌, ℤ, ◌+ℤ◌, negsuc, leb_ℤ, All-map, ap, true, Option, some, List, ◌++◌, All, ◌≡◌, ◌≢◌,
  returned, returned-injective, subst, sym, ◌∙◌,
}
use ca1_health_monitor.Prelude.Dict.{get, All-get}
use ca1_health_monitor.Common.Timer.{reading}
use ca1_health_monitor.Bus.{Message, MessageBus}
use ca1_health_monitor.Config.{ServiceConfig}
use ca1_health_monitor.Config.Validate.{validate}
use ca1_health_monitor.Checks.Base.{Check, service}
use ca1_health_monitor.Checks.Storage.Filesystem.{Os}
use ca1_health_monitor.Checks.Heartbeat.{PeerRecord, HeartbeatCheck, quorum_subject}
use ca1_health_monitor.Checks.Heartbeat.Report.{quorum_state}
use ca1_health_monitor.Checks.Heartbeat.Tick.{check}
use ca1_health_monitor.Checks.Heartbeat.Peers.{lives, heard, announced, summary}
use ca1_health_monitor.Checks.Heartbeat.Quorum.{count_true}
use ca1_health_monitor.Checks.Heartbeat.Registered.{IsWatching, IsFresh}
use ca1_health_monitor.Checks.Heartbeat.Watch.{Reach, next, serves, Reach-IsWatching}
use ca1_health_monitor.Checks.Heartbeat.Contact.{Contact, contact_of, last_contact, Reach-Tracks}
use ca1_health_monitor.Checks.Heartbeat.Operation.{quorum_change, service-IsComplete, service-live}
use ca1_health_monitor.Service.Build.{Objects, build_checks}
use ca1_health_monitor.Service.Valid.{valid_builds}

-- At the construction the clock's reading counts as the contact, without a number.
abbrev pub at_construction : ℤ → Contact
at_construction instant = record { at = instant; number = negsuc 0 }

module _ {M S : Type 0} (budget : M → ℤ × M) (os : Os S) (config : ServiceConfig) (platform : M)
    (mounts : S) (clock : ℕ → ℤ) (heard_at : Message → Objects M S → ℤ) (t : Objects M S)
    (bus : MessageBus (Objects M S)) where
  built-IsWatching :
      (checks : List (Check (Objects M S) (Objects M S))) (u : Objects M S)
      (attached : MessageBus (Objects M S))
      → validate config ≡ returned tt
      → config.heartbeat.enabled ≡ true
      → build_checks budget os config platform mounts clock heard_at t bus
        ≡ returned ((checks, u), attached)
      → IsWatching config.heartbeat u.heartbeat
        × All (IsFresh config.heartbeat (λ i. clock (i + 2))) u.heartbeat.peers
  built-IsWatching checks u attached valid on built =
      let (_, _, built', _, _, watching, _) =
        valid_builds budget os config platform mounts clock heard_at t bus valid in
      let same = returned-injective (sym built' ∙ built) in
      subst
        (λ r.
          IsWatching config.heartbeat r.0.1.heartbeat
          × All (IsFresh config.heartbeat (λ i. clock (i + 2))) r.0.1.heartbeat.peers)
        same (watching on)

  -- A validated configuration, in which the heartbeat check is enabled and no peer takes the subject
  -- of the quorum, builds a check of which this holds after any messages, any calls of `service` and
  -- one more call at some instant. There is one record for each configured peer, and no other. Each
  -- configured peer is live exactly if the last of its heartbeats that count, or its construction
  -- where none has come, is no longer ago than the configured time. Of the records as they were
  -- before this call: the results are one for each whose liveness has changed, in order, and then the
  -- state of the quorum if it is not the one last published; and the state last published for the
  -- quorum is then the one that the number of them heard within the configured time calls for.
  pub build_checks-watches :
      (checks : List (Check (Objects M S) (Objects M S))) (u : Objects M S)
      (attached : MessageBus (Objects M S)) (c : HeartbeatCheck) (reads : ℤ) (now : Option ℤ)
      (later : MessageBus (Objects M S))
      → validate config ≡ returned tt
      → config.heartbeat.enabled ≡ true
      → All (λ n. n ≢ quorum_subject) config.heartbeat.peers
      → build_checks budget os config platform mounts clock heard_at t bus
        ≡ returned ((checks, u), attached)
      → (reached : Reach (Objects M S) u.heartbeat c)
      → let at = reading reads now in
        let (results, c', _) = service check reads now c later in
        let on_time = heard config.heartbeat.peer_timeout_s at c.peers in
        let state = quorum_state (count_true on_time) config.heartbeat.quorum_min_live in
        IsWatching config.heartbeat c'
        × All
            (λ n.
              (i : ℕ) × (r : PeerRecord) × (get n c'.peers ≡ some r)
              × (r.live
                  ≡ leb_ℤ at (
                      (last_contact n reached (at_construction (clock (i + 2)))).at
                      +ℤ config.heartbeat.peer_timeout_s)))
            config.heartbeat.peers
        × (lives c'.peers ≡ on_time)
        × (summary results
            ≡ announced config.heartbeat.peer_timeout_s at c.peers
              ++ quorum_change (get quorum_subject c.base.last_published) state)
        × (get quorum_subject c'.base.last_published ≡ some state)
  build_checks-watches checks u attached c reads now later valid on names built reached =
      let (start, fresh) = built-IsWatching checks u attached valid on built in
      let v = Reach-IsWatching config.heartbeat start reached in
      let (lived, said, quorum) = service-IsComplete config.heartbeat reads now c later v names in
      (
        Reach-IsWatching config.heartbeat start (next reached (serves reads now later)),
        All-map config.heartbeat.peers
            (λ n (r₀, e).
              let (i, same) =
                All-get (IsFresh config.heartbeat (λ i. clock (i + 2))) n r₀ u.heartbeat.peers fresh
                  e in
              let last = at_construction (clock (i + 2)) in
              let (r, found, live) =
                service-live config.heartbeat reads now c later n (last_contact n reached last) v
                  (Reach-Tracks n last reached (r₀, e, ap contact_of same)) in
              (i, r, found, live))
            start.present,
        lived,
        said,
        quorum,
      )
