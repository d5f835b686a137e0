-- ===== src/Service/WatchingTests.antt =====
-- An instance of what is said of the peers: the default configuration, after one call of `service`.
use ca1_health_monitor.Prelude.{
  [], ◌+ℤ◌, true, pos, String, false, ◌==◌, eq_iff, none, some, ◌++◌, All, ◌≡◌, ◌≢◌, arith, refl,
}
use ca1_health_monitor.Prelude.Dict.{get}
use ca1_health_monitor.Config.{default_config}
use ca1_health_monitor.Config.Tests.{defaults_accepted}
use ca1_health_monitor.Checks.Base.{service}
use ca1_health_monitor.Checks.Heartbeat.{PeerRecord, HeartbeatCheck, quorum_subject}
use ca1_health_monitor.Checks.Heartbeat.Report.{quorum_state}
use ca1_health_monitor.Checks.Heartbeat.Tick.{check}
use ca1_health_monitor.Checks.Heartbeat.Peers.{lives, heard, announced, summary}
use ca1_health_monitor.Checks.Heartbeat.Quorum.{count_true}
use ca1_health_monitor.Checks.Heartbeat.Operation.{quorum_change}
use ca1_health_monitor.Checks.Heartbeat.Watch.{here, next, serves, hears}
use ca1_health_monitor.Checks.Heartbeat.Contact.{last_contact}
use ca1_health_monitor.Checks.Heartbeat.Receive.{on_peer_heartbeat}
use ca1_health_monitor.Prelude.Text.{after_last_dot}
use ca1_health_monitor.Bus.{Message}
use ca1_health_monitor.Service.Build.{attach_all}
use ca1_health_monitor.Service.Valid.{valid_builds}
use ca1_health_monitor.Service.Watching.{build_checks-watches}
use ca1_health_monitor.Service.Tests.{reads_clock, works, store, empty_bus}

other : (name : String) → (name == quorum_subject) ≡ false → name ≢ quorum_subject
other name e = ground (arith, eq_iff name quorum_subject)

names_differ : All (λ n. n ≢ quorum_subject) default_config.heartbeat.peers
names_differ = (
  other "generator-control" refl,
  (other "mapping-engine" refl, (other "catheter-io" refl, (other "case-recorder" refl, tt))),
)

-- A heartbeat without a number.
abbrev from_catheter : Message
from_catheter = record {
  topic = "peer.heartbeat.catheter-io";
  payload = [];
  source = "catheter-io";
  monotonic_ts = pos 11_000_000;
}

build_checks-watches_example :
    (c : HeartbeatCheck) × (let (results, c', _) =
        service check (pos 12_000_000) none c empty_bus in
      let on_time = heard (pos 3_000_000) (pos 12_000_000) c.peers in
      (lives c'.peers ≡ on_time)
      × ((r : PeerRecord) × (get "catheter-io" c'.peers ≡ some r) × (r.live ≡ true))
      × ((r : PeerRecord) × (get "case-recorder" c'.peers ≡ some r) × (r.live ≡ false))
      × (summary results
          ≡ announced (pos 3_000_000) (pos 12_000_000) c.peers
            ++ quorum_change
                (get quorum_subject c.base.last_published)
                (quorum_state (count_true on_time) (pos 3)))
      × (get quorum_subject c'.base.last_published
          ≡ some (quorum_state (count_true on_time) (pos 3))))
unfolding last_contact after_last_dot get ◌+ℤ◌
build_checks-watches_example =
    let (checks, u, built, _, _, _, _) =
      valid_builds reads_clock works default_config 0 0 (λ _. pos 0) (λ _ _. pos 0) store empty_bus
        defaults_accepted in
    let served = (service check (pos 8_000_000) none u.heartbeat empty_bus).1 in
    let c = (on_peer_heartbeat (pos 11_000_000) from_catheter served).1 in
    let (_, told, lived, said, quorum) =
      build_checks-watches reads_clock works default_config 0 0 (λ _. pos 0) (λ _ _. pos 0) store
        empty_bus checks u (attach_all reads_clock works default_config (λ _ _. pos 0) empty_bus) c
        (pos 12_000_000) none empty_bus defaults_accepted refl names_differ built
        (next (next here (serves (pos 8_000_000) none empty_bus))
          (hears (pos 11_000_000) from_catheter)) in
    let (_, r₂, found₂, live₂) = told.1.1.0 in
    let (_, r₃, found₃, live₃) = told.1.1.1.0 in
    (c, (lived, (r₂, found₂, live₂), (r₃, found₃, live₃), said, quorum))
