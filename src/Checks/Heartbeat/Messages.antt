-- ===== src/Checks/Heartbeat/Messages.antt =====
-- `on_peer_heartbeat` and `attach` of heartbeat.py: which message refreshes which peer.
use ca1_health_monitor.Prelude.{
  ◌+◌, ℤ, pos, negsuc, ◌+ℤ◌, ◌≤ℤ◌, ◌<ℤ◌, String, false, none, some, ◌≡◌, ◌↔◌, ◌⊎◌, refl, ap, ◌∙◌,
  arith, inl, inr, Bool-cases, raised, returned, ◌==◌, if◌then◌else◌, ≤ℤ-cases,
}
use ca1_health_monitor.Prelude.Dict.{get, get-put, get-put_self}
use ca1_health_monitor.Prelude.Text.{append, concat, has_dot, after_last_dot}
use ca1_health_monitor.Prelude.Text.Laws.{after_last_dot-append}
use ca1_health_monitor.Common.Timer.{refresh}
use ca1_health_monitor.Common.Types.{Exception, Value, int, to_int}
use ca1_health_monitor.Bus.{Message, MessageBus, matches, dispatch}
use ca1_health_monitor.Bus.Topics.{IsUnder, matches-wildcard}
use ca1_health_monitor.Bus.Delivery.{dispatch-subscribe}
use ca1_health_monitor.Checks.Heartbeat.{PeerRecord, HeartbeatCheck, peer_topic_prefix}
use ca1_health_monitor.Checks.Heartbeat.Receive.{
  is_stale, receive, sequence_value, on_peer_heartbeat, attach,
}
use ca1_health_monitor.Checks.Heartbeat.Peers.{IsHeard}

-- The topic of a peer's heartbeat.
abbrev pub heartbeat_topic : String → String
heartbeat_topic peer = append peer_topic_prefix (append "." peer)

fresh_number :
    (sequence : ℤ) (r : PeerRecord) → r.sequence <ℤ sequence → is_stale sequence r ≡ false
fresh_number sequence r h = ground arith

-- A numbered heartbeat is discarded, and changes nothing, exactly if its number is not above the
-- last one; otherwise it becomes the last number and the peer is heard until its window has passed.
pub receive_numbered :
    (clock sequence window now : ℤ) (r : PeerRecord)
    → pos 0 ≤ℤ sequence
    → let r' = receive clock sequence r in
      ((sequence ≤ℤ r.sequence) × (r' ≡ r))
      ⊎ ((r.sequence <ℤ sequence)
          × (r'.sequence ≡ sequence)
          × (r'.refreshes ≡ r.refreshes + 1)
          × (IsHeard window now r' ↔ (now ≤ℤ clock +ℤ window)))
unfolding receive refresh
receive_numbered clock sequence window now r h = elim (≤ℤ-cases sequence r.sequence) [
  | inl old ↦ inl (old, ground arith)
  | inr new ↦ rw (fresh_number sequence r new) (inr (new, refl, refl, (λ h. h, λ h. h)))
]

receive-reopens :
    (clock later unnumbered old : ℤ) (r : PeerRecord)
    → unnumbered <ℤ pos 0
    → pos 0 ≤ℤ old
    → let r' = receive later old (receive clock unnumbered r) in
      (r'.sequence ≡ old) × (r'.refreshes ≡ r.refreshes + 2) × (r'.timer.last_refresh ≡ later)
unfolding receive refresh
receive-reopens clock later unnumbered old r h k = ground arith

-- The number that a heartbeat counts as: -1 where it has none.
abbrev pub IsNumbered : Message → ℤ → Type 0
IsNumbered m n =
    (get "sequence" m.payload ≡ some (int n)) ⊎ ((get "sequence" m.payload ≡ none) × (n ≡ negsuc 0))

read_number :
    (m : Message) (n : ℤ)
    → IsNumbered m n
    → to_int (sequence_value (get "sequence" m.payload)) ≡ returned n
unfolding to_int
read_number m n (inl e) = rw e refl
read_number m n (inr (e, k)) = rw (e, k) refl

named_by :
    (m : Message) (peer : String)
    → m.topic ≡ heartbeat_topic peer
    → has_dot peer ≡ false
    → after_last_dot m.topic ≡ peer
named_by m peer t d = ap after_last_dot t ∙ after_last_dot-append peer_topic_prefix peer d

received :
    (clock n : ℤ) (m : Message) (c : HeartbeatCheck) (peer : String) (r : PeerRecord)
    → m.topic ≡ heartbeat_topic peer
    → has_dot peer ≡ false
    → get peer c.peers ≡ some r
    → IsNumbered m n
    → get peer (on_peer_heartbeat clock m c).1.peers ≡ some (receive clock n r)
unfolding on_peer_heartbeat
received clock n m c peer r t d e s =
    rw (named_by m peer t d, e, read_number m n s) (get-put_self peer (receive clock n r) c.peers)

-- A heartbeat of a configured peer, whose name has no dot, that has no number or a negative one is
-- taken, and a numbered heartbeat of the peer right after it is taken too, however old its number.
pub unnumbered_reopens :
    (clock later n old : ℤ) (m m' : Message) (c : HeartbeatCheck) (peer : String) (r : PeerRecord)
    → has_dot peer ≡ false
    → get peer c.peers ≡ some r
    → m.topic ≡ heartbeat_topic peer
    → IsNumbered m n
    → n <ℤ pos 0
    → m'.topic ≡ heartbeat_topic peer
    → get "sequence" m'.payload ≡ some (int old)
    → pos 0 ≤ℤ old
    → let c' = (on_peer_heartbeat later m' (on_peer_heartbeat clock m c).1).1 in
      (r' : PeerRecord) × (get peer c'.peers ≡ some r')
      × (r'.sequence ≡ old)
      × (r'.refreshes ≡ r.refreshes + 2)
      × (r'.timer.last_refresh ≡ later)
unnumbered_reopens clock later n old m m' c peer r d e t s h t' s' k =
    let first = received clock n m c peer r t d e s in
    let (number, count, time) = receive-reopens clock later n old r h k in
    (
      receive later old (receive clock n r),
      received later old m' (on_peer_heartbeat clock m c).1 peer (receive clock n r) t' d first
          (inl s'),
      number,
      count,
      time,
    )

module _ (clock : ℤ) (m : Message) (c : HeartbeatCheck) (peer : String) where
  -- A heartbeat of a peer that is not configured changes nothing.
  pub unconfigured_ignored :
      after_last_dot m.topic ≡ peer
      → get peer c.peers ≡ none
      → on_peer_heartbeat clock m c ≡ (returned tt, c)
  unfolding on_peer_heartbeat
  unconfigured_ignored t e = rw (t, e) refl

  -- A heartbeat whose number is no number raises, and changes nothing.
  pub malformed_raises :
      (r : PeerRecord) (v : Value) (e : Exception)
      → after_last_dot m.topic ≡ peer
      → get peer c.peers ≡ some r
      → get "sequence" m.payload ≡ some v
      → to_int v ≡ raised e
      → on_peer_heartbeat clock m c ≡ (raised e, c)
  unfolding on_peer_heartbeat
  malformed_raises r v e t f g h = rw (t, f, g, h)

  -- A numbered heartbeat on the topic of a configured peer, whose name has no dot, is received by
  -- that peer as `receive` says, and changes nothing else of the check.
  pub heartbeat_received :
      (r : PeerRecord) (sequence : ℤ)
      → m.topic ≡ heartbeat_topic peer
      → has_dot peer ≡ false
      → get peer c.peers ≡ some r
      → get "sequence" m.payload ≡ some (int sequence)
      → let (outcome, c') = on_peer_heartbeat clock m c in
        (outcome ≡ returned tt)
        × ((j : String)
            → get j c'.peers
              ≡ (if peer == j then some (receive clock sequence r) else get j c.peers))
        × (c'.base ≡ c.base)
        × (c'.config ≡ c.config)
        × (c'.instance_id ≡ c.instance_id)
        × (c'.sequence ≡ c.sequence)
  unfolding on_peer_heartbeat to_int
  heartbeat_received r sequence t d e s =
      rw (named_by m peer t d, e, s)
        (refl, λ j. get-put peer j (receive clock sequence r) c.peers, refl, refl, refl, refl)

module _ {S : Type 0} (get_check : S → HeartbeatCheck) (set_check : S → HeartbeatCheck → S)
    (clock : Message → S → ℤ) (b : MessageBus S) (m : Message) (s : S) where
  -- Once attached, the check gets exactly the messages with one segment behind the prefix, after
  -- the callbacks that were there before.
  pub attach_routes :
      let bus = attach get_check set_check clock b in
      let s' = dispatch b m s in
      let c' = (on_peer_heartbeat (clock m s') m (get_check s')).1 in
      (IsUnder peer_topic_prefix m.topic → dispatch bus m s ≡ set_check s' c')
      × (¬ IsUnder peer_topic_prefix m.topic → dispatch bus m s ≡ s')
  unfolding attach concat append
  attach_routes = rw dispatch-subscribe (
    λ u. rw ((matches-wildcard peer_topic_prefix m.topic).1 u),
    λ n. elim (Bool-cases (matches "peer.heartbeat.*" m.topic)) [
      | inl y ↦ absurd (n ((matches-wildcard peer_topic_prefix m.topic).0 y))
      | inr no_match ↦ rw no_match
    ],
  )
