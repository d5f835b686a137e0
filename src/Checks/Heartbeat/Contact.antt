-- ===== src/Checks/Heartbeat/Contact.antt =====
-- When each peer of heartbeat.py was last heard, told from the messages alone, and that the check
-- keeps to it over any messages and calls of `service`.
use ca1_health_monitor.Prelude.{
  ℤ, pos, negsuc, leb_ℤ, String, Bool, true, false, Option, none, some, ◌≡◌, refl, inl, inr,
  Bool-cases, Result, raised, returned, ◌==◌, if◌then◌else◌, sym, subst, ◌∙◌, eq_iff,
}
use ca1_health_monitor.Prelude.Dict.{get, get-put, get-put_self}
use ca1_health_monitor.Prelude.Text.{after_last_dot}
use ca1_health_monitor.Common.Timer.{refresh, poll}
use ca1_health_monitor.Common.Types.{Value, Exception, to_int}
use ca1_health_monitor.Bus.{Message, MessageBus}
use ca1_health_monitor.Checks.Base.{service}
use ca1_health_monitor.Checks.Base.Service.{service-returned}
use ca1_health_monitor.Checks.Heartbeat.{PeerRecord, HeartbeatCheck}
use ca1_health_monitor.Checks.Heartbeat.Receive.{
  receive, sequence_value, with_sequence, with_peer, on_peer_heartbeat,
}
use ca1_health_monitor.Checks.Heartbeat.Report.{evaluate_peer}
use ca1_health_monitor.Checks.Heartbeat.Tick.{emit_if_due, check}
use ca1_health_monitor.Checks.Heartbeat.Peers.{evaluate_peer-KeepsContact, get-evaluate_peers}
use ca1_health_monitor.Checks.Heartbeat.Quorum.{
  emit_if_due_keeps, evaluated, tick_results, on_tick_lem,
}
use ca1_health_monitor.Checks.Heartbeat.Watch.{Step, hears, serves, Reach, here, next}

-- The last heartbeat that counts: when it came, and its number, which is -1 where it has none.
pub record Contact : Type 0 where
  pub at : ℤ
  pub number : ℤ

-- A numbered heartbeat counts if its number is negative or above the last one.
abbrev pub counts : ℤ → Contact → Bool
counts n last = if leb_ℤ (pos 0) n then (if leb_ℤ n last.number then false else true) else true

abbrev pub numbered_at : ℤ → ℤ → Contact → Contact
numbered_at clock n last = if counts n last then record { at = clock; number = n } else last

-- A heartbeat from the peer, by what its payload has for the number: none counts as -1, and one
-- that is no integer is not a heartbeat.
abbrev pub read_at : ℤ → Result Exception ℤ → Contact → Contact
read_at clock (raised e) last = last
read_at clock (returned n) last = numbered_at clock n last

abbrev pub heard_at : ℤ → Option Value → Contact → Contact
heard_at clock none last = record { at = clock; number = negsuc 0 }
heard_at clock (some v) last = read_at clock (to_int v) last

-- A message is from the peer that the last segment of its topic names.
abbrev pub message_at : String → ℤ → Message → Contact → Contact
message_at name clock m last =
    if after_last_dot m.topic == name then heard_at clock (get "sequence" m.payload) last else last

abbrev pub step_contact :
    {S : Type 0} {c d : HeartbeatCheck} → String → Step S c d → Contact → Contact
step_contact name (hears clock m) last = message_at name clock m last
step_contact name (serves clock now bus) last = last

-- The last heartbeat of the peer after a history, if it is `last` before it.
unfoldable pub last_contact :
    {S : Type 0} {c d : HeartbeatCheck} → String → Reach S c d → Contact → Contact
last_contact name here last = last
last_contact name (next r s) last = step_contact name s (last_contact name r last)

abbrev pub contact_of : PeerRecord → Contact
contact_of r = record { at = r.timer.last_refresh; number = r.sequence }

-- The check has a record of the peer, with this contact.
abbrev pub Tracks : String → Contact → HeartbeatCheck → Type 0
Tracks name last c = (r : PeerRecord) × (get name c.peers ≡ some r) × (contact_of r ≡ last)

contact-receive :
    (clock n : ℤ) (r : PeerRecord)
    → contact_of (receive clock n r) ≡ numbered_at clock n (contact_of r)
unfolding receive refresh
contact-receive clock n r = elim (Bool-cases (leb_ℤ (pos 0) n)) [
  | inl y ↦ elim (Bool-cases (leb_ℤ n r.sequence)) [
    | inl z ↦ rw (y, z) refl
    | inr z ↦ rw (y, z) refl
  ]
  | inr z ↦ rw z refl
]

read-Tracks :
    (clock : ℤ) (c : HeartbeatCheck) (name : String) (r : PeerRecord) (n : Result Exception ℤ)
    → get name c.peers ≡ some r
    → Tracks name (read_at clock n (contact_of r)) (with_sequence clock name c r n).1
read-Tracks clock c name r (raised x) e = (r, e, refl)
read-Tracks clock c name r (returned n) e =
    (receive clock n r, get-put_self name (receive clock n r) c.peers, contact-receive clock n r)

sequence-Tracks :
    (clock : ℤ) (c : HeartbeatCheck) (name : String) (r : PeerRecord) (v : Option Value)
    → get name c.peers ≡ some r
    → Tracks name
        (heard_at clock v (contact_of r))
        (with_sequence clock name c r (to_int (sequence_value v))).1
unfolding to_int
sequence-Tracks clock c name r none e = read-Tracks clock c name r (returned (negsuc 0)) e
sequence-Tracks clock c name r (some v) e = read-Tracks clock c name r (to_int v) e

other-sequence :
    (clock : ℤ) (c : HeartbeatCheck) (peer name : String) (r : PeerRecord) (n : Result Exception ℤ)
    → (peer == name) ≡ false
    → get name (with_sequence clock peer c r n).1.peers ≡ get name c.peers
other-sequence clock c peer name r (raised x) other = refl
other-sequence clock c peer name r (returned n) other = rw (get-put, other) refl

other-peer :
    (clock : ℤ) (c : HeartbeatCheck) (peer name : String) (m : Message) (found : Option PeerRecord)
    → (peer == name) ≡ false
    → get name (with_peer clock peer m c found).1.peers ≡ get name c.peers
other-peer clock c peer name m none other = refl
other-peer clock c peer name m (some r) other =
    other-sequence clock c peer name r (to_int (sequence_value (get "sequence" m.payload))) other

from_peer :
    (clock : ℤ) (m : Message) (c : HeartbeatCheck) (name : String) (r : PeerRecord)
    → get name c.peers ≡ some r
    → Tracks name
        (heard_at clock (get "sequence" m.payload) (contact_of r))
        (with_peer clock name m c (get name c.peers)).1
from_peer clock m c name r e =
    subst
      (λ found.
        Tracks name (heard_at clock (get "sequence" m.payload) (contact_of r))
          (with_peer clock name m c found).1)
      (sym e) (sequence-Tracks clock c name r (get "sequence" m.payload) e)

message-Tracks :
    (clock : ℤ) (m : Message) (c : HeartbeatCheck) (name : String) (r : PeerRecord)
    → get name c.peers ≡ some r
    → Tracks name (message_at name clock m (contact_of r)) (on_peer_heartbeat clock m c).1
unfolding on_peer_heartbeat
message-Tracks clock m c name r e = elim (Bool-cases (after_last_dot m.topic == name)) [
  | inl y ↦ rw (y, (eq_iff (after_last_dot m.topic) name).0 y) (from_peer clock m c name r e)
  | inr other ↦
      let peer = after_last_dot m.topic in
      rw other (r, other-peer clock c peer name m (get peer c.peers) other ∙ e, refl)
]

service-Tracks :
    {S : Type 0} (clock : ℤ) (now : Option ℤ) (c : HeartbeatCheck) (bus : MessageBus S)
    (name : String) (r : PeerRecord)
    → get name c.peers ≡ some r
    → Tracks name (contact_of r) (service check clock now c bus).1
service-Tracks clock now c bus name r e =
    let tick = poll c.base.timer clock now in
    let (peers, _, _) = emit_if_due_keeps tick c bus in
    let at = poll r.timer tick.now (some tick.now) in
    let kept = evaluate_peer-KeepsContact r at in
    rw
      (service-returned check clock now c bus (tick_results tick c bus) (evaluated tick c bus)
        (emit_if_due tick c bus).1 (on_tick_lem tick c bus))
      (
        (evaluate_peer r at).1,
        rw peers (get-evaluate_peers tick.now name r c.peers e),
        rw (kept.timer, kept.sequence) refl,
      )

Step-Tracks :
    {S : Type 0} {c d : HeartbeatCheck} (name : String) (last : Contact) (s : Step S c d)
    → Tracks name last c
    → Tracks name (step_contact name s last) d
Step-Tracks {c = c} name last (hears clock m) (r, e, k) =
    subst (λ l. Tracks name (message_at name clock m l) (on_peer_heartbeat clock m c).1) k
      (message-Tracks clock m c name r e)
Step-Tracks {c = c} name last (serves clock now bus) (r, e, k) =
    subst (λ l. Tracks name l (service check clock now c bus).1) k
      (service-Tracks clock now c bus name r e)

-- Over any messages and calls of `service`, the check keeps a record of each peer that it has one
-- of, with the time and the number of the last heartbeat that counts.
pub Reach-Tracks :
    {S : Type 0} {c d : HeartbeatCheck} (name : String) (last : Contact) (h : Reach S c d)
    → Tracks name last c
    → Tracks name (last_contact name h last) d
unfolding last_contact
Reach-Tracks name last here t = t
Reach-Tracks name last (next h s) t =
    Step-Tracks name (last_contact name h last) s (Reach-Tracks name last h t)
