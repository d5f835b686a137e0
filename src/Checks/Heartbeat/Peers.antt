-- ===== src/Checks/Heartbeat/Peers.antt =====
-- The liveness of the peers in heartbeat.py: `_evaluate_peer` and its loop.
use ca1_health_monitor.Prelude.{
  ◌==◌, ◌+◌, ℤ, ◌+ℤ◌, ◌≤ℤ◌, String, Bool, true, false, not, none, some, List, [], ◌∷◌, ◌≡◌, ◌⊎◌,
  refl, All, Bool-cases, inl, inr, arith, leb_ℤ, ◌∙◌,
}
use mathlib.Core.Path.{ap₂}
use ca1_health_monitor.Prelude.Dict.{Dict, get}
use ca1_health_monitor.Common.Timer.{TimerTick, poll}
use ca1_health_monitor.Common.Timer.Expiry.{expired_iff}
use ca1_health_monitor.Common.Types.{HealthState, ok, fault, CheckResult}
use ca1_health_monitor.Checks.Base.{result}
use ca1_health_monitor.Checks.Heartbeat.{PeerRecord}
use ca1_health_monitor.Checks.Heartbeat.Report.{
  restored, lost, transition, evaluate_peer, evaluate_peers, add_result,
}

-- What a peer's evaluation gives, by its liveness before and after.
pub evaluate_peer_lem :
    (r : PeerRecord) (tick : TimerTick)
    → let (found, r') = evaluate_peer r tick in
      (r'.live ≡ not tick.expired)
      × (((r.live ≡ r'.live) × (found ≡ none) × (r'.losses ≡ r.losses))
          ⊎ ((r.live ≡ false)
              × (r'.live ≡ true)
              × (found ≡ some (restored r' tick))
              × (r'.losses ≡ r.losses))
          ⊎ ((r.live ≡ true)
              × (r'.live ≡ false)
              × (found ≡ some (lost r' tick))
              × (r'.losses ≡ r.losses + 1)))
unfolding evaluate_peer
evaluate_peer_lem r tick = ground arith

-- What is said of a peer, by its liveness before and after, before what is said of the others.
abbrev pub announce :
    Bool → Bool → String → List (String × HealthState) → List (String × HealthState)
announce true true name later = later
announce false false name later = later
announce false true name later = (name, ok) ∷ later
announce true false name later = (name, fault) ∷ later

-- The parts of a peer's record that only messages change.
pub record KeepsContact (r r' : PeerRecord) : Type 0 where
  pub name : r'.name ≡ r.name
  pub timer : r'.timer ≡ r.timer
  pub sequence : r'.sequence ≡ r.sequence
  pub refreshes : r'.refreshes ≡ r.refreshes

transition-KeepsContact :
    (was is : Bool) (r : PeerRecord) (tick : TimerTick)
    → KeepsContact r (transition was is r tick).1
transition-KeepsContact true true r tick = record {
  name = refl;
  timer = refl;
  sequence = refl;
  refreshes = refl;
}
transition-KeepsContact true false r tick = record {
  name = refl;
  timer = refl;
  sequence = refl;
  refreshes = refl;
}
transition-KeepsContact false true r tick = record {
  name = refl;
  timer = refl;
  sequence = refl;
  refreshes = refl;
}
transition-KeepsContact false false r tick = record {
  name = refl;
  timer = refl;
  sequence = refl;
  refreshes = refl;
}

-- An evaluation changes nothing of a peer's record but `live` and `losses`.
pub evaluate_peer-KeepsContact :
    (r : PeerRecord) (tick : TimerTick) → KeepsContact r (evaluate_peer r tick).1
unfolding evaluate_peer
evaluate_peer-KeepsContact r tick =
    let k =
      transition-KeepsContact r.live (not tick.expired) (record r { live = not tick.expired })
        tick in
    record { name = k.name; timer = k.timer; sequence = k.sequence; refreshes = k.refreshes }

-- The loop over the peers evaluates each record where it stands.
pub get-evaluate_peers :
    (now : ℤ) (name : String) (r : PeerRecord) (peers : Dict PeerRecord)
    → get name peers ≡ some r
    → get name (evaluate_peers now peers).1 ≡ some (evaluate_peer r (poll r.timer now (some now))).1
unfolding evaluate_peers get
get-evaluate_peers now name r [] e = cc
get-evaluate_peers now name r ((k, q) ∷ rest) e = elim (Bool-cases (k == name)) [
  | inl y ↦ let same : q ≡ r = cc (rw y at e) in rw (y, same) refl
  | inr n ↦ rw n (get-evaluate_peers now name r rest (rw n at e))
]

pub get-evaluate_peers-none :
    (now : ℤ) (name : String) (peers : Dict PeerRecord)
    → get name peers ≡ none
    → get name (evaluate_peers now peers).1 ≡ none
unfolding evaluate_peers get
get-evaluate_peers-none now name [] e = refl
get-evaluate_peers-none now name ((k, q) ∷ rest) e = elim (Bool-cases (k == name)) [
  | inl y ↦ absurd (cc (rw y at e))
  | inr n ↦ rw n (get-evaluate_peers-none now name rest (rw n at e))
]

-- Whether a peer has been heard within its window at an instant.
abbrev pub is_heard : ℤ → ℤ → PeerRecord → Bool
is_heard window now r = leb_ℤ now (r.timer.last_refresh +ℤ window)

abbrev pub IsHeard : ℤ → ℤ → PeerRecord → Type 0
IsHeard window now r = now ≤ℤ r.timer.last_refresh +ℤ window

-- Every peer's timer has the window.
abbrev pub HasWindow : ℤ → String × PeerRecord → Type 0
HasWindow window (k, r) = r.timer.expiry_s ≡ some window

not-expired :
    (r : PeerRecord) (window now : ℤ)
    → r.timer.expiry_s ≡ some window
    → not (poll r.timer now (some now)).expired ≡ is_heard window now r
not-expired r window now e = ground (arith, expired_iff r.timer now (some now) window e)

pub live-evaluate_peer :
    (r : PeerRecord) (window now : ℤ)
    → r.timer.expiry_s ≡ some window
    → (evaluate_peer r (poll r.timer now (some now))).1.live ≡ is_heard window now r
live-evaluate_peer r window now e =
    (evaluate_peer_lem r (poll r.timer now (some now))).0 ∙ not-expired r window now e

-- What the peers' results must say: for each peer whose liveness changes, and for no other.
unfoldable pub announced : ℤ → ℤ → Dict PeerRecord → List (String × HealthState)
announced window now [] = []
announced window now ((k, r) ∷ rest) =
    let later = announced window now rest in announce r.live (is_heard window now r) r.name later

abbrev pub summary : List CheckResult → List (String × HealthState)
summary [] = []
summary (r ∷ rest) = (r.subject, r.state) ∷ summary rest

abbrev pub lives : Dict PeerRecord → List Bool
lives [] = []
lives ((k, r) ∷ rest) = r.live ∷ lives rest

abbrev pub heard : ℤ → ℤ → Dict PeerRecord → List Bool
heard window now [] = []
heard window now ((k, r) ∷ rest) = is_heard window now r ∷ heard window now rest

evaluate_peer-announce :
    (r : PeerRecord) (tick : TimerTick) (results : List CheckResult)
    → summary (add_result (evaluate_peer r tick).0 results)
      ≡ announce r.live (not tick.expired) r.name (summary results)
unfolding evaluate_peer restored lost result
evaluate_peer-announce r tick results = ground arith

-- With one window for all peers, after the loop over them each is live exactly if it has been
-- heard within the window, and the results are a fault for each peer that was live and is lost and
-- an OK for each that is back.
pub evaluate_peers_lem :
    (window now : ℤ) (peers : Dict PeerRecord)
    → All (HasWindow window) peers
    → let (results, peers') = evaluate_peers now peers in
      (lives peers' ≡ heard window now peers) × (summary results ≡ announced window now peers)
unfolding evaluate_peers announced
evaluate_peers_lem window now [] h = (refl, refl)
evaluate_peers_lem window now ((k, r) ∷ rest) h =
    let (live, said) = evaluate_peers_lem window now rest h.1 in
    let tick = poll r.timer now (some now) in
    (
      ap₂ ◌∷◌ (live-evaluate_peer r window now h.0) live,
      evaluate_peer-announce r tick (evaluate_peers now rest).0
          ∙ ap₂ (λ b l. announce r.live b r.name l) (not-expired r window now h.0) said,
    )
