-- ===== src/Bus/Thread.antt =====
-- `start`, `_run` and `drain` of bus.py as the two threads run them: the control loop, which also
-- publishes, and the dispatch thread. A step is one access to what they share.
use ca1_health_monitor.Prelude.{ℕ, suc, ◌+◌, ◌<◌, Bool, true, false, List, [], ◌∷◌, ◌++◌, ◌≡◌}
use ca1_health_monitor.Bus.{Message, drain_limit}

pub data Actor : Type 0 where
  control_loop dispatch_thread : Actor

-- Where a thread is: outside of `drain`; before `get_nowait`; in `_dispatch`; before `_delivered` is
-- read; and before it is written. The number is the `delivered` of the call; what has been read of
-- `_delivered` stands before it.
pub data Phase : Type 0 where
  resting : Phase
  taking : ℕ → Phase
  handling : Message → ℕ → Phase
  reading : ℕ → Phase
  writing : ℕ → ℕ → Phase

-- What the threads share, and a record of what has happened: the messages that the queue accepted and
-- those taken from it, in their order, and how many have been handled.
pub record State : Type 0 where
  pub queue : List Message
  pub delivered : ℕ
  pub stopping : Bool
  pub phase : Actor → Phase
  pub accepted : List Message
  pub taken : List Message
  pub handled : ℕ

unfoldable pub at : Actor → Phase → (Actor → Phase) → Actor → Phase
at control_loop p f control_loop = p
at control_loop p f dispatch_thread = f dispatch_thread
at dispatch_thread p f control_loop = f control_loop
at dispatch_thread p f dispatch_thread = p

-- The thread's loop ends when the stop event is set.
abbrev pub MayBegin : Actor → State → Type 0
MayBegin control_loop s = Unit
MayBegin dispatch_thread s = s.stopping ≡ false

-- A step of one of the threads. A publication that the queue refuses changes nothing of this, and so
-- is no step.
pub data Step (s : State) : State → Type 0 where
  publishes :
      (m : Message)
      → s.phase control_loop ≡ resting
      → Step s (record s { queue = s.queue ++ m ∷ []; accepted = s.accepted ++ m ∷ [] })
  begins :
      (a : Actor)
      → s.phase a ≡ resting
      → MayBegin a s
      → Step s (record s { phase = at a (taking 0) s.phase })
  takes :
      (a : Actor) (n : ℕ) (m : Message) (rest : List Message)
      → s.phase a ≡ taking n
      → n < drain_limit
      → s.queue ≡ m ∷ rest
      → Step s (record s {
        queue = rest;
        taken = s.taken ++ m ∷ [];
        phase = at a (handling m n) s.phase;
      })
  handles :
      (a : Actor) (n : ℕ) (m : Message)
      → s.phase a ≡ handling m n
      → Step s (record s { handled = suc s.handled; phase = at a (taking (suc n)) s.phase })
  finds_empty :
      (a : Actor) (n : ℕ)
      → s.phase a ≡ taking n
      → s.queue ≡ []
      → Step s (record s { phase = at a (reading n) s.phase })
  has_enough :
      (a : Actor)
      → s.phase a ≡ taking drain_limit
      → Step s (record s { phase = at a (reading drain_limit) s.phase })
  reads :
      (a : Actor) (n : ℕ)
      → s.phase a ≡ reading n
      → Step s (record s { phase = at a (writing s.delivered n) s.phase })
  writes :
      (a : Actor) (old n : ℕ)
      → s.phase a ≡ writing old n
      → Step s (record s { delivered = old + n; phase = at a resting s.phase })
  stops : s.phase control_loop ≡ resting → Step s (record s { stopping = true })

-- `__init__` and `start`
abbrev pub initial : State
initial = record {
  queue = [];
  delivered = 0;
  stopping = false;
  phase = λ a. resting;
  accepted = [];
  taken = [];
  handled = 0;
}

pub data Reach : State → Type 0 where
  here : Reach initial
  next : (s t : State) → Reach s → Step s t → Reach t
