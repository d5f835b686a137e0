-- ===== src/Bus/Interleaving.antt =====
-- What holds of the bus of bus.py however the control loop and the dispatch thread interleave.
use ca1_health_monitor.Prelude.{
  ℕ, suc, ◌+◌, ◌≤◌, ◌<◌, List, [], ◌∷◌, ◌++◌, length, length-append, append_assoc, ◌≡◌, refl, sym,
  ap, ◌∙◌, arith,
}
use ca1_health_monitor.Bus.{Message, drain_limit}
use ca1_health_monitor.Bus.Thread.{
  Actor, control_loop, dispatch_thread, Phase, resting, taking, handling, reading, writing, State,
  at, Step, publishes, begins, takes, handles, finds_empty, has_enough, reads, writes, stops,
  initial, Reach, here, next,
}

-- What a call of `drain` has handled and not yet added to the counter.
abbrev pub pending : Phase → ℕ
pending resting = 0
pending (taking n) = n
pending (handling m n) = n
pending (reading n) = n
pending (writing old n) = n

-- Whether a thread holds a message that it is handling.
abbrev pub held : Phase → ℕ
held (handling m n) = 1
held _ = 0

-- What a thread has read of the counter.
abbrev pub seen : Phase → ℕ
seen (writing old n) = old
seen _ = 0

abbrev pub both : (Phase → ℕ) → State → ℕ
both f s = f (s.phase control_loop) + f (s.phase dispatch_thread)

-- Every accepted message is queued or has been taken, once and in the order of acceptance; what has
-- been taken is handled or held; a call of `drain` handles at most as many as its limit; and the
-- counter never exceeds what the finished calls have handled.
pub record IsSound (s : State) : Type 0 where
  pub in_order : s.accepted ≡ s.taken ++ s.queue
  pub accounted : length s.taken ≡ s.handled + both held s
  pub bounded : (a : Actor) → pending (s.phase a) + held (s.phase a) ≤ drain_limit
  pub counted : s.delivered + both pending s ≤ s.handled
  pub read_before : (a : Actor) → seen (s.phase a) + both pending s ≤ s.handled

initial-IsSound : IsSound initial
initial-IsSound = record {
  in_order = refl;
  accounted = refl;
  bounded = λ a. omega arith;
  counted = omega arith;
  read_before = λ a. omega arith;
}

-- A thread's move changes what is counted of its own phase only.
both_at :
    (f : Phase → ℕ) (a : Actor) (p : Phase) (phase : Actor → Phase)
    → f (at a p phase control_loop) + f (at a p phase dispatch_thread) + f (phase a)
      ≡ f (phase control_loop) + f (phase dispatch_thread) + f p
unfolding at
both_at f control_loop p phase = omega arith
both_at f dispatch_thread p phase = omega arith

at-elim :
    (Q : Phase → Type 0) (a : Actor) (p : Phase) (phase : Actor → Phase)
    → Q p
    → ((b : Actor) → Q (phase b))
    → (b : Actor) → Q (at a p phase b)
unfolding at
at-elim Q control_loop p phase q h control_loop = q
at-elim Q control_loop p phase q h dispatch_thread = h dispatch_thread
at-elim Q dispatch_thread p phase q h control_loop = h control_loop
at-elim Q dispatch_thread p phase q h dispatch_thread = q

-- A move of one thread from a phase to another that handles nothing keeps what is sound, when the
-- new phase claims no more than the old.
moves-IsSound :
    (s : State) (a : Actor) (p q : Phase)
    → s.phase a ≡ p
    → IsSound s
    → held q ≡ held p
    → pending q ≡ pending p
    → seen q + both pending s ≤ s.handled
    → IsSound (record s { phase = at a q s.phase })
moves-IsSound s a p q e v h k n =
    let same_held = both_at held a q s.phase in
    let same_pending = both_at pending a q s.phase in
    let was_held = ap held e in
    let was_pending = ap pending e in
    record {
      in_order = v.in_order;
      accounted = omega (arith, v.accounted, same_held, was_held, h);
      bounded =
          at-elim (λ p. pending p + held p ≤ drain_limit) a q s.phase
            (omega (arith, v.bounded a, was_pending, was_held, h, k)) v.bounded;
      counted = omega (arith, v.counted, same_pending, was_pending, k);
      read_before =
          at-elim (λ p. seen p + both pending (record s { phase = at a q s.phase }) ≤ s.handled) a q
            s.phase (omega (arith, n, same_pending, was_pending, k))
            (λ b. omega (arith, v.read_before b, same_pending, was_pending, k));
    }

takes-IsSound :
    (s : State) (a : Actor) (n : ℕ) (m : Message) (rest : List Message)
    → s.phase a ≡ taking n
    → n < drain_limit
    → s.queue ≡ m ∷ rest
    → IsSound s
    → IsSound
        (record s { queue = rest; taken = s.taken ++ m ∷ []; phase = at a (handling m n) s.phase })
takes-IsSound s a n m rest e l q v =
    let held_now = both_at held a (handling m n) s.phase in
    let pending_now = both_at pending a (handling m n) s.phase in
    let was_held = ap held e in
    let was_pending = ap pending e in
    record {
      in_order = v.in_order ∙ ap (λ q. s.taken ++ q) q ∙ sym (append_assoc s.taken (m ∷ []) rest);
      accounted = omega (arith, v.accounted, held_now, was_held, length-append s.taken (m ∷ []));
      bounded =
          at-elim (λ p. pending p + held p ≤ drain_limit) a (handling m n) s.phase
            (omega (arith, l)) v.bounded;
      counted = omega (arith, v.counted, pending_now, was_pending);
      read_before =
          at-elim
            (λ p.
              seen p + both pending (record s { phase = at a (handling m n) s.phase }) ≤ s.handled)
            a (handling m n) s.phase (omega (arith, v.counted, pending_now, was_pending))
            (λ b. omega (arith, v.read_before b, pending_now, was_pending));
    }

handles-IsSound :
    (s : State) (a : Actor) (n : ℕ) (m : Message)
    → s.phase a ≡ handling m n
    → IsSound s
    → IsSound (record s { handled = suc s.handled; phase = at a (taking (suc n)) s.phase })
handles-IsSound s a n m e v =
    let held_now = both_at held a (taking (suc n)) s.phase in
    let pending_now = both_at pending a (taking (suc n)) s.phase in
    let was_held = ap held e in
    let was_pending = ap pending e in
    record {
      in_order = v.in_order;
      accounted = omega (arith, v.accounted, held_now, was_held);
      bounded =
          at-elim (λ p. pending p + held p ≤ drain_limit) a (taking (suc n)) s.phase
            (omega (arith, v.bounded a, was_held, was_pending)) v.bounded;
      counted = omega (arith, v.counted, pending_now, was_pending);
      read_before =
          at-elim
            (λ p.
              seen p + both pending (record s { phase = at a (taking (suc n)) s.phase })
              ≤ suc s.handled)
            a (taking (suc n)) s.phase (omega (arith, v.counted, pending_now, was_pending))
            (λ b. omega (arith, v.read_before b, pending_now, was_pending));
    }

writes-IsSound :
    (s : State) (a : Actor) (old n : ℕ)
    → s.phase a ≡ writing old n
    → IsSound s
    → IsSound (record s { delivered = old + n; phase = at a resting s.phase })
writes-IsSound s a old n e v =
    let held_now = both_at held a resting s.phase in
    let pending_now = both_at pending a resting s.phase in
    let was_held = ap held e in
    let was_pending = ap pending e in
    let was_seen = ap seen e in
    record {
      in_order = v.in_order;
      accounted = omega (arith, v.accounted, held_now, was_held);
      bounded =
          at-elim (λ p. pending p + held p ≤ drain_limit) a resting s.phase (omega arith) v.bounded;
      counted = omega (arith, v.read_before a, was_seen, pending_now, was_pending);
      read_before =
          at-elim
            (λ p. seen p + both pending (record s { phase = at a resting s.phase }) ≤ s.handled) a
            resting s.phase (omega (arith, v.counted, pending_now, was_pending))
            (λ b. omega (arith, v.read_before b, pending_now, was_pending));
    }

Step-IsSound : (s t : State) → Step s t → IsSound s → IsSound t
Step-IsSound s _ (publishes m p) v = record {
  in_order = ap (λ q. q ++ m ∷ []) v.in_order ∙ append_assoc s.taken s.queue (m ∷ []);
  accounted = v.accounted;
  bounded = v.bounded;
  counted = v.counted;
  read_before = v.read_before;
}
Step-IsSound s _ (begins a e g) v =
    moves-IsSound s a resting (taking 0) e v refl refl (omega (arith, v.counted))
Step-IsSound s _ (takes a n m rest e l q) v = takes-IsSound s a n m rest e l q v
Step-IsSound s _ (handles a n m e) v = handles-IsSound s a n m e v
Step-IsSound s _ (finds_empty a n e q) v =
    moves-IsSound s a (taking n) (reading n) e v refl refl (omega (arith, v.counted))
Step-IsSound s _ (has_enough a e) v =
    moves-IsSound s a (taking drain_limit) (reading drain_limit) e v refl refl
      (omega (arith, v.counted))
Step-IsSound s _ (reads a n e) v =
    moves-IsSound s a (reading n) (writing s.delivered n) e v refl refl v.counted
Step-IsSound s _ (writes a old n e) v = writes-IsSound s a old n e v
Step-IsSound s _ (stops p) v = record {
  in_order = v.in_order;
  accounted = v.accounted;
  bounded = v.bounded;
  counted = v.counted;
  read_before = v.read_before;
}

-- However the control loop and the dispatch thread interleave: every message that the queue accepted
-- is queued or has been taken by one of them, in the order of acceptance; what has been taken is
-- handled or is being handled, no call of `drain` handles more than its limit, and the counter of
-- deliveries never exceeds what the finished calls have handled.
pub Reach-IsSound : (s : State) → Reach s → IsSound s
Reach-IsSound _ here = initial-IsSound
Reach-IsSound _ (next s t r step) = Step-IsSound s t step (Reach-IsSound s r)
