-- ===== src/Bus/Queue.antt =====
-- The counters and the bound of the queue in bus.py.
use ca1_health_monitor.Prelude.{
  ℕ, zero, suc, ◌+◌, ◌≤◌, ℤ, pos, ◌≤ℤ◌, ◌<ℤ◌, String, false, List, [], ◌∷◌, ◌++◌, ◌≡◌, arith,
  length, length-append, Bool-cases, inl, inr,
}
use ca1_health_monitor.Bus.Delivery.{Call, publishes, drains, after, run}
use ca1_health_monitor.Bus.{is_full, Message, MessageBus, new, publish, dispatch, drain_loop, drain}

-- What the bus keeps: every accepted message is delivered or queued, and a bounded queue is within
-- its bound.
pub record IsBalanced {S : Type 0} (b : MessageBus S) : Type 0 where
  pub accounted : b.published ≡ b.delivered + length b.queue
  pub bounded : pos 0 <ℤ b.max_depth → pos (length b.queue) ≤ℤ b.max_depth

module _ {S : Type 0} where
  pub new-IsBalanced : (name : String) (depth : ℤ) → IsBalanced {S = S} (new name depth)
  unfolding new
  new-IsBalanced name depth = record { accounted = omega arith; bounded = λ h. omega arith }

  room_left :
      (b : MessageBus S) (m : Message)
      → is_full b ≡ false
      → pos 0 <ℤ b.max_depth
      → pos (length (b.queue ++ m ∷ [])) ≤ℤ b.max_depth
  unfolding is_full
  room_left b m h k = ground (arith, length-append b.queue (m ∷ []))

  pub publish-IsBalanced :
      (b : MessageBus S) (m : Message) → IsBalanced b → IsBalanced (publish b m)
  unfolding publish
  publish-IsBalanced b m v = elim (Bool-cases (is_full b)) [
    | inl full ↦ rw full (record { accounted = v.accounted; bounded = v.bounded })
    | inr room ↦ rw room (record {
      accounted = omega (arith, v.accounted, length-append b.queue (m ∷ []));
      bounded = λ h. room_left b m room h;
    })
  ]

  -- A publication is queued or dropped, and counted accordingly; nothing is delivered by it.
  pub publish_accounts :
      (b : MessageBus S) (m : Message)
      → let c = publish b m in
        (c.published + c.dropped ≡ b.published + b.dropped + 1) × (c.delivered ≡ b.delivered)
  unfolding publish
  publish_accounts b m = ground arith

  pub drain_loop-length :
      (limit : ℕ) (b : MessageBus S) (queue : List Message) (s : S)
      → let r = drain_loop limit b queue s in (r.0 + length r.1 ≡ length queue) × (r.0 ≤ limit)
  unfolding drain_loop
  drain_loop-length zero b queue s = (omega arith, omega arith)
  drain_loop-length (suc left) b [] s = (omega arith, omega arith)
  drain_loop-length (suc left) b (m ∷ queue) s =
      omega (arith, drain_loop-length left b queue (dispatch b m s))

  pub drain-IsBalanced :
      (limit : ℕ) (b : MessageBus S) (s : S) → IsBalanced b → IsBalanced (drain limit b s).1
  unfolding drain
  drain-IsBalanced limit b s v = record {
    accounted = omega (arith, v.accounted, drain_loop-length limit b b.queue s);
    bounded = λ h. omega (arith, v.bounded h, drain_loop-length limit b b.queue s);
  }

  after-IsBalanced :
      (c : Call) (b : MessageBus S) (s : S) → IsBalanced b → IsBalanced (after c (b, s)).0
  unfolding after
  after-IsBalanced (publishes m) b s v = publish-IsBalanced b m v
  after-IsBalanced (drains limit) b s v = drain-IsBalanced limit b s v

  -- From a bus where this holds, over any history the accepted messages are as many as those
  -- delivered and those queued, and the queue is within its bound, if it has one.
  pub run-IsBalanced :
      (calls : List Call) (b : MessageBus S) (s : S)
      → IsBalanced b
      → IsBalanced (run calls (b, s)).0
  unfolding run
  run-IsBalanced [] b s v = v
  run-IsBalanced (c ∷ cs) b s v =
      let (b', s') = after c (b, s) in run-IsBalanced cs b' s' (after-IsBalanced c b s v)
