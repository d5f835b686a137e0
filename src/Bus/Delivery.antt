-- ===== src/Bus/Delivery.antt =====
-- What `_dispatch` and `drain` of bus.py deliver, to whom and in which order.
use ca1_health_monitor.Prelude.{
  ℕ, zero, suc, ◌+◌, String, List, [], ◌∷◌, ◌++◌, ◌≡◌, arith, refl, sym, ap, ◌∙◌, length,
  Bool-cases, inl, inr, if◌then◌else◌,
}
use mathlib.Core.List.{append-nil, append_assoc}
use ca1_health_monitor.Bus.{
  Message, MessageBus, Handler, matches, subscribe, publish, is_full, handlers_for, call_all,
  dispatch, drain_loop, drain,
}

-- The first messages of a queue, and those behind them.
abbrev pub take : ℕ → List Message → List Message
take zero q = []
take (suc n) [] = []
take (suc n) (m ∷ q) = m ∷ take n q

abbrev pub drop : ℕ → List Message → List Message
drop zero q = q
drop (suc n) [] = []
drop (suc n) (m ∷ q) = drop n q

take-append-drop : (n : ℕ) (q : List Message) → take n q ++ drop n q ≡ q
take-append-drop zero q = refl
take-append-drop (suc n) [] = refl
take-append-drop (suc n) (m ∷ q) = ap (◌∷◌ m) (take-append-drop n q)

module _ {S : Type 0} where
  -- Messages dispatched one after the other.
  pub dispatch_all : MessageBus S → List Message → S → S
  dispatch_all b [] s = s
  dispatch_all b (m ∷ rest) s = dispatch_all b rest (dispatch b m s)

  drain_loop_lem :
      (limit : ℕ) (b : MessageBus S) (queue : List Message) (s : S)
      → drain_loop limit b queue s
        ≡ (length (take limit queue), drop limit queue, dispatch_all b (take limit queue) s)
  unfolding drain_loop dispatch_all
  drain_loop_lem zero b queue s = refl
  drain_loop_lem (suc left) b [] s = refl
  drain_loop_lem (suc left) b (m ∷ queue) s = rw (drain_loop_lem left b queue (dispatch b m s))

  -- `drain` dispatches the oldest messages, as many as its limit allows, in the order in which they
  -- were published, and leaves the rest queued.
  pub drain_lem :
      (limit : ℕ) (b : MessageBus S) (s : S)
      → let sent = take limit b.queue in
        let (n, c, s') = drain limit b s in
        (n ≡ length sent)
        × (c.queue ≡ drop limit b.queue)
        × (s' ≡ dispatch_all b sent s)
        × (c.delivered ≡ b.delivered + length sent)
  unfolding drain
  drain_lem limit b s = rw (drain_loop_lem limit b b.queue s) (refl, refl, refl, refl)

  calls-append :
      (subs : List (String × Handler S)) (pattern : String) (h : Handler S) (m : Message) (s : S)
      → let before = call_all (handlers_for subs m.topic) m s in
        call_all (handlers_for (subs ++ (pattern, h) ∷ []) m.topic) m s
        ≡ (if matches pattern m.topic then (h m before).1 else before)
  unfolding handlers_for call_all
  calls-append [] pattern h m s = ground arith
  calls-append ((p, k) ∷ rest) pattern h m s = elim (Bool-cases (matches p m.topic)) [
    | inl takes ↦ rw takes (calls-append rest pattern h m (k m s).1)
    | inr skips ↦ rw skips (calls-append rest pattern h m s)
  ]

  -- A callback runs on a message exactly if its pattern takes the topic; those that do run in the
  -- order of subscription, a new one last, whatever those before it raised.
  pub dispatch-subscribe :
      (b : MessageBus S) (pattern : String) (h : Handler S) (m : Message) (s : S)
      → dispatch (subscribe b pattern h) m s
        ≡ (if matches pattern m.topic then (h m (dispatch b m s)).1 else dispatch b m s)
  unfolding dispatch subscribe
  dispatch-subscribe b pattern h m s = calls-append b.subscriptions pattern h m s

  dispatch_all-append :
      (b : MessageBus S) (xs ys : List Message) (s : S)
      → dispatch_all b (xs ++ ys) s ≡ dispatch_all b ys (dispatch_all b xs s)
  unfolding dispatch_all
  dispatch_all-append b [] ys s = refl
  dispatch_all-append b (x ∷ xs) ys s = dispatch_all-append b xs ys (dispatch b x s)

  -- What `dispatch_all` does is settled by the subscriptions.
  dispatch_all-same :
      (b c : MessageBus S) (ms : List Message) (s : S)
      → b.subscriptions ≡ c.subscriptions
      → dispatch_all b ms s ≡ dispatch_all c ms s
  unfolding dispatch_all dispatch
  dispatch_all-same b c [] s e = refl
  dispatch_all-same b c (m ∷ ms) s e =
      rw e (dispatch_all-same b c ms (call_all (handlers_for c.subscriptions m.topic) m s) e)

-- A history of one thread's calls.
pub data Call : Type 0 where
  publishes : Message → Call
  drains : ℕ → Call

module _ {S : Type 0} where
  unfoldable pub after : Call → MessageBus S × S → MessageBus S × S
  after (publishes m) (b, s) = (publish b m, s)
  after (drains limit) (b, s) = let (_, c, s') = drain limit b s in (c, s')

  -- The messages that a call puts into the queue, and those that it delivers.
  pub accepted : Call → MessageBus S → List Message
  accepted (publishes m) b = if is_full b then [] else m ∷ []
  accepted (drains limit) b = []

  pub sent : Call → MessageBus S → List Message
  sent (publishes m) b = []
  sent (drains limit) b = take limit b.queue

  unfoldable pub run : List Call → MessageBus S × S → MessageBus S × S
  unfolding after
  run [] (b, s) = (b, s)
  run (c ∷ cs) (b, s) = run cs (after c (b, s))

  pub all_accepted : List Call → MessageBus S × S → List Message
  all_accepted [] (b, s) = []
  all_accepted (c ∷ cs) (b, s) = accepted c b ++ all_accepted cs (after c (b, s))

  pub all_sent : List Call → MessageBus S × S → List Message
  all_sent [] (b, s) = []
  all_sent (c ∷ cs) (b, s) = sent c b ++ all_sent cs (after c (b, s))

  after_fifo :
      (c : Call) (b : MessageBus S) (s : S)
      → let (b', s') = after c (b, s) in
        (b.queue ++ accepted c b ≡ sent c b ++ b'.queue)
        × (s' ≡ dispatch_all b (sent c b) s)
        × (b'.subscriptions ≡ b.subscriptions)
  unfolding after accepted sent dispatch_all publish
  after_fifo (publishes m) b s = elim (Bool-cases (is_full b)) [
    | inl full ↦ rw full (append-nil b.queue, refl, refl)
    | inr room ↦ rw room (refl, refl, refl)
  ]
  after_fifo (drains limit) b s =
      let (_, queue, state, _) = drain_lem limit b s in
      (
        rw queue (append-nil b.queue ∙ sym (take-append-drop limit b.queue)),
        state,
        unfold drain in refl,
      )

  -- The bus is a first-in first-out queue: over any history, what was queued at the start and what
  -- was accepted since is what was sent and what is still queued, in this order; and the subscribers'
  -- state is that of the sent messages dispatched in order.
  pub run_fifo :
      (calls : List Call) (b : MessageBus S) (s : S)
      → let (b', s') = run calls (b, s) in
        (b.queue ++ all_accepted calls (b, s) ≡ all_sent calls (b, s) ++ b'.queue)
        × (s' ≡ dispatch_all b (all_sent calls (b, s)) s)
  unfolding run all_accepted all_sent dispatch_all
  run_fifo [] b s = (append-nil b.queue, refl)
  run_fifo (c ∷ cs) b s =
      let (b', s') = after c (b, s) in
      let (moved, state, subs) = after_fifo c b s in
      let (queue, final) = run_fifo cs b' s' in
      (
        sym (append_assoc b.queue (accepted c b) (all_accepted cs (b', s')))
            ∙ ap (λ l. l ++ all_accepted cs (b', s')) moved
            ∙ append_assoc (sent c b) b'.queue (all_accepted cs (b', s'))
            ∙ ap (λ l. sent c b ++ l) queue
            ∙ sym (append_assoc (sent c b) (all_sent cs (b', s')) (run cs (b', s')).0.queue),
        final
            ∙ dispatch_all-same b' b (all_sent cs (b', s')) s' subs
            ∙ ap (dispatch_all b (all_sent cs (b', s'))) state
            ∙ sym (dispatch_all-append b (sent c b) (all_sent cs (b', s')) s),
      )
