-- ===== src/Bus.antt =====
-- src/health_monitor/bus.py: topic patterns, the queue and its delivery. `S` is the state that the
-- subscribers' callbacks act on.
pub mod Topics
pub mod Queue
pub mod Delivery
pub mod Thread
pub mod Interleaving
pub mod Tests
use ca1_health_monitor.Prelude.{
  ℕ, zero, suc, ◌+◌, ℤ, pos, leb_ℤ, ltb_ℤ, String, Bool, true, false, not, ◌&&◌, Option, none, some,
  List, [], ◌∷◌, ◌++◌, length, if◌then◌else◌, ◌==◌, Result, raised, returned,
}
use ca1_health_monitor.Prelude.Text.{ends_with, but_last, after_prefix, has_dot}
use ca1_health_monitor.Common.Types.{Payload, Exception}

abbrev pub max_queue_depth : ℤ
max_queue_depth = pos 4096

pub record Message : Type 0 where
  pub topic : String
  pub payload : Payload
  pub source : String
  pub monotonic_ts : ℤ

-- `"." not in topic[len(prefix):]`, where the topic starts with the prefix
abbrev pub one_segment : Option String → Bool
one_segment none = false
one_segment (some rest) = not (has_dot rest)

-- `_matches`
unfoldable pub matches : String → String → Bool
matches pattern topic =
    if pattern == topic
    then true
    else if not (ends_with pattern ".*")
    then false
    else one_segment (after_prefix (but_last pattern) topic)

-- A callback: it changes the state, and returns or raises.
abbrev pub Handler : Type 0 → Type 0
Handler S = Message → S → Result Exception (Unit {0}) × S

-- The dispatch thread, the lock and the stop event are not in the record.
pub record MessageBus (S : Type 0) : Type 0 where
  pub name : String
  pub max_depth : ℤ
  pub queue : List Message
  pub subscriptions : List (String × Handler S)
  pub dropped : ℕ
  pub published : ℕ
  pub delivered : ℕ

-- `MessageBus.__init__`
unfoldable pub new : {S : Type 0} → String → ℤ → MessageBus S
new name depth = record {
  name = name;
  max_depth = depth;
  queue = [];
  subscriptions = [];
  dropped = 0;
  published = 0;
  delivered = 0;
}

-- `put_nowait` raises `queue.Full`; a depth that is not positive means no bound.
unfoldable pub is_full : {S : Type 0} → MessageBus S → Bool
is_full b = ltb_ℤ (pos 0) b.max_depth && leb_ℤ b.max_depth (pos (length b.queue))

module _ {S : Type 0} where
  unfoldable pub subscribe : MessageBus S → String → Handler S → MessageBus S
  subscribe b pattern handler = record b {
    subscriptions = b.subscriptions ++ (pattern, handler) ∷ [];
  }

  -- `publish`, on the message that it builds
  unfoldable pub publish : MessageBus S → Message → MessageBus S
  unfolding is_full
  publish b m =
      if is_full b
      then record b { dropped = b.dropped + 1 }
      else record b { queue = b.queue ++ m ∷ []; published = b.published + 1 }

  -- The list comprehension of `_dispatch`.
  unfoldable pub handlers_for : List (String × Handler S) → String → List (Handler S)
  handlers_for [] topic = []
  handlers_for ((pattern, h) ∷ rest) topic =
      let later = handlers_for rest topic in if matches pattern topic then h ∷ later else later

  -- The loop of `_dispatch`: what a handler raises is dropped, and what it changed stays.
  unfoldable pub call_all : List (Handler S) → Message → S → S
  call_all [] m s = s
  call_all (h ∷ rest) m s = call_all rest m (h m s).1

  -- `_dispatch`
  unfoldable pub dispatch : MessageBus S → Message → S → S
  unfolding handlers_for call_all
  dispatch b m s = call_all (handlers_for b.subscriptions m.topic) m s

  -- The loop of `drain`, for the deliveries that the limit leaves: the count, the queue, the state.
  unfoldable pub drain_loop : ℕ → MessageBus S → List Message → S → ℕ × List Message × S
  unfolding dispatch
  drain_loop zero b queue s = (0, queue, s)
  drain_loop (suc left) b [] s = (0, [], s)
  drain_loop (suc left) b (m ∷ queue) s =
      let (n, queue', s') = drain_loop left b queue (dispatch b m s) in (suc n, queue', s')

  -- `drain(limit)`; its default limit is `drain_limit`
  unfoldable pub drain : ℕ → MessageBus S → S → ℕ × MessageBus S × S
  unfolding drain_loop
  drain limit b s =
      let (n, queue, s') = drain_loop limit b b.queue s in
      (n, record b { queue = queue; delivered = b.delivered + n }, s')

abbrev pub drain_limit : ℕ
drain_limit = 256

-- `stop`, but for the end of the dispatch thread: what is left is delivered, up to the limit.
unfoldable pub stop : {S : Type 0} → MessageBus S → S → MessageBus S × S
unfolding drain
stop b s = let (_, b', s') = drain drain_limit b s in (b', s')
