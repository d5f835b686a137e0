-- ===== src/Bus/Tests.antt =====
-- Runs of bus.py and instances of its theorems. The subscribers' state is what they have received.
use ca1_health_monitor.Prelude.{
  pos, String, true, false, List, [], ◌∷◌, ◌++◌, ◌≡◌, ◌↔◌, arith, refl, raised, if◌then◌else◌,
}
use ca1_health_monitor.Prelude.Text.{has_dot, ends_with, but_last, after_prefix}
use ca1_health_monitor.Common.Types.{other_error}
use ca1_health_monitor.Bus.{
  Message, MessageBus, Handler, matches, new, subscribe, publish, dispatch, drain,
}
use ca1_health_monitor.Bus.Topics.{matches-exact}
use ca1_health_monitor.Bus.Queue.{IsBalanced, new-IsBalanced, publish_accounts, run-IsBalanced}
use ca1_health_monitor.Bus.Delivery.{
  Call, publishes, drains, run, all_accepted, all_sent, dispatch-subscribe, run_fifo,
}
use ca1_health_monitor.Bus.Thread
use ca1_health_monitor.Bus.Thread.{
  control_loop, dispatch_thread, resting, State, at, begins, takes, handles, finds_empty, reads,
  writes, Reach, here, next,
}
use ca1_health_monitor.Bus.Interleaving.{IsSound, Reach-IsSound}

abbrev note : String → Message
note topic = record { topic = topic; payload = []; source = "test"; monotonic_ts = pos 0 }

-- A callback that notes the topic and then raises.
abbrev pub noting : Handler (List String)
noting m s = (raised other_error, m.topic ∷ s)

abbrev pub small : MessageBus (List String)
small = record {
  name = "bus";
  max_depth = pos 2;
  queue = [];
  subscriptions = ("a.*", noting) ∷ ("b", noting) ∷ [];
  dropped = 0;
  published = 0;
  delivered = 0;
}

patterns :
    (matches "peer.heartbeat.*" "peer.heartbeat.case-recorder" ≡ true)
    × (matches "peer.heartbeat.*" "peer.heartbeat.a.b" ≡ false)
    × (matches "peer.heartbeat.*" "peer.heartbeat" ≡ false)
    × (matches "health.ram" "health.ram" ≡ true)
unfolding matches ends_with but_last after_prefix has_dot
patterns = (refl, refl, refl, refl)

-- The third message is dropped; the rest are delivered, each to the callbacks that take it.
overflow :
    let (b, s) =
      run
        (publishes (note "a.x") ∷ publishes (note "b") ∷ publishes (note "b") ∷ drains 9 ∷ [])
        (small, []) in
    (b.dropped ≡ 1) × (b.delivered ≡ 2) × (s ≡ "b" ∷ "a.x" ∷ [])
unfolding run publish drain matches ends_with but_last after_prefix has_dot
overflow = (refl, refl, refl)

matches-exact_example : (matches "b" "c" ≡ true) ↔ (◌≡◌ {A = String} "b" "c")
unfolding ends_with
matches-exact_example = matches-exact "b" "c" refl

abbrev history : List Call
history = publishes (note "a.x") ∷ publishes (note "b") ∷ drains 1 ∷ []

run_fifo_example :
    [] ++ all_accepted history (small, [])
    ≡ all_sent history (small, []) ++ (run history (small, [])).0.queue
run_fifo_example = (run_fifo history small []).0

run-IsBalanced_example : IsBalanced (run history (new {S = List String} "bus" (pos 2), [])).0
run-IsBalanced_example =
    run-IsBalanced history (new "bus" (pos 2)) [] (new-IsBalanced "bus" (pos 2))

publish_accounts_example : (publish small (note "b")).delivered ≡ 0
publish_accounts_example = (publish_accounts small (note "b")).1

dispatch-subscribe_example : dispatch (subscribe small "b" noting) (note "b") [] ≡ (
    if matches "b" "b"
    then (noting (note "b") (dispatch small (note "b") [])).1
    else dispatch small (note "b") [])
dispatch-subscribe_example = dispatch-subscribe small "b" noting (note "b") []

-- Both threads have handled a message and read the counter at 0; each then writes 1.
abbrev Lost : Type 0
Lost =
    (s : State) × Reach s
    × (s.handled ≡ 2)
    × (s.delivered ≡ 1)
    × (s.phase control_loop ≡ resting)
    × (s.phase dispatch_thread ≡ resting)

lost_update : Lost
unfolding at
lost_update = (
  _,
  next _ _
      (next _ _
        (next _ _
          (next _ _
            (next _ _
              (next _ _
                (next _ _
                  (next _ _
                    (next _ _
                      (next _ _
                        (next _ _
                          (next _ _
                            (next _ _ (next _ _ here (Thread.publishes (note "a.x") refl))
                              (Thread.publishes (note "b") refl))
                            (begins control_loop refl tt))
                          (begins dispatch_thread refl refl))
                        (takes control_loop 0 (note "a.x") (note "b" ∷ []) refl (omega arith) refl))
                      (takes dispatch_thread 0 (note "b") [] refl (omega arith) refl))
                    (handles control_loop 0 (note "a.x") refl))
                  (handles dispatch_thread 0 (note "b") refl))
                (finds_empty control_loop 1 refl refl))
              (finds_empty dispatch_thread 1 refl refl))
            (reads control_loop 1 refl))
          (reads dispatch_thread 1 refl))
        (writes control_loop 0 1 refl))
      (writes dispatch_thread 0 1 refl),
  refl,
  refl,
  refl,
  refl,
)

Reach-IsSound_example : IsSound lost_update.0
Reach-IsSound_example = Reach-IsSound lost_update.0 lost_update.1
