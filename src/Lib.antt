-- ===== src/Lib.antt =====
-- The health monitor: a service that watches a platform and publishes what it finds on a message
-- bus. This library models the service's own logic and proves what it promises.
--
-- The parts of the program, and the files that model them. Python files are named from the
-- repository's root.
--   * src/health_monitor/common/interval_timer.py: Common/Timer.antt. One timer carries a cadence
--     (`poll`, `mark_serviced`) and, if asked, an expiry window (`refresh`). Common/Timer/Cadence
--     and Common/Timer/Expiry prove the two uses.
--   * src/health_monitor/common/types.py: Common/Types.antt. The states, the results of a check and
--     the counters of a check, with the payloads that are published for them.
--   * src/health_monitor/bus.py: Bus.antt. A bounded queue with subscriptions by topic. Bus/Topics
--     is about the patterns, Bus/Queue about the bound and the counters, Bus/Delivery about order.
--     Bus/Thread has the dispatch thread beside the control loop, as steps on what they share, and
--     Bus/Interleaving what holds of every run of both.
--   * src/health_monitor/checks/base.py: Checks/Base.antt. The class `PeriodicCheck` is the record
--     of that name, and a subclass is an instance of the interface `Check`, whose `on_tick` may
--     publish, may raise, and may do so after it has changed its state. `service` runs any of them.
--   * src/health_monitor/checks/heartbeat.py: Checks/Heartbeat.antt has the state and its
--     construction, Checks/Heartbeat/Receive the incoming messages, Report the liveness of a peer and
--     the quorum, and Tick a tick. The proofs are on the loop over the peers (Peers), the messages
--     (Messages), the quorum (Quorum), a whole call (Ticks) and any sequence of calls and messages
--     (Watch: a step relation and its invariant; Contact: what it makes of the messages alone;
--     Operation: all that a call then reports). Registered is about the peers at the construction.
--   * src/health_monitor/checks/storage_health.py: Checks/Storage.antt, with its proofs on the ladder
--     of states (States), the bookkeeping (Failures), a whole scan (Runs) and many (Scans).
--     Checks/Storage/Filesystem is `FilesystemProbe`, and Cleanup says when it raises.
--   * src/health_monitor/checks/memory_integrity.py: Checks/Memory.antt has the state and its
--     construction, Checks/Memory/Slice `_advance_slice`, and Tick `_summarise_pass` and `on_tick`.
--     The proofs are on the loop of a slice (Sweep), the construction (Started), a slice of a
--     pass (UnderWay), a tick (Passes), many ticks (Progress), the pages they find (Detection), the
--     report (Summary) and the stand-in source (Null).
--   * src/health_monitor/config.py: Config.antt has the records and their defaults, Config/Validate
--     the function `validate`, and Config/Rules its rules, stated apart. Config/Fields has the fields
--     of the dataclasses as tables, Config/Describe `describe`; Config/Coerce `_coerce` and
--     `_apply_section`, Config/Environment `_env_overrides`, Config/Load `from_mapping` and `load`.
--     The proofs follow `_apply_section` (Applied) and the phases of `from_mapping` (Slots,
--     Sections, Service, Built, Document, Override) to a whole accepted configuration (Accepted), the source of each setting
--     (Variables, Precedence), what is enough for one (Complete, Phases, Exact), what is never accepted
--     (Strict), the way back from a configuration to a document (RoundTrip) and its description
--     (Described).
--   * src/health_monitor/logging_setup.py: Logging.antt has `JsonFormatter.format` up to its payload
--     and `_safe`, Logging/Setup `configure` and `suppress_noisy` on the state of the logging
--     library. The proofs are on `_safe` (Safe), the payload (Payload), what the library makes of
--     `extra` (Extra) and the record that is logged at the start (Startup).
--   * src/health_monitor/service.py: Service.antt has `step`, `_sleep_budget` and `publish_status`,
--     Service/Build has `build_checks`, Service/Run `run` with `_shutdown` and Service/Main `main`;
--     Service/Steps, Service/Valid, Service/Stops and Service/Exits are about them, and
--     Service/Watching, Service/Scanning and Service/Sweeping about the checks that `build_checks`
--     makes. Service/Loop is about one round of the loop.
--
-- How they interact. A step of the service drains the bus, so that the callbacks of subscribers run,
-- and calls `service` of each check, which polls the check's timer, gives the tick to `on_tick` and
-- publishes the results. The heartbeat check subscribes to the peers' topic: its callback refreshes
-- the timer of a peer, and its `on_tick` reads from that timer whether the peer is lost. The objects
-- of the checks are a store, on which callbacks and checks act; a check sees its own field of it.
--
-- How state and calls are modelled. An object is a record, and a method takes it and returns it
-- changed. An exception is the value `raised e` of `Result`; what was changed before it stays. What a
-- call of a clock reads is an argument of the method that calls it. The platform below the checks is
-- a parameter, on a state that every call may change: the memory source and the storage probe of a
-- check by itself; and of the checks that the service builds, which has no other than
-- `NullMemorySource` and `FilesystemProbe`, the budget clock and the calls of the operating system.
-- What a theorem needs of them is a hypothesis, `IsStable`, `NeverRaises` or `Closes`.
--
-- A configuration that is being built is a draft: its instances are tuples of attributes, by a table
-- of names and declared types, so that `_apply_section` is one function for all dataclasses, and a
-- section can be replaced by a list, which the code lets happen. What `str()` writes for a value that
-- is no text, number or truth value, the file's content and the environment are arguments. Loading ends
-- with a configuration, a `ConfigError`, another exception, or `outside`, where the code goes on with
-- a float that the model does not hold.
--
-- Numbers. A float is an integer number of millionths of its unit, so that instants and durations are
-- microseconds, latencies nanoseconds and fractions parts of a million; infinities and NaN are not
-- modelled, nor is the rounding of float sums. `float` of an integer that is too large for one
-- raises, and of such a text ends loading with `outside`. Python's integers have no width: they are ℤ, or ℕ
-- where the code only counts up. Text is the native `String`, with Python's operations by recursion.
--
-- Loops. The loops over lists are structural. The loop of `drain` runs on its own limit and the loop
-- of a slice on `pages_per_slice`: both are what the code counts, so neither bound is added by the
-- model. The loop of `run` is given its rounds as a list, with the readings of the clock and whether
-- a signal arrives in each; how many are enough is part of what is proved. `show_ℕ`
-- runs on fuel, and `digits_enough` shows that it is enough.
--
-- Not modelled: the text that `json.dumps` makes of a payload, and what else is logged; the parsing of
-- the command line and of JSON, which are given by their results; characters beyond ASCII in
-- numbers, white space and the names of variables, but for those that the code can take for ASCII
-- letters; attributes of the logging module other than levels as the name of a level; the locks, and
-- the time-outs of the bus. Service/Run and Service/Main run the control loop alone, and Bus/Thread
-- the queue and the counter of deliveries under both threads, with publications by the loop only. A
-- callback does not publish while the bus drains, as the only one of the program does not. A signal
-- acts at the end of a round; one that arrives before `run` sets its flag is lost in the code and
-- does not occur in the model.
pub mod Prelude
pub mod Common
pub mod Bus
pub mod Config
pub mod Logging
pub mod Checks
pub mod Service
