-- ===== src/Checks/Base/Service.antt =====
-- `service` of base.py, for any check: what it publishes, counts and acknowledges.
use ca1_health_monitor.Prelude.{
  ◌+◌, ℤ, pos, ◌+ℤ◌, String, Option, some, List, [], ◌∷◌, ◌++◌, ◌≡◌, refl, returned, length, arith,
  All, ◌≢◌, eq_iff, +ℤ-zero, sym, ap, ◌∙◌,
}
use ca1_health_monitor.Prelude.Dict.{Dict, get, put, get-put}
use ca1_health_monitor.Common.Timer.{TimerTick, poll}
use ca1_health_monitor.Common.Types.{HealthState, CheckResult, record_run}
use ca1_health_monitor.Common.Types.Laws.{
  record_all, record_all_counts, occurrences, is_fault, is_degraded,
}
use ca1_health_monitor.Bus.{Message, MessageBus, publish}
use ca1_health_monitor.Checks.Base.{
  PeriodicCheck, Check, result_message, publish_all, count_skipped, service,
}

-- The state last published for each subject, after some more results.
unfoldable pub published_states : Dict HealthState → List CheckResult → Dict HealthState
published_states d [] = d
published_states d (r ∷ rest) = published_states (put r.subject r.state d) rest

pub published_states-append :
    (d : Dict HealthState) (xs ys : List CheckResult)
    → published_states d (xs ++ ys) ≡ published_states (published_states d xs) ys
unfolding published_states
published_states-append d [] ys = refl
published_states-append d (x ∷ xs) ys = published_states-append (put x.subject x.state d) xs ys

-- A subject keeps its state while none of the results is about it.
pub published_states-other :
    (k : String) (d : Dict HealthState) (results : List CheckResult)
    → All (λ r. r.subject ≢ k) results
    → get k (published_states d results) ≡ get k d
unfolding published_states
published_states-other k d [] h = refl
published_states-other k d (r ∷ rest) h =
    published_states-other k (put r.subject r.state d) rest h.1
    ∙ ground (arith, get-put r.subject k r.state d, eq_iff r.subject k)

unfoldable pub messages : String → List CheckResult → List Message
messages check_id [] = []
messages check_id (r ∷ rest) = result_message check_id r ∷ messages check_id rest

module _ {S : Type 0} where
  unfoldable pub publish_each : MessageBus S → List Message → MessageBus S
  publish_each bus [] = bus
  publish_each bus (m ∷ rest) = publish_each (publish bus m) rest

  -- The loop of `service` publishes the results in order and records each.
  pub publish_all_lem :
      (check_id : String) (b : PeriodicCheck) (bus : MessageBus S) (results : List CheckResult)
      → publish_all check_id b bus results ≡ (
        record b {
          stats = record_all b.stats results;
          last_published = published_states b.last_published results;
        },
        publish_each bus (messages check_id results),
      )
  unfolding publish_all publish_each messages published_states record_all
  publish_all_lem check_id b bus [] = refl
  publish_all_lem check_id b bus (r ∷ rest) =
      publish_all_lem check_id
        (record b {
          stats = record_run b.stats (some r) (pos 0);
          last_published = put r.subject r.state b.last_published;
        })
        (publish bus (result_message check_id r)) rest

-- The base class's part after the loop over the results.
abbrev pub recorded : List CheckResult → PeriodicCheck → PeriodicCheck
recorded results b = record b {
  stats = record_all b.stats results;
  last_published = published_states b.last_published results;
}

-- The missed slots that count where the results are these.
abbrev pub if_none : List CheckResult → ℤ → ℤ
if_none [] missed = missed
if_none (r ∷ rest) missed = pos 0

counted-skipped :
    (tick : TimerTick) (results : List CheckResult) (b : PeriodicCheck)
    → let b' = count_skipped tick results b in
      (b'.timer ≡ b.timer)
      × (b'.last_published ≡ b.last_published)
      × (b'.stats.runs ≡ b.stats.runs)
      × (b'.stats.faults ≡ b.stats.faults)
      × (b'.stats.degraded_runs ≡ b.stats.degraded_runs)
      × (b'.stats.skipped_slots ≡ b.stats.skipped_slots +ℤ if_none results tick.missed_slots)
unfolding count_skipped record_run
counted-skipped tick [] b = (refl, refl, refl, refl, refl, refl)
counted-skipped tick (r ∷ rest) b =
    (refl, refl, refl, refl, refl, sym (+ℤ-zero b.stats.skipped_slots))

module _ {S C : Type 0} (k : Check S C) (clock : ℤ) (now : Option ℤ) (c : C)
    (bus : MessageBus S) where
  -- The tick that `service` hands to the check, and what the check makes of it.
  abbrev pub tick : TimerTick
  tick = poll (k.base c).timer clock now

  -- The base class's part after the results of a check: the loop over them, then `count_skipped`.
  abbrev pub after_results : List CheckResult → PeriodicCheck → PeriodicCheck
  after_results results b = count_skipped tick results (recorded results b)

  module _ (results : List CheckResult) (c' : C) (bus' : MessageBus S)
      (h : k.on_tick tick c bus ≡ (returned results, c', bus')) where
    pub service-returned : service k clock now c bus ≡ (
      results,
      k.with_base c' (after_results results (k.base c')),
      publish_each bus' (messages k.check_id results),
    )
    unfolding service
    service-returned = rw h (rw publish_all_lem)

    -- Where `on_tick` returns, `service` returns the same results and publishes them in order. The
    -- check's timer stays as the check left it, and its last published states are those of the
    -- results.
    pub service_publishes :
        let (out, c'', bus'') = service k clock now c bus in
        let b = k.base c' in
        let b' = k.base c'' in
        (out ≡ results)
        × (bus'' ≡ publish_each bus' (messages k.check_id results))
        × (b'.timer ≡ b.timer)
        × (b'.last_published ≡ published_states b.last_published results)
    service_publishes =
        let skipped = counted-skipped tick results (recorded results (k.base c')) in
        rw (service-returned, k.base-with_base) (refl, refl, skipped.0, skipped.1)

    -- The counters after a `service` in which `on_tick` returns: each result is a run, faults and
    -- degradations are counted by state, and the tick's missed slots count only if there was no
    -- result.
    pub service_counts :
        let s = (k.base c').stats in
        let t = (k.base (service k clock now c bus).1).stats in
        (t.runs ≡ s.runs + length results)
        × (t.faults ≡ s.faults + occurrences is_fault results)
        × (t.degraded_runs ≡ s.degraded_runs + occurrences is_degraded results)
        × (t.skipped_slots ≡ s.skipped_slots +ℤ (if_none results tick.missed_slots))
    service_counts =
        let skipped = counted-skipped tick results (recorded results (k.base c')) in
        let counted = record_all_counts (k.base c').stats results in
        rw (service-returned, k.base-with_base)
          (
            skipped.2 ∙ counted.0,
            skipped.3 ∙ counted.1,
            skipped.4 ∙ counted.2,
            skipped.5 ∙ ap (λ z. z +ℤ if_none results tick.missed_slots) counted.3,
          )
