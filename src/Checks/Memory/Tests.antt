-- ===== src/Checks/Memory/Tests.antt =====
-- Runs of memory_integrity.py and instances of its theorems: a region of two pages and a short one,
-- of which the second is not as recorded, in slices of two pages.
use ca1_health_monitor.Prelude.{
  ℕ, ◌+◌, ◌≤◌, ◌<◌, ℤ, pos, ◌+ℤ◌, ◌-ℤ◌, ◌≤ℤ◌, ◌<ℤ◌, Bool, true, Option, none, some, List, [], ◌∷◌,
  ◌≡◌, ◌⊎◌, arith, refl, Result, raised, returned, negsuc, if◌then◌else◌, length, All,
}
use ca1_health_monitor.Prelude.Crc.{crc32}
use ca1_health_monitor.Prelude.Text.{same}
use ca1_health_monitor.Common.Timer
use ca1_health_monitor.Common.Timer.{fresh}
use ca1_health_monitor.Common.Types.{
  HealthState, ok, degraded, fault, no_stats, CheckResult, Exception,
}
use ca1_health_monitor.Config.{MemoryCheckConfig, default_memory}
use ca1_health_monitor.Checks.Base.{result}
use ca1_health_monitor.Checks.Memory.{
  new, assembled, MemorySource, MemoryIntegrityCheck, EccCounters,
}
use ca1_health_monitor.Checks.Memory.Slice.{
  advance_slice, is_complete, scan, over_budget, scan_page, page_done,
}
use ca1_health_monitor.Checks.Memory.Tick.{sweep, summarise, judge, delta, finish_slice}
use ca1_health_monitor.Checks.Memory.Sweep.{IsStable, bad_pages}
use ca1_health_monitor.Checks.Memory.UnderWay.{IsUnderWay, slice_lem}
use ca1_health_monitor.Checks.Memory.Passes.{sweep_lem}
use ca1_health_monitor.Checks.Memory.Progress.{sweeps, sweeps_lem}
use ca1_health_monitor.Checks.Memory.Detection.{IsFault, new-detects}
use ca1_health_monitor.Checks.Memory.Summary.{summarise_verdict}

abbrev counts_of : ℤ → ℤ → EccCounters
counts_of correctable uncorrectable = record {
  correctable = correctable;
  uncorrectable = uncorrectable;
}

-- Every page reads as no bytes, whose checksum is 0; the state is the time.
abbrev sum_at : ℤ → ℕ
sum_at (pos n) = if same n 4096 then 1 else 0
sum_at (negsuc n) = 0

abbrev second_bad : MemorySource ℕ
second_bad = record {
  read_page = λ offset length w. (returned [], w);
  expected_checksum = λ offset length w. (returned (sum_at offset), w);
  ecc_counters = λ w. (returned (counts_of (pos 2) (pos 0)), w);
  budget_clock = λ w. (pos w, w + 100);
}

abbrev is_good : ℤ → ℤ → Bool
is_good offset length = same 0 (sum_at offset)

second_bad-IsStable : IsStable second_bad is_good
unfolding crc32
second_bad-IsStable = record {
  reads = λ offset length w. ([], w, sum_at offset, w, refl, refl, refl);
  counts = λ w. (counts_of (pos 2) (pos 0), w, refl);
}

abbrev at_start : MemoryIntegrityCheck ℕ
at_start = record {
  base = record {
    timer = fresh (pos 5_000_000) none (pos 0) "ram-sweep" true;
    stats = no_stats;
    last_published = [];
  };
  config = record default_memory { region_bytes = pos 10_000; pages_per_slice = pos 2 };
  platform = 0;
  cursor = pos 0;
  pass_index = 0;
  mismatches_this_pass = 0;
  pages_this_pass = 0;
  baseline = some (counts_of (pos 1) (pos 0));
}

at_start-IsUnderWay : IsUnderWay is_good 10_000 at_start
unfolding bad_pages
at_start-IsUnderWay = record {
  swept = record { region_bytes = refl; cursor = refl; within = omega arith; mismatches = refl };
  within = omega arith;
  slice = omega arith;
}

abbrev tell : List CheckResult → List HealthState
tell [] = []
tell (r ∷ rest) = r.state ∷ tell rest

abbrev outcome :
    {A B : Type 0} → Result Exception A × B → (A → List HealthState) → Option (List HealthState)
outcome (raised e, b) f = none
outcome (returned a, b) f = some (f a)

-- The first tick leaves a page, and the second ends the pass at fault.
two_ticks :
    outcome (sweeps second_bad (pos 0 ∷ pos 5_000_000 ∷ []) at_start) tell ≡ some (fault ∷ [])
unfolding sweeps sweep advance_slice scan over_budget scan_page page_done finish_slice summarise
    judge result crc32 ◌+ℤ◌ ◌-ℤ◌
two_ticks = refl

slice_example :
    (d : MemoryIntegrityCheck ℕ) × (advance_slice second_bad at_start
      ≡ (returned (is_complete d), d))
    × (0 < d.pages_this_pass)
    × (d.pages_this_pass ≤ 0 + 2)
slice_example =
    let (d, run, _, from, to, _, _, _) =
      slice_lem second_bad is_good second_bad-IsStable 10_000 at_start at_start-IsUnderWay in
    (d, run, from, to)

sweep_example :
    (d : MemoryIntegrityCheck ℕ) × (rs : List CheckResult) × (sweep second_bad (pos 0) at_start
      ≡ (returned rs, d))
    × IsUnderWay is_good 10_000 d
sweep_example =
    let (d, rs, run, u, _, _, _) =
      sweep_lem second_bad is_good second_bad-IsStable 10_000 (pos 0) at_start
        at_start-IsUnderWay in
    (d, rs, run, u)

sweeps_example :
    (d : MemoryIntegrityCheck ℕ) × (rs : List CheckResult) × (sweeps second_bad
        (pos 0 ∷ pos 5_000_000 ∷ pos 10_000_000 ∷ [])
        at_start
      ≡ (returned rs, d))
    × (0 < length rs)
sweeps_example =
    let (d, rs, run, _, _, enough) =
      sweeps_lem second_bad is_good second_bad-IsStable 10_000
        (pos 0 ∷ pos 5_000_000 ∷ pos 10_000_000 ∷ []) at_start at_start-IsUnderWay in
    (d, rs, run, enough (omega arith))

summarise_verdict_example :
    let (r, _) = summarise (pos 0) (counts_of (pos 2) (pos 0)) at_start in
    ((r.state ≡ fault) × ((pos 1 ≤ℤ delta (pos 0) (pos 0)) ⊎ (0 < 0)))
    ⊎ (((r.state ≡ degraded) ⊎ (r.state ≡ ok))
        × (delta (pos 0) (pos 0) <ℤ pos 1)
        × (at_start.mismatches_this_pass ≡ 0)
        × (((r.state ≡ degraded) × (pos 1 ≤ℤ delta (pos 2) (pos 1)))
            ⊎ ((r.state ≡ ok) × (delta (pos 2) (pos 1) <ℤ pos 1))))
summarise_verdict_example = summarise_verdict (pos 0) (counts_of (pos 2) (pos 0)) at_start

abbrev small : MemoryCheckConfig
small = record default_memory { region_bytes = pos 10_000; pages_per_slice = pos 2 }

abbrev begun : MemoryIntegrityCheck ℕ
begun = assembled small 0 (fresh (pos 5_000_000) none (pos 0) "ram-sweep" true)

small_builds : new small 0 (pos 0) ≡ returned begun
unfolding new Timer.new
small_builds = refl

new-detects_example :
    (d : MemoryIntegrityCheck ℕ) × (rs : List CheckResult) × (sweeps second_bad
        (pos 0 ∷ pos 5_000_000 ∷ pos 10_000_000 ∷ [])
        begun
      ≡ (returned rs, d))
    × All IsFault rs
    × (0 < length rs)
new-detects_example =
    let (d, rs, run, faults, found) =
      new-detects second_bad is_good second_bad-IsStable 10_000 small 0 (pos 0) begun 1
        (pos 0 ∷ pos 5_000_000 ∷ pos 10_000_000 ∷ []) refl
        (omega arith, omega arith, omega arith, omega arith) small_builds (omega arith, refl) in
    (d, rs, run, faults, found (omega arith))
