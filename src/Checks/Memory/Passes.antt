-- ===== src/Checks/Memory/Passes.antt =====
-- Passes of memory_integrity.py: `on_tick` over a source that answers, from the first slice of a
-- pass to its result.
use ca1_health_monitor.Prelude.{
  subst, ℕ, ◌+◌, ◌<◌, ℤ, pos, pos_part, Bool, true, false, some, List, [], ◌∷◌, ◌≡◌, ◌⊎◌, inl, inr,
  arith, refl, returned, Bool-cases, ap,
}
use ca1_health_monitor.Common.Types.{CheckResult}
use ca1_health_monitor.Checks.Base.{result}
use ca1_health_monitor.Checks.Memory.{MemorySource, MemoryIntegrityCheck, EccCounters}
use ca1_health_monitor.Checks.Memory.Tick.{
  delta, judge, summarise, finish_slice, sweep, acknowledge,
}
use ca1_health_monitor.Checks.Memory.Slice.{advance_slice, is_complete}
use ca1_health_monitor.Checks.Memory.Summary.{correctable_seen, uncorrectable_seen}
use ca1_health_monitor.Checks.Memory.UnderWay.{
  page_count, IsUnderWay, slice_lem, complete_lem, incomplete_lem,
}
use ca1_health_monitor.Checks.Memory.Sweep.{IsStable, IsSwept, bad_pages}

module _ {W : Type 0} (source : MemorySource W) (good : ℤ → ℤ → Bool)
    (stable : IsStable source good) (region : ℕ) where
  fresh_pass :
      (now : ℤ) (counters : EccCounters) (w : W) (d : MemoryIntegrityCheck W)
      → IsSwept good region d
      → 0 < pos_part d.config.pages_per_slice
      → 0 < region
      → IsUnderWay good region
          (summarise now counters (record (acknowledge now d) { platform = w })).1
  unfolding summarise bad_pages
  fresh_pass now counters w d v slice h = record {
    swept = record {
      region_bytes = v.region_bytes;
      cursor = ap pos (ground arith);
      within = omega arith;
      mismatches = refl;
    };
    within = omega (arith, h);
    slice = slice;
  }

  -- The pass of `c` ended with this report. Its last slice ends in `s`, where the source reads the
  -- counters. There is one result, judged by the bad pages of the whole region and the increase of
  -- the counters since the baseline, if one was taken; the next pass has them for its baseline.
  abbrev pub HasEnded : MemoryIntegrityCheck W → MemoryIntegrityCheck W → List CheckResult → Type 0
  HasEnded c d rs =
      (r : CheckResult) × (counters : EccCounters) × (correctable : ℤ) × (uncorrectable : ℤ)
      × (s : MemoryIntegrityCheck W) × (advance_slice source c ≡ (returned true, s))
      × (source.ecc_counters s.platform ≡ (returned counters, d.platform))
      × (rs ≡ r ∷ [])
      × (r.state
          ≡ (judge c.config (bad_pages good region (page_count region)) correctable
              uncorrectable).0)
      × ((k : EccCounters)
          → c.baseline ≡ some k
          → (correctable ≡ delta counters.correctable k.correctable)
            × (uncorrectable ≡ delta counters.uncorrectable k.uncorrectable))
      × (d.baseline ≡ some counters)
      × (d.pages_this_pass ≡ 0)
      × (d.pass_index ≡ c.pass_index + 1)

  ends :
      (now : ℤ) (c d : MemoryIntegrityCheck W)
      → IsUnderWay good region c
      → advance_slice source c ≡ (returned (is_complete d), d)
      → IsSwept good region d
      → d.config ≡ c.config
      → d.pass_index ≡ c.pass_index
      → ((k : EccCounters) → c.baseline ≡ some k → d.baseline ≡ some k)
      → is_complete d ≡ true
      → (r : CheckResult) × (e : MemoryIntegrityCheck W) × (sweep source now c
          ≡ (returned (r ∷ []), e))
        × IsUnderWay good region e
        × (e.config ≡ c.config)
        × HasEnded c e (r ∷ [])
  unfolding sweep finish_slice summarise result bad_pages
  ends now c d u run v config index kept y =
      let (counters, w, read) = stable.counts d.platform in
      let e = record (acknowledge now d) { platform = w } in
      let (r, next) = summarise now counters e in
      (
        r,
        next,
        rw (run, y, read) refl,
        fresh_pass now counters w d v (rw config u.slice) (omega (arith, u.within)),
        config,
        (
          r,
          counters,
          correctable_seen counters e,
          uncorrectable_seen counters e,
          d,
          subst (λ b. advance_slice source c ≡ (returned b, d)) y run,
          read,
          refl,
          rw (config, v.mismatches, complete_lem source good stable region d v y) refl,
          λ k e'. rw (kept k e') (refl, refl),
          refl,
          refl,
          ap (λ n. n + 1) index,
        ),
      )

  goes_on :
      (now : ℤ) (c d : MemoryIntegrityCheck W)
      → IsUnderWay good region c
      → advance_slice source c ≡ (returned (is_complete d), d)
      → IsSwept good region d
      → d.config ≡ c.config
      → is_complete d ≡ false
      → (sweep source now c ≡ (returned [], acknowledge now d))
        × IsUnderWay good region (acknowledge now d)
  unfolding sweep finish_slice
  goes_on now c d u run v config n = (
    rw (run, n) refl,
    record {
      swept = record {
        region_bytes = v.region_bytes;
        cursor = v.cursor;
        within = v.within;
        mismatches = v.mismatches;
      };
      within = incomplete_lem source good stable region d v n;
      slice = rw config u.slice;
    },
  )

  -- Over a source that answers and whose pages stay as they are, a due tick in a pass under way
  -- returns, keeps the configuration and leaves a pass under way. Either it goes on with the pass by
  -- at least one page, reports nothing and keeps a baseline that is taken, or it ends the pass with
  -- one result, judged by the bad pages of the whole region and, if a baseline was taken, by the
  -- increase since it to the counters that the source reads after the last slice, and begins the
  -- next pass, with these counters for its baseline.
  pub sweep_lem :
      (now : ℤ) (c : MemoryIntegrityCheck W)
      → IsUnderWay good region c
      → (d : MemoryIntegrityCheck W) × (rs : List CheckResult) × (sweep source now c
          ≡ (returned rs, d))
        × IsUnderWay good region d
        × (d.config ≡ c.config)
        × ((k : EccCounters) → c.baseline ≡ some k → rs ≡ [] → d.baseline ≡ some k)
        × (((rs ≡ []) × (c.pages_this_pass < d.pages_this_pass) × (d.pass_index ≡ c.pass_index))
            ⊎ HasEnded c d rs)
  sweep_lem now c u =
      let (d, run, v, more, _, config, index, kept) = slice_lem source good stable region c u in
      elim (Bool-cases (is_complete d)) [
        | inl y ↦
            let (r, e, run', u', config', ended) = ends now c d u run v config index kept y in
            (e, r ∷ [], run', u', config', λ k e' n. absurd (ground arith), inr ended)
        | inr n ↦
            let (run', u') = goes_on now c d u run v config n in
            (acknowledge now d, [], run', u', config, λ k e' _. kept k e', inl (refl, more, index))
      ]
