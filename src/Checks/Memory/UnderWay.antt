-- ===== src/Checks/Memory/UnderWay.antt =====
-- A pass of memory_integrity.py that is under way, and `_advance_slice` in it over a source that
-- answers.
use ca1_health_monitor.Prelude.{
  ℕ, ◌+◌, ◌*◌, ◌/◌, ◌≤◌, ◌<◌, ℤ, pos, leb_ℤ, pos_part, Bool, true, false, Option, none, some, ◌≡◌,
  arith, refl, returned, subst, ◌∙◌,
}
use ca1_health_monitor.Checks.Memory.{MemorySource, MemoryIntegrityCheck, EccCounters}
use ca1_health_monitor.Checks.Memory.Slice.{take_baseline, advance_slice, is_complete}
use ca1_health_monitor.Checks.Memory.Sweep.{IsStable, IsSwept, lesser, scan_lem, incomplete}

-- How many pages a region has.
abbrev pub page_count : ℕ → ℕ
page_count region = (region + 4095) / 4096

-- Between two ticks a pass is under way and not complete.
pub record IsUnderWay {W : Type 0} (good : ℤ → ℤ → Bool) (region : ℕ) (c : MemoryIntegrityCheck W)
    : Type 0 where
  pub swept : IsSwept good region c
  pub within : c.pages_this_pass < page_count region
  pub slice : 0 < pos_part c.config.pages_per_slice

unread :
    (p region : ℕ) → 4096 * p < region → leb_ℤ (pos region) (pos (lesser (4096 * p) region)) ≡ false
unread p region h = ground arith

whole :
    (p region : ℕ)
    → 4096 * p < region + 4096
    → leb_ℤ (pos region) (pos (lesser (4096 * p) region)) ≡ true
    → p ≡ page_count region
whole p region h e = let h' : region ≤ 4096 * p = ground arith in omega arith

module _ {W : Type 0} (source : MemorySource W) (good : ℤ → ℤ → Bool)
    (stable : IsStable source good) (region : ℕ) where
  baseline_from :
      (b : Option EccCounters) (c : MemoryIntegrityCheck W)
      → c.baseline ≡ b
      → (w : W) × (b' : Option EccCounters) × (take_baseline source b c
          ≡ (returned tt, record c { platform = w; baseline = b' }))
        × ((k : EccCounters) → c.baseline ≡ some k → b' ≡ some k)
  baseline_from (some b) c e = (c.platform, c.baseline, refl, λ k e'. e')
  baseline_from none c e =
      let (counters, w, read) = stable.counts c.platform in
      (w, some counters, rw read refl, λ k e'. absurd (cc (e, e')))

  baseline_lem :
      (c : MemoryIntegrityCheck W)
      → (w : W) × (b : Option EccCounters) × (take_baseline source c.baseline c
          ≡ (returned tt, record c { platform = w; baseline = b }))
        × ((k : EccCounters) → c.baseline ≡ some k → b ≡ some k)
  baseline_lem c = baseline_from c.baseline c refl

  unfinished : (c : MemoryIntegrityCheck W) → IsUnderWay good region c → is_complete c ≡ false
  unfinished c u =
      let h : 4096 * c.pages_this_pass < region = omega (arith, u.within) in
      rw (u.swept.region_bytes, u.swept.cursor) (unread c.pages_this_pass region h)

  -- Over a source that answers and whose pages stay as they are, a slice of a pass under way
  -- returns. It scans at least one page and at most `pages_per_slice`, stops at the end of the
  -- region, says whether that is reached, has counted exactly the pages that are not as recorded,
  -- and keeps a baseline that is taken.
  pub slice_lem :
      (c : MemoryIntegrityCheck W)
      → IsUnderWay good region c
      → (d : MemoryIntegrityCheck W) × (advance_slice source c ≡ (returned (is_complete d), d))
        × IsSwept good region d
        × (c.pages_this_pass < d.pages_this_pass)
        × (d.pages_this_pass ≤ c.pages_this_pass + pos_part c.config.pages_per_slice)
        × (d.config ≡ c.config)
        × (d.pass_index ≡ c.pass_index)
        × ((k : EccCounters) → c.baseline ≡ some k → d.baseline ≡ some k)
  unfolding advance_slice
  slice_lem c u =
      let w₀ = (source.budget_clock c.platform).1 in
      let started = (source.budget_clock c.platform).0 in
      let (w, b, based, kept) = baseline_lem (record c { platform = w₀ }) in
      let v = u.swept in
      let (d, run, v', gone, moves) =
        scan_lem source good stable region (pos_part c.config.pages_per_slice) false started
          (record c { platform = w; baseline = b })
          (record {
            region_bytes = v.region_bytes;
            cursor = v.cursor;
            within = v.within;
            mismatches = v.mismatches;
          }) in
      (
        d,
        rw (based, run) refl,
        v',
        moves refl u.slice (unfinished c u),
        gone.to,
        gone.config,
        gone.pass_index,
        λ k e. gone.baseline ∙ kept k e,
      )

  pub complete_lem :
      (c : MemoryIntegrityCheck W)
      → IsSwept good region c
      → is_complete c ≡ true
      → c.pages_this_pass ≡ page_count region
  complete_lem c v h = whole c.pages_this_pass region v.within (
      subst (λ x. leb_ℤ (pos region) x ≡ true) v.cursor
        (subst (λ x. leb_ℤ x c.cursor ≡ true) v.region_bytes h))

  pub incomplete_lem :
      (c : MemoryIntegrityCheck W)
      → IsSwept good region c
      → is_complete c ≡ false
      → c.pages_this_pass < page_count region
  incomplete_lem c v h = omega (arith, (incomplete source good stable region c v h).1)
