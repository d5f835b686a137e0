-- ===== src/Checks/Memory/Sweep.antt =====
-- The loop of `_advance_slice` in memory_integrity.py: how far it gets and what it counts.
use ca1_health_monitor.Prelude.{
  ℕ, zero, suc, ◌+◌, ◌*◌, ◌≤◌, ◌<◌, ℤ, pos, ◌+ℤ◌, ◌-ℤ◌, int_laws, leb_ℤ, min_ℤ, leb, Bool, true,
  false, List, ◌≡◌, inl, inr, arith, refl, returned, if◌then◌else◌, Bool-cases, ap, subst, ◌∙◌,
}
use ca1_health_monitor.Prelude.Crc.{crc32}
use ca1_health_monitor.Prelude.Text.{same}
use ca1_health_monitor.Checks.Memory.{MemorySource, MemoryIntegrityCheck, EccCounters, page_bytes}
use ca1_health_monitor.Checks.Memory.Slice.{
  page_length, page_done, scan_page, over_budget, scan, is_complete,
}

-- The source does not raise, and whether a page is as recorded does not change: `good` says it.
pub record IsStable {W : Type 0} (source : MemorySource W) (good : ℤ → ℤ → Bool) : Type 0 where
  pub reads :
      (offset length : ℤ) (w : W)
      → (bytes : List ℕ) × (w₁ : W) × (sum : ℕ) × (w₂ : W) × (source.read_page offset length w
          ≡ (returned bytes, w₁))
        × (source.expected_checksum offset length w₁ ≡ (returned sum, w₂))
        × (same (crc32 bytes) sum ≡ good offset length)
  pub counts : (w : W) → (e : EccCounters) × (w' : W) × (source.ecc_counters w ≡ (returned e, w'))

-- How many of the first pages of a region are not as recorded.
unfoldable pub bad_pages : (ℤ → ℤ → Bool) → ℕ → ℕ → ℕ
bad_pages good region zero = 0
bad_pages good region (suc n) =
    let before = bad_pages good region n in
    if good (pos (4096 * n)) (min_ℤ page_bytes (pos region -ℤ pos (4096 * n)))
    then before
    else before + 1

abbrev pub lesser : ℕ → ℕ → ℕ
lesser a b = if leb a b then a else b

-- The cursor and the counters agree: the first pages are scanned, and no others.
pub record IsSwept {W : Type 0} (good : ℤ → ℤ → Bool) (region : ℕ) (c : MemoryIntegrityCheck W)
    : Type 0 where
  pub region_bytes : c.config.region_bytes ≡ pos region
  pub cursor : c.cursor ≡ pos (lesser (4096 * c.pages_this_pass) region)
  pub within : 4096 * c.pages_this_pass < region + 4096
  pub mismatches : c.mismatches_this_pass ≡ bad_pages good region c.pages_this_pass

next_cursor :
    (p region : ℕ)
    → 4096 * p < region
    → pos (4096 * p) +ℤ min_ℤ page_bytes (pos region -ℤ pos (4096 * p))
      ≡ pos (lesser (4096 * (p + 1)) region)
next_cursor p region h = grind int_laws

inside :
    (p region : ℕ)
    → leb_ℤ (pos region) (pos (lesser (4096 * p) region)) ≡ false
    → (lesser (4096 * p) region ≡ 4096 * p) × (4096 * p < region)
inside p region h = ground arith

one_more : (n : ℕ) → n + 1 ≡ suc n
one_more n = omega arith

bad_pages-suc :
    (good : ℤ → ℤ → Bool) (region n : ℕ)
    → bad_pages good region (n + 1) ≡ (
        if good (pos (4096 * n)) (min_ℤ page_bytes (pos region -ℤ pos (4096 * n)))
        then bad_pages good region n
        else bad_pages good region n + 1)
unfolding bad_pages
bad_pages-suc good region n = ap (bad_pages good region) (one_more n)

-- What a run of the loop leaves alone, and that it scans no more pages than it may.
pub record HasGone {W : Type 0} (c : MemoryIntegrityCheck W) (left : ℕ) (d : MemoryIntegrityCheck W)
    : Type 0 where
  pub base : d.base ≡ c.base
  pub config : d.config ≡ c.config
  pub pass_index : d.pass_index ≡ c.pass_index
  pub baseline : d.baseline ≡ c.baseline
  pub from : c.pages_this_pass ≤ d.pages_this_pass
  pub to : d.pages_this_pass ≤ c.pages_this_pass + left

stays :
    {W : Type 0}
    → (c : MemoryIntegrityCheck W) → (w : W) → (left : ℕ)
    → HasGone c left (record c { platform = w })
stays c w left = record {
  base = refl;
  config = refl;
  pass_index = refl;
  baseline = refl;
  from = omega arith;
  to = omega arith;
}

module _ {W : Type 0} (source : MemorySource W) (good : ℤ → ℤ → Bool)
    (stable : IsStable source good) (region : ℕ) where
  scan_page_lem :
      (c : MemoryIntegrityCheck W)
      → (w : W) × (scan_page source c ≡ (
        returned tt,
        page_done (good c.cursor (page_length c)) (page_length c) (record c { platform = w }),
      ))
  unfolding scan_page
  scan_page_lem c =
      let (bytes, w₁, sum, w₂, read, expected, verdict) =
        stable.reads c.cursor (page_length c) c.platform in
      (w₂, rw (read, expected, verdict) refl)

  over_budget_lem :
      (any : Bool) (started : ℤ) (c : MemoryIntegrityCheck W)
      → (over : Bool) × (w : W) × (over_budget source any started c
          ≡ (over, record c { platform = w }))
        × (any ≡ false → over ≡ false)
  unfolding over_budget
  over_budget_lem false started c = (false, c.platform, refl, λ _. refl)
  over_budget_lem true started c = (_, _, refl, λ e. absurd (ground arith))

  pub incomplete :
      (c : MemoryIntegrityCheck W)
      → IsSwept good region c
      → is_complete c ≡ false
      → (c.cursor ≡ pos (4096 * c.pages_this_pass)) × (4096 * c.pages_this_pass < region)
  incomplete c v h =
      let (at, below) = inside c.pages_this_pass region (
        subst (λ x. leb_ℤ (pos region) x ≡ false) v.cursor
          (subst (λ x. leb_ℤ x c.cursor ≡ false) v.region_bytes h)) in
      (v.cursor ∙ ap pos at, below)

  page_done-IsSwept :
      (c : MemoryIntegrityCheck W)
      → (w : W) → IsSwept good region c
      → is_complete c ≡ false
      → IsSwept good region
          (page_done (good c.cursor (page_length c)) (page_length c) (record c { platform = w }))
  unfolding page_done
  page_done-IsSwept c w v h =
      let here = incomplete c v h in
      record {
        region_bytes = v.region_bytes;
        cursor = rw (v.region_bytes, here.0) (next_cursor c.pages_this_pass region here.1);
        within = omega (arith, here.1);
        mismatches =
            rw (v.region_bytes, here.0, v.mismatches, bad_pages-suc good region c.pages_this_pass)
              refl;
      }

  pub with_platform-IsSwept :
      (c : MemoryIntegrityCheck W)
      → (w : W) → IsSwept good region c
      → IsSwept good region (record c { platform = w })
  with_platform-IsSwept c w v = record {
    region_bytes = v.region_bytes;
    cursor = v.cursor;
    within = v.within;
    mismatches = v.mismatches;
  }

  pub scan_lem :
      (left : ℕ) (any : Bool) (started : ℤ) (c : MemoryIntegrityCheck W)
      → IsSwept good region c
      → (d : MemoryIntegrityCheck W) × (scan source left any started c ≡ (returned tt, d))
        × IsSwept good region d
        × HasGone c left d
        × (any ≡ false → 0 < left → is_complete c ≡ false → c.pages_this_pass < d.pages_this_pass)
  unfolding scan page_done
  scan_lem zero any started c v =
      (c, refl, v, stays c c.platform 0, λ _ h _. absurd (omega (arith, h)))
  scan_lem (suc left) any started c v = elim (Bool-cases (is_complete c)) [
    | inl y ↦ (c, rw y refl, v, stays c c.platform (suc left), λ _ _ n. absurd (ground arith))
    | inr n ↦
        let (over, w, spent, first) = over_budget_lem any started c in
        elim (Bool-cases over) [
          | inl y ↦ (
            record c { platform = w },
            rw (n, spent, y) refl,
            with_platform-IsSwept c w v,
            stays c w (suc left),
            λ f _ _. absurd (ground arith),
          )
          | inr m ↦
              let (w', page) = scan_page_lem (record c { platform = w }) in
              let (d, rest, v', gone, _) =
                scan_lem left true started
                  (page_done (good c.cursor (page_length c)) (page_length c)
                    (record c { platform = w' }))
                  (page_done-IsSwept c w' v n) in
              (
                d,
                rw (n, spent, m, page) rest,
                v',
                record {
                  base = gone.base;
                  config = gone.config;
                  pass_index = gone.pass_index;
                  baseline = gone.baseline;
                  from = omega (arith, gone.from);
                  to = omega (arith, gone.to);
                },
                λ _ _ _. omega (arith, gone.from),
              )
        ]
  ]
