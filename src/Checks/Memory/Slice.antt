-- ===== src/Checks/Memory/Slice.antt =====
-- A slice of memory_integrity.py: `_advance_slice`.
use ca1_health_monitor.Prelude.{
  ℕ, zero, suc, ◌+◌, ◌*◌, ℤ, pos, negsuc, ◌-ℤ◌, ◌+ℤ◌, leb_ℤ, min_ℤ, pos_part, sub_ℕ, Bool, true,
  false, Option, none, some, returned, if◌then◌else◌,
}
use ca1_health_monitor.Prelude.Crc.{crc32}
use ca1_health_monitor.Prelude.Text.{same}
use ca1_health_monitor.Checks.Memory.{
  page_bytes, EccCounters, MemorySource, MemoryIntegrityCheck, M, bind, call,
}

-- `min(PAGE_BYTES, self._config.region_bytes - self._cursor)`
abbrev pub page_length : {W : Type 0} → MemoryIntegrityCheck W → ℤ
page_length c = min_ℤ page_bytes (c.config.region_bytes -ℤ c.cursor)

-- The end of a round of the loop: a mismatch is counted, and the cursor moves on.
unfoldable pub page_done : {W : Type 0} → Bool → ℤ → MemoryIntegrityCheck W → MemoryIntegrityCheck W
page_done matching length c = record c {
  mismatches_this_pass = if matching then c.mismatches_this_pass else c.mismatches_this_pass + 1;
  cursor = c.cursor +ℤ length;
  pages_this_pass = c.pages_this_pass + 1;
}

-- Times in seconds against a budget in milliseconds, both in millionths.
abbrev pub thousandfold : ℤ → ℤ
thousandfold (pos n) = pos (1000 * n)
thousandfold (negsuc n) = sub_ℕ 0 (1000 * suc n)

-- `completed` after the loop.
abbrev pub is_complete : {W : Type 0} → MemoryIntegrityCheck W → Bool
is_complete c = leb_ℤ c.config.region_bytes c.cursor

module _ {W : Type 0} (source : MemorySource W) where
  -- The rest of a round of the loop, from `length` on.
  unfoldable pub scan_page : M W (Unit {0})
  unfolding page_done
  scan_page c =
      let length = page_length c in
      bind (call (source.read_page c.cursor length))
        (λ observed.
          bind (call (source.expected_checksum c.cursor length))
            (λ expected c'. (returned tt, page_done (same (crc32 observed) expected) length c')))
        c

  -- `pages_scanned and (self._budget_clock() - started) >= budget_s`, and the state after it.
  unfoldable pub over_budget : Bool → ℤ → MemoryIntegrityCheck W → Bool × MemoryIntegrityCheck W
  over_budget false started c = (false, c)
  over_budget true started c =
      let (now, w) = source.budget_clock c.platform in
      (leb_ℤ c.config.slice_budget_ms (thousandfold (now -ℤ started)), record c { platform = w })

  -- The loop of `_advance_slice`, for the pages that the slice has left; `any` says that the slice
  -- has scanned a page.
  unfoldable pub scan : ℕ → Bool → ℤ → M W (Unit {0})
  scan zero any started c = (returned tt, c)
  scan (suc left) any started c =
      let (over, c') = over_budget any started c in
      let next = bind scan_page (λ _. scan left true started) c' in
      if is_complete c then (returned tt, c) else if over then (returned tt, c') else next

  -- The first `if` of `_advance_slice`.
  abbrev pub take_baseline : Option EccCounters → M W (Unit {0})
  take_baseline (some b) c = (returned tt, c)
  take_baseline none c =
      bind (call source.ecc_counters) (λ b c'. (returned tt, record c' { baseline = some b })) c

  -- `_advance_slice`
  unfoldable pub advance_slice : M W Bool
  advance_slice c =
      let (started, w) = source.budget_clock c.platform in
      bind (take_baseline c.baseline)
        (λ _.
          bind (scan (pos_part c.config.pages_per_slice) false started)
            (λ _ c'. (returned (is_complete c'), c')))
        (record c { platform = w })
