-- ===== src/Checks/Memory/Summary.antt =====
-- The end of a pass in memory_integrity.py: `_summarise_pass`.
use ca1_health_monitor.Prelude.{◌<◌, ℤ, ◌+ℤ◌, ◌-ℤ◌, ◌≤ℤ◌, ◌<ℤ◌, int_laws, some, ◌≡◌, ◌⊎◌, arith}
use ca1_health_monitor.Common.Types.{ok, degraded, fault}
use ca1_health_monitor.Checks.Base.{result}
use ca1_health_monitor.Checks.Memory.{MemoryIntegrityCheck, EccCounters}
use ca1_health_monitor.Checks.Memory.Tick.{or_counters, delta, judge, summarise}

telescope : (a b c : ℤ) → a ≤ℤ b → b ≤ℤ c → delta b a +ℤ delta c b ≡ c -ℤ a
telescope a b c h₁ h₂ = grind int_laws

module _ {W : Type 0} where
  -- The errors that the pass to end with these counters has seen.
  abbrev pub correctable_seen : EccCounters → MemoryIntegrityCheck W → ℤ
  correctable_seen counters c =
      delta counters.correctable (or_counters c.baseline counters).correctable

  abbrev pub uncorrectable_seen : EccCounters → MemoryIntegrityCheck W → ℤ
  uncorrectable_seen counters c =
      delta counters.uncorrectable (or_counters c.baseline counters).uncorrectable

  -- A pass is reported as a fault exactly if its uncorrectable errors reach the threshold or a page
  -- mismatched, as degraded exactly if neither holds and its correctable errors reach the threshold,
  -- and as good otherwise.
  pub summarise_verdict :
      (now : ℤ) (counters : EccCounters) (c : MemoryIntegrityCheck W)
      → let r = (summarise now counters c).0 in
        let bad = uncorrectable_seen counters c in
        let warned = correctable_seen counters c in
        ((r.state ≡ fault)
          × ((c.config.uncorrectable_fault_threshold ≤ℤ bad) ⊎ (0 < c.mismatches_this_pass)))
        ⊎ (((r.state ≡ degraded) ⊎ (r.state ≡ ok))
            × (bad <ℤ c.config.uncorrectable_fault_threshold)
            × (c.mismatches_this_pass ≡ 0)
            × (((r.state ≡ degraded) × (c.config.correctable_warn_threshold ≤ℤ warned))
                ⊎ ((r.state ≡ ok) × (warned <ℤ c.config.correctable_warn_threshold))))
  unfolding summarise judge result
  summarise_verdict now counters c = ground arith

  -- If the counter of uncorrectable errors does not go back, the errors that two passes in a row
  -- report are together the increase since the first one's baseline: none is lost or counted
  -- twice.
  pub passes_add_up :
      (now : ℤ) (first second b : EccCounters) (c : MemoryIntegrityCheck W)
      → c.baseline ≡ some b
      → b.uncorrectable ≤ℤ first.uncorrectable
      → first.uncorrectable ≤ℤ second.uncorrectable
      → let d = (summarise now first c).1 in
        uncorrectable_seen first c +ℤ uncorrectable_seen second d
        ≡ second.uncorrectable -ℤ b.uncorrectable
  unfolding summarise
  passes_add_up now first second b c e h₁ h₂ =
      rw e (telescope b.uncorrectable first.uncorrectable second.uncorrectable h₁ h₂)
