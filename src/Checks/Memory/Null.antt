-- ===== src/Checks/Memory/Null.antt =====
-- The stand-in source of memory_integrity.py, `NullMemorySource`.
use ca1_health_monitor.Prelude.{
  ℕ, zero, suc, ◌-◌, ℤ, pos, negsuc, leb, true, List, [], ◌∷◌, ◌≡◌, arith, refl, returned,
  if◌then◌else◌,
}
use ca1_health_monitor.Prelude.Crc.{crc32}
use ca1_health_monitor.Prelude.Text.{same}
use ca1_health_monitor.Checks.Memory.{MemorySource}
use ca1_health_monitor.Checks.Memory.Sweep.{IsStable}

-- `bytes(n)`
zeros : ℕ → List ℕ
zeros zero = []
zeros (suc n) = 0 ∷ zeros n

-- `self._filler[:length]`, where a negative length leaves off the end
unfoldable pub filler : ℤ → List ℕ
unfolding zeros
filler (pos n) = zeros (if leb n 4096 then n else 4096)
filler (negsuc n) = zeros (4096 - suc n)

-- `NullMemorySource`, with the budget clock beside it
unfoldable pub null_source : {W : Type 0} → (W → ℤ × W) → MemorySource W
unfolding filler crc32
null_source budget_clock = record {
  read_page = λ offset length w. (returned (filler length), w);
  expected_checksum = λ offset length w. (returned (crc32 (filler length)), w);
  ecc_counters = λ w. (returned (record { correctable = pos 0; uncorrectable = pos 0 }), w);
  budget_clock = budget_clock;
}

same_refl : (n : ℕ) → same n n ≡ true
same_refl n = ground arith

-- The stand-in always answers, and every page is as recorded.
pub null_source-IsStable :
    {W : Type 0} (budget_clock : W → ℤ × W) → IsStable (null_source budget_clock) (λ _ _. true)
unfolding null_source
null_source-IsStable budget_clock = record {
  reads = λ offset length w.
      (filler length, w, crc32 (filler length), w, refl, refl, same_refl (crc32 (filler length)));
  counts = λ w. (record { correctable = pos 0; uncorrectable = pos 0 }, w, refl);
}
