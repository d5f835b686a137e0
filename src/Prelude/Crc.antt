-- ===== src/Prelude/Crc.antt =====
-- `zlib.crc32` of a list of bytes.
use Prim.Native.Nat.{ℕ, zero, suc, ◌/◌, ◌%◌, bit_xor}
use mathlib.Core.Path.{◌≡◌, refl}
use mathlib.Core.List.{List, [], ◌∷◌}
use ca1_health_monitor.Prelude.Tests.{if◌then◌else◌}
use ca1_health_monitor.Prelude.Text.{same}

crc_bit : ℕ → ℕ
crc_bit c = if same (c % 2) 1 then bit_xor (c / 2) 0xedb88320 else c / 2

crc_bits : ℕ → ℕ → ℕ
unfolding crc_bit
crc_bits zero c = c
crc_bits (suc n) c = crc_bits n (crc_bit c)

crc_bytes : ℕ → List ℕ → ℕ
unfolding crc_bits
crc_bytes c [] = c
crc_bytes c (b ∷ rest) = crc_bytes (crc_bits 8 (bit_xor c b)) rest

unfoldable pub crc32 : List ℕ → ℕ
unfolding crc_bytes
crc32 bytes = bit_xor (crc_bytes 0xffffffff bytes) 0xffffffff

-- The check value of the algorithm, for the digits 1 to 9.
crc32_check : crc32 (49 ∷ 50 ∷ 51 ∷ 52 ∷ 53 ∷ 54 ∷ 55 ∷ 56 ∷ 57 ∷ []) ≡ 0xcbf43926
unfolding crc32
crc32_check = refl
