-- ===== src/Spool/Crc.antt =====
-- hash/crc32's ChecksumIEEE, bit by bit: the reflected polynomial 0xEDB88320.
use Prim.Native.Nat.{bit_xor}
use go_collector.Base.{
  ℕ, zero, suc, ◌/◌, ◌%◌, ◌^◌, ◌<◌, [], ◌∷◌, ◌≡◌, refl, arith, if◌then◌else◌, ◌==◌,
}
use go_collector.Base.Bytes.{Bytes, codes}

crc_bit : ℕ → ℕ
crc_bit c = if c % 2 == 1 then bit_xor (c / 2) 0xEDB88320 else c / 2

crc_bits : ℕ → ℕ → ℕ
unfolding crc_bit
crc_bits zero c = c
crc_bits (suc n) c = crc_bits n (crc_bit c)

crc_bytes : ℕ → Bytes → ℕ
unfolding crc_bits
crc_bytes c [] = c
crc_bytes c (b ∷ bs) = crc_bytes (crc_bits 8 (bit_xor c b)) bs

unfoldable pub crc32 : Bytes → ℕ
unfolding crc_bytes
crc32 bs = bit_xor (crc_bytes 0xFFFFFFFF bs) 0xFFFFFFFF % 2 ^ 32

pub crc32-lt : (bs : Bytes) → crc32 bs < 2 ^ 32
unfolding crc32
crc32-lt bs = omega arith

-- The check value that the algorithm is catalogued under.
crc32_check : crc32 (codes "123456789") ≡ 0xCBF43926
unfolding crc32
crc32_check = refl
