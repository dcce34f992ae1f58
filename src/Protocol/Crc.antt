-- ===== src/Protocol/Crc.antt =====
-- internal/protocol/crc.go: CRC-16/X25.
use Prim.Native.Nat.{bit_xor}
use zx909_gw.Prelude.{ℕ, zero, suc, ◌/◌, ◌%◌, [], ◌∷◌, ◌==◌, if◌then◌else◌}
use zx909_gw.Bytes.{Bytes}

-- One of the eight rounds for a byte.
unfoldable pub crc_bit : ℕ → ℕ
crc_bit crc = if crc % 2 == 1 then bit_xor (crc / 2) 0x8408 else crc / 2

unfoldable pub crc_bits : ℕ → ℕ → ℕ
unfolding crc_bit
crc_bits zero crc = crc
crc_bits (suc n) crc = crc_bits n (crc_bit crc)

unfoldable pub crc_bytes : ℕ → Bytes → ℕ
unfolding crc_bits
crc_bytes crc [] = crc
crc_bytes crc (b ∷ bs) = crc_bytes (crc_bits 8 (bit_xor crc b)) bs

unfoldable pub crc16_x25 : Bytes → ℕ
unfolding crc_bytes
crc16_x25 bs = bit_xor (crc_bytes 0xFFFF bs) 0xFFFF
