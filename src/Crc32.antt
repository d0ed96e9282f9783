-- ===== src/Crc32.antt =====
-- `hash/crc32.ChecksumIEEE`, which protocol/protocol.go computes over a frame: the reflected
-- IEEE polynomial, one bit at a time.
pub mod Laws
mod Tests
use Prim.Native.Nat.{bit_xor}
use termwire.Common.{ℕ, zero, suc, ◌/◌, ◌%◌, List, [], ◌∷◌, ◌==◌, if◌then◌else◌}

abbrev pub polynomial : ℕ
polynomial = 0xedb88320

pub crc_bit : ℕ → ℕ
crc_bit c = if c % 2 == 1 then bit_xor (c / 2) polynomial else c / 2

pub crc_bits : ℕ → ℕ → ℕ
crc_bits zero c = c
crc_bits (suc n) c = crc_bits n (crc_bit c)

pub crc_byte : ℕ → ℕ → ℕ
crc_byte c b = crc_bits 8 (bit_xor c b)

pub update : ℕ → List ℕ → ℕ
update c [] = c
update c (b ∷ bs) = update (crc_byte c b) bs

unfoldable pub checksum_ieee : List ℕ → ℕ
unfolding crc_bit crc_bits crc_byte update
checksum_ieee bs = bit_xor (update 0xffffffff bs) 0xffffffff
