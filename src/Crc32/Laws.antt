-- ===== src/Crc32/Laws.antt =====
-- The checksum fits 32 bits, and differs for texts that differ in one byte.
use Prim.Native.Nat.{bit_xor}
use termwire.Common.{
  ℕ, zero, suc, ◌+◌, ◌/◌, ◌%◌, ◌^◌, ◌<◌, ◌≡◌, ◌≢◌, ◌⊎◌, inl, inr, List, [], ◌∷◌, arith, IsByte,
  IsBytes, All-set, length, set, get_or,
}
use termwire.Common.Xor.{xor-lt, xor_high, xor_cancel_left, xor_cancel_right}
use termwire.Crc32.{polynomial, crc_bit, crc_bits, crc_byte, update, checksum_ieee}

crc_bit-lt : (c : ℕ) → c < 2 ^ 32 → crc_bit c < 2 ^ 32
unfolding crc_bit
crc_bit-lt c h = ground (arith, xor-lt 32 (c / 2) polynomial (omega arith) (omega arith))

crc_bit_even : (c : ℕ) → c % 2 ≡ 0 → crc_bit c ≡ c / 2
unfolding crc_bit
crc_bit_even c e = ground arith

-- The polynomial's top bit shows in the result.
crc_bit_odd : (c : ℕ) → c < 2 ^ 32 → c % 2 ≡ 1 → crc_bit c ≡ 2 ^ 31 + bit_xor (c / 2) 0x6db88320
unfolding crc_bit
crc_bit_odd c h e = ground (arith, xor_high 31 (c / 2) 0x6db88320 (omega arith) (omega arith))

parity : (c : ℕ) → (c % 2 ≡ 0) ⊎ (c % 2 ≡ 1)
parity c = omega arith

crc_bit_inj : (c d : ℕ) → c < 2 ^ 32 → d < 2 ^ 32 → crc_bit c ≡ crc_bit d → c ≡ d
crc_bit_inj c d h k e = split (parity c) (parity d)
  where
    half_lt : (x : ℕ) → x < 2 ^ 32 → x / 2 < 2 ^ 31
    half_lt x p = omega arith

    split : (c % 2 ≡ 0) ⊎ (c % 2 ≡ 1) → (d % 2 ≡ 0) ⊎ (d % 2 ≡ 1) → c ≡ d
    split (inl p) (inl q) = omega (arith, crc_bit_even c p, crc_bit_even d q)
    split (inl p) (inr q) = absurd (omega (arith, crc_bit_even c p, crc_bit_odd d k q))
    split (inr p) (inl q) = absurd (omega (arith, crc_bit_odd c h p, crc_bit_even d q))
    split (inr p) (inr q) = omega (
      arith,
      xor_cancel_right 31 (c / 2) (d / 2) 0x6db88320 (half_lt c h) (half_lt d k) (omega arith)
          (omega (arith, crc_bit_odd c h p, crc_bit_odd d k q)),
    )

crc_bits-lt : (n c : ℕ) → c < 2 ^ 32 → crc_bits n c < 2 ^ 32
unfolding crc_bits
crc_bits-lt zero c h = h
crc_bits-lt (suc n) c h = crc_bits-lt n (crc_bit c) (crc_bit-lt c h)

crc_bits_inj : (n c d : ℕ) → c < 2 ^ 32 → d < 2 ^ 32 → crc_bits n c ≡ crc_bits n d → c ≡ d
unfolding crc_bits
crc_bits_inj zero c d h k e = e
crc_bits_inj (suc n) c d h k e =
    crc_bit_inj c d h k (crc_bits_inj n (crc_bit c) (crc_bit d) (crc_bit-lt c h) (crc_bit-lt d k) e)

IsByte-lt : (b : ℕ) → IsByte b → b < 2 ^ 32
IsByte-lt b h = omega arith

crc_byte-lt : (c b : ℕ) → c < 2 ^ 32 → IsByte b → crc_byte c b < 2 ^ 32
unfolding crc_byte
crc_byte-lt c b h k = crc_bits-lt 8 (bit_xor c b) (xor-lt 32 c b h (IsByte-lt b k))

-- A step tells apart two states, and two bytes.
crc_byte_inj_state :
    (c d b : ℕ) → c < 2 ^ 32 → d < 2 ^ 32 → IsByte b → crc_byte c b ≡ crc_byte d b → c ≡ d
unfolding crc_byte
crc_byte_inj_state c d b h k p e =
    let p' = IsByte-lt b p in
    xor_cancel_right 32 c d b h k p'
      (crc_bits_inj 8 _ _ (xor-lt 32 c b h p') (xor-lt 32 d b k p') e)

crc_byte_inj_byte :
    (c a b : ℕ) → c < 2 ^ 32 → IsByte a → IsByte b → crc_byte c a ≡ crc_byte c b → a ≡ b
unfolding crc_byte
crc_byte_inj_byte c a b h p q e =
    let p' = IsByte-lt a p in
    let q' = IsByte-lt b q in
    xor_cancel_left 32 a b c p' q' h
      (crc_bits_inj 8 _ _ (xor-lt 32 c a h p') (xor-lt 32 c b h q') e)

pub update-lt : (c : ℕ) (bs : List ℕ) → c < 2 ^ 32 → IsBytes bs → update c bs < 2 ^ 32
unfolding update
update-lt c [] h p = h
update-lt c (b ∷ bs) h p = update-lt (crc_byte c b) bs (crc_byte-lt c b h p.0) p.1

update_inj_state :
    (c d : ℕ) (bs : List ℕ)
    → c < 2 ^ 32
    → d < 2 ^ 32
    → IsBytes bs
    → update c bs ≡ update d bs
    → c ≡ d
unfolding update
update_inj_state c d [] h k p e = e
update_inj_state c d (b ∷ bs) h k p e = crc_byte_inj_state c d b h k p.0 (
    update_inj_state (crc_byte c b) (crc_byte d b) bs (crc_byte-lt c b h p.0)
      (crc_byte-lt d b k p.0) p.1 e)

update_one_byte :
    (c : ℕ) (bs : List ℕ) (i v : ℕ)
    → c < 2 ^ 32
    → IsBytes bs
    → i < length bs
    → IsByte v
    → update c (set bs i v) ≡ update c bs
    → v ≡ get_or bs i 0
unfolding update
update_one_byte c [] i v h p k q e = absurd (omega arith)
update_one_byte c (b ∷ bs) zero v h p k q e =
    crc_byte_inj_byte c v b h q p.0
      (update_inj_state _ _ bs (crc_byte-lt c v h q) (crc_byte-lt c b h p.0) p.1 e)
update_one_byte c (b ∷ bs) (suc i) v h p k q e =
    update_one_byte (crc_byte c b) bs i v (crc_byte-lt c b h p.0) p.1 (omega arith) q e

pub checksum_ieee-lt : (bs : List ℕ) → IsBytes bs → checksum_ieee bs < 2 ^ 32
unfolding checksum_ieee
checksum_ieee-lt bs p =
    xor-lt 32 (update 0xffffffff bs) 0xffffffff (update-lt 0xffffffff bs (omega arith) p)
      (omega arith)

-- A text with one byte changed has another checksum.
pub checksum_ieee_one_byte :
    (bs : List ℕ) (i v : ℕ)
    → IsBytes bs
    → i < length bs
    → IsByte v
    → v ≢ get_or bs i 0
    → checksum_ieee (set bs i v) ≢ checksum_ieee bs
unfolding checksum_ieee
checksum_ieee_one_byte bs i v p k q ne e = ne (
    update_one_byte 0xffffffff bs i v (omega arith) p k q (
      xor_cancel_right 32 _ _ 0xffffffff
        (update-lt 0xffffffff (set bs i v) (omega arith) (All-set IsByte bs i v p q))
        (update-lt 0xffffffff bs (omega arith) p) (omega arith) e))
