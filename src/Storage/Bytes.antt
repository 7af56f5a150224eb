-- ===== src/Storage/Bytes.antt =====
-- Little-endian words and the checksum of firmware/components/transaction_store/
-- deck_transaction_store.cpp. The shifted bytes do not overlap, so `|` is written as a sum.
use Prim.Native.Nat.{bit_and, bit_xor}
use s3_rlcd_deck.Base.{
  ℕ, zero, suc, ◌+◌, ◌-◌, ◌*◌, ◌/◌, ◌%◌, ◌^◌, ◌<◌, ◌≡◌, refl, List, [], ◌∷◌, arith, u32_max, get_or,
}

abbrev pub read_u32 : ℕ → ℕ → ℕ → ℕ → ℕ
read_u32 b0 b1 b2 b3 = (b0 + b1 * 2 ^ 8 + b2 * 2 ^ 16 + b3 * 2 ^ 24) % 2 ^ 32

-- `read_u32(input + offset)`.
abbrev pub read_u32_at : List ℕ → ℕ → ℕ
read_u32_at input offset =
    read_u32 (get_or input offset 0) (get_or input (offset + 1) 0) (get_or input (offset + 2) 0)
      (get_or input (offset + 3) 0)

abbrev pub write_u32 : ℕ → List ℕ
write_u32 value =
    (value % 2 ^ 8)
    ∷ (value / 2 ^ 8 % 2 ^ 8)
    ∷ (value / 2 ^ 16 % 2 ^ 8)
    ∷ (value / 2 ^ 24 % 2 ^ 8)
    ∷ []

pub read_u32-write_u32 :
    (value : ℕ)
    → value < 2 ^ 32
    → read_u32
        (value % 2 ^ 8)
        (value / 2 ^ 8 % 2 ^ 8)
        (value / 2 ^ 16 % 2 ^ 8)
        (value / 2 ^ 24 % 2 ^ 8)
      ≡ value
read_u32-write_u32 value h = omega arith

-- One bit of the polynomial division.
unfoldable pub crc_bit : ℕ → ℕ
crc_bit crc = let mask = (2 ^ 32 - crc % 2) % 2 ^ 32 in bit_xor (crc / 2) (bit_and 0xedb8_8320 mask)

unfoldable pub crc_bits : ℕ → ℕ → ℕ
unfolding crc_bit
crc_bits zero crc = crc
crc_bits (suc bits) crc = crc_bits bits (crc_bit crc)

unfoldable pub crc_loop : ℕ → List ℕ → ℕ
unfolding crc_bits
crc_loop crc [] = crc
crc_loop crc (byte ∷ bytes) = crc_loop (crc_bits 8 (bit_xor crc byte)) bytes

-- `~crc` on 32 bits.
unfoldable pub crc32 : List ℕ → ℕ
unfolding crc_loop
crc32 bytes = u32_max - crc_loop u32_max bytes % 2 ^ 32

pub crc32-lt : (bytes : List ℕ) → crc32 bytes < 2 ^ 32
unfolding crc32
crc32-lt bytes = omega arith

-- The checksum's published check value, of the text "123456789".
crc32_check : crc32 (49 ∷ 50 ∷ 51 ∷ 52 ∷ 53 ∷ 54 ∷ 55 ∷ 56 ∷ 57 ∷ []) ≡ 0xcbf4_3926
unfolding crc32
crc32_check = refl
