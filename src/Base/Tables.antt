-- ===== src/Base/Tables.antt =====
-- Facts about small numbers, checked one value after the other, and the bits of a byte.
use Prim.Native.Nat.{ℕ, zero, suc, ◌%◌, ◌^◌, ◌<◌, bit_and, bit_or}
use mathlib.Core.Path.{◌≡◌, refl}
use mathlib.Core.Bool.{Bool, true, false, not, ◌&&◌}
use native.Mathlib.Omega.{arith}
use s3_rlcd_deck.Base.Tests.{◌==◌, ◌!=◌, ltb, if◌then◌else◌}

-- The test passes at every number under the bound.
unfoldable pub passes_under : (ℕ → Bool) → ℕ → Bool
passes_under test zero = true
passes_under test (suc bound) = passes_under test bound && test bound

pub passes_under-at :
    (test : ℕ → Bool) (bound k : ℕ) → k < bound → passes_under test bound ≡ true → test k ≡ true
unfolding passes_under
passes_under-at test zero k under table = elim under [ ]
passes_under-at test (suc bound) k under table = ground (arith, passes_under-at test bound k, table)

-- `(mask & (1U << index)) != 0` on a byte.
unfoldable pub test_bit : ℕ → ℕ → Bool
test_bit mask index = bit_and mask (2 ^ index) != 0

-- `mask |= static_cast<uint8_t>(1U << index)`.
unfoldable pub set_bit : ℕ → ℕ → ℕ
set_bit mask index = bit_or mask (2 ^ index % 256)

bit_law : ℕ → ℕ → ℕ → Bool
bit_law mask i j =
    ltb (set_bit mask i) 256
    && (if i == j
        then test_bit (set_bit mask i) j
        else if test_bit mask j
        then test_bit (set_bit mask i) j
        else not (test_bit (set_bit mask i) j))

bit_table : passes_under (λ mask. passes_under (λ i. passes_under (bit_law mask i) 8) 8) 256 ≡ true
unfolding passes_under bit_law test_bit set_bit
bit_table = refl

bit_law-true : (mask i j : ℕ) → mask < 256 → i < 8 → j < 8 → bit_law mask i j ≡ true
bit_law-true mask i j hm hi hj =
    let masks = passes_under-at (λ m. passes_under (λ k. passes_under (bit_law m k) 8) 8) 256 in
    let indexes = passes_under-at (λ k. passes_under (bit_law mask k) 8) 8 in
    passes_under-at (bit_law mask i) 8 j hj (indexes i hi (masks mask hm bit_table))

pub set_bit-lt : (mask i : ℕ) → mask < 256 → i < 8 → set_bit mask i < 256
unfolding bit_law
set_bit-lt mask i hm hi = ground (arith, bit_law-true mask i i hm hi hi)

pub test_bit-set_bit :
    (mask i j : ℕ)
    → mask < 256
    → i < 8
    → j < 8
    → test_bit (set_bit mask i) j ≡ (if i == j then true else test_bit mask j)
unfolding bit_law
test_bit-set_bit mask i j hm hi hj = ground (arith, bit_law-true mask i j hm hi hj)

zero_table : passes_under (λ j. not (test_bit 0 j)) 8 ≡ true
unfolding passes_under test_bit
zero_table = refl

pub test_bit-zero : (j : ℕ) → j < 8 → test_bit 0 j ≡ false
test_bit-zero j h = ground (arith, passes_under-at (λ i. not (test_bit 0 i)) 8 j h zero_table)
