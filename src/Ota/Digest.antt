-- ===== src/Ota/Digest.antt =====
-- The constant-time comparison of digests in
-- firmware/components/ota_service/deck_ota_transaction.cpp.
use Prim.Native.Nat.{bit_or, bit_xor}
use s3_rlcd_deck.Base.{
  ℕ, ◌%◌, ◌<◌, ◌≡◌, ◌↔◌, refl, Bool, true, ◌&&◌, List, [], ◌∷◌, arith, ltb, ◌==◌, ◌!=◌,
  if◌then◌else◌, length, passes_under, passes_under-at,
}

-- The loop over the bytes; `difference` is a uint8_t.
unfoldable pub collect_difference : ℕ → List ℕ → List ℕ → ℕ
collect_difference difference [] right = difference
collect_difference difference (l ∷ left) [] = difference
collect_difference difference (l ∷ left) (r ∷ right) =
    collect_difference (bit_or difference (bit_xor l r) % 256) left right

unfoldable pub digest_equal : List ℕ → List ℕ → Bool
unfolding collect_difference
digest_equal left right = collect_difference 0 left right == 0

abbrev pub AllBytes : List ℕ → Type 0
AllBytes [] = Unit {0}
AllBytes (x ∷ xs) = (x < 256) × AllBytes xs

-- Both operations over all pairs of bytes.
xor_byte : ℕ → ℕ → Bool
xor_byte a b = (if a == b then bit_xor a b == 0 else bit_xor a b != 0) && ltb (bit_xor a b) 256

or_byte : ℕ → ℕ → Bool
or_byte a b = if a == 0 && b == 0 then bit_or a b % 256 == 0 else bit_or a b % 256 != 0

xor_table : passes_under (λ a. passes_under (xor_byte a) 256) 256 ≡ true
unfolding passes_under xor_byte
xor_table = refl

or_table : passes_under (λ a. passes_under (or_byte a) 256) 256 ≡ true
unfolding passes_under or_byte
or_table = refl

xor_byte-true : (a b : ℕ) → a < 256 → b < 256 → xor_byte a b ≡ true
xor_byte-true a b ha hb =
    let row = passes_under-at (λ x. passes_under (xor_byte x) 256) 256 a ha xor_table in
    passes_under-at (xor_byte a) 256 b hb row

or_byte-true : (a b : ℕ) → a < 256 → b < 256 → or_byte a b ≡ true
or_byte-true a b ha hb =
    let row = passes_under-at (λ x. passes_under (or_byte x) 256) 256 a ha or_table in
    passes_under-at (or_byte a) 256 b hb row

bit_xor-facts : (a b : ℕ) → a < 256 → b < 256 → ((bit_xor a b ≡ 0) ↔ (a ≡ b)) × (bit_xor a b < 256)
unfolding xor_byte
bit_xor-facts a b ha hb = ground (arith, xor_byte-true a b ha hb)

bit_or-facts : (a b : ℕ) → a < 256 → b < 256 → (bit_or a b % 256 ≡ 0) ↔ ((a ≡ 0) × (b ≡ 0))
unfolding or_byte
bit_or-facts a b ha hb = ground (arith, or_byte-true a b ha hb)

-- No difference is collected, and none was there, exactly where the bytes agree.
collect_difference-zero :
    (d : ℕ) (left right : List ℕ)
    → d < 256
    → AllBytes left
    → AllBytes right
    → length left ≡ length right
    → (collect_difference d left right ≡ 0) ↔ ((d ≡ 0) × (left ≡ right))
unfolding collect_difference
collect_difference-zero d [] [] h hl hr e = ground arith
collect_difference-zero d [] (r ∷ right) h hl hr e = absurd (omega arith)
collect_difference-zero d (l ∷ left) [] h hl hr e = absurd (omega arith)
collect_difference-zero d (l ∷ left) (r ∷ right) h hl hr e =
    let x = bit_xor l r in
    ground (
      arith,
      bit_xor-facts l r hl.0 hr.0,
      bit_or-facts d x h,
      collect_difference-zero (bit_or d x % 256) left right (omega arith) hl.1 hr.1 (omega arith),
    )

-- For two 32-byte digests, or any two byte arrays of one length, the loop answers "equal" exactly
-- where they are the same.
pub digest_equal_iff :
    (left right : List ℕ)
    → AllBytes left
    → AllBytes right
    → length left ≡ length right
    → (digest_equal left right ≡ true) ↔ (left ≡ right)
unfolding digest_equal
digest_equal_iff left right hl hr e =
    ground (arith, collect_difference-zero 0 left right (omega arith) hl hr e)
