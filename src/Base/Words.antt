-- ===== src/Base/Words.antt =====
-- Machine words: the counters that skip zero and the sums that stop at the maximum.
use Prim.Native.Nat.{ℕ, ◌+◌, ◌-◌, ◌%◌, ◌^◌, ◌≤◌, ◌<◌}
use mathlib.Core.Path.{◌≡◌}
use mathlib.Core.Logic.{◌≢◌}
use native.Mathlib.Omega.{arith}
use s3_rlcd_deck.Base.Tests.{ltb, ◌==◌, if◌then◌else◌}

abbrev pub u64_max : ℕ
u64_max = 2 ^ 64 - 1

abbrev pub u32_max : ℕ
u32_max = 2 ^ 32 - 1

-- `++value` on a uint64_t.
abbrev pub increment : ℕ → ℕ
increment value = (value + 1) % 2 ^ 64

unfoldable pub increment_nonzero : ℕ → ℕ
increment_nonzero value = let next = increment value in if next == 0 then 1 else next

unfoldable pub saturating_add : ℕ → ℕ → ℕ
saturating_add left right = if ltb (u64_max - right) left then u64_max else left + right

pub increment_nonzero_pos : (v : ℕ) → 0 < increment_nonzero v
unfolding increment_nonzero
increment_nonzero_pos v = ground arith

pub increment_nonzero-lt : (v : ℕ) → increment_nonzero v < 2 ^ 64
unfolding increment_nonzero
increment_nonzero-lt v = ground arith

pub increment_nonzero-ne : (v : ℕ) → v < 2 ^ 64 → increment_nonzero v ≢ v
unfolding increment_nonzero
increment_nonzero-ne v h = ground arith

pub increment_nonzero_next : (v : ℕ) → v < u64_max → increment_nonzero v ≡ v + 1
unfolding increment_nonzero
increment_nonzero_next v h = ground arith

pub saturating_add-lt : (a b : ℕ) → b < 2 ^ 64 → saturating_add a b < 2 ^ 64
unfolding saturating_add
saturating_add-lt a b h = ground arith

pub le-saturating_add : (a b : ℕ) → a < 2 ^ 64 → a ≤ saturating_add a b
unfolding saturating_add
le-saturating_add a b h = ground arith
