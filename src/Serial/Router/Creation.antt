-- ===== src/Serial/Router/Creation.antt =====
-- The free list of a new pool of deck_serial_router.cpp.
use s3_rlcd_deck.Base.{
  ℕ, zero, suc, ◌+◌, ◌/◌, ◌≤◌, ◌<◌, ◌≡◌, ◌∙◌, sym, ap, refl, Bool, ◌&&◌, some, List, [], ◌∷◌,
  replicate, length, get_or, ltb, leb, ◌==◌, if◌then◌else◌, arith,
}
use s3_rlcd_deck.Serial.Router.{Router, blank_block, blank_sink, no_block, fresh_blocks, create}
use s3_rlcd_deck.Serial.Router.Chain.{occurs, Chain, IsPool}
use s3_rlcd_deck.Serial.Router.Ring.{items}
use s3_rlcd_deck.Serial.Router.Shares.{IsSink, uses_of}
use s3_rlcd_deck.Serial.Router.Fifo.{Inv}

-- The numbers from a start on.
unfoldable indexes : ℕ → ℕ → List ℕ
indexes zero start = []
indexes (suc n) start = start ∷ indexes n (start + 1)

length-fresh_blocks : (n start : ℕ) → length (fresh_blocks n start) ≡ n
unfolding fresh_blocks
length-fresh_blocks zero start = refl
length-fresh_blocks (suc n) start = ap (λ m. suc m) (length-fresh_blocks n (start + 1))

get_or-fresh_blocks :
    (n start k : ℕ)
    → k < n
    → get_or (fresh_blocks n start) k blank_block
      ≡ record blank_block { next_free = if suc k == n then no_block else start + k + 1 }
unfolding fresh_blocks
get_or-fresh_blocks zero start k h = absurd (omega arith)
get_or-fresh_blocks (suc n) start zero h =
    ap (λ (x : ℕ). record blank_block { next_free = x }) (ground arith)
get_or-fresh_blocks (suc n) start (suc k) h =
    get_or-fresh_blocks n (start + 1) k (omega arith)
    ∙ ap (λ (x : ℕ). record blank_block { next_free = x }) (ground arith)

Chain-fresh_blocks : (n m k : ℕ) → k + m ≡ n → 0 < m → Chain (fresh_blocks n 0) k (indexes m k)
unfolding indexes
Chain-fresh_blocks n zero k e h = absurd (omega arith)
Chain-fresh_blocks n (suc zero) k e h =
    let at = get_or-fresh_blocks n 0 k (omega arith) in
    (refl, omega (arith, length-fresh_blocks n 0, e), ap (λ b. b.next_free) at ∙ ground arith)
Chain-fresh_blocks n (suc (suc m)) k e h =
    let at = get_or-fresh_blocks n 0 k (omega arith) in
    let next : (get_or (fresh_blocks n 0) k blank_block).next_free ≡ k + 1 =
      ap (λ b. b.next_free) at ∙ ground arith in
    (
      refl,
      omega (arith, length-fresh_blocks n 0, e),
      rw next (Chain-fresh_blocks n (suc m) (k + 1) (omega arith) (omega arith)),
    )

occurs-indexes :
    (k n start : ℕ)
    → occurs k (indexes n start) ≡ (if leb start k && ltb k (start + n) then 1 else 0)
unfolding occurs indexes
occurs-indexes k zero start = ground arith
occurs-indexes k (suc n) start = ground (arith, occurs-indexes k n (start + 1))

pub blank_sink-IsSink : IsSink blank_sink
blank_sink-IsSink = record { ready = λ e. absurd (ground (arith, e)); off = λ e. refl }

unused : (j : ℕ) → uses_of (replicate 4 blank_sink) j ≡ 0
unfolding uses_of occurs items
unused j = refl

-- In a new pool every block is free.
fresh-IsPool :
    (n : ℕ)
    → 0 < n
    → n ≤ no_block
    → IsPool
        (record { blocks = fresh_blocks n 0; free_head = 0 })
        (indexes n 0)
        (uses_of (replicate 4 blank_sink))
fresh-IsPool n some_there small =
    let count = length-fresh_blocks n 0 in
    record {
      chain = Chain-fresh_blocks n n 0 (omega arith) some_there;
      size = omega (arith, count, small);
      counts = λ k h.
          ap (λ b. b.references) (get_or-fresh_blocks n 0 k (omega (arith, count, h)))
          ∙ sym (unused k);
      share = λ k h. occurs-indexes k n 0 ∙ rw (unused k) (ground (arith, count, h));
      inside = λ k h. unused k;
    }

pub create-Inv :
    (session_id capacity initial : ℕ) (allocated : Bool) (r : Router)
    → create session_id capacity initial allocated ≡ some r
    → Inv r
unfolding create
create-Inv session_id capacity initial allocated r e =
    let n = capacity / 256 in
    let pool : r.pool ≡ record { blocks = fresh_blocks n 0; free_head = 0 } = ground arith in
    let sinks : r.sinks ≡ replicate 4 blank_sink = ground arith in
    let small : (0 < n) × (n ≤ no_block) = ground arith in
    let b = blank_sink-IsSink in
    record {
      free = indexes n 0;
      pool = rw (pool, sinks) (fresh-IsPool n small.0 small.1);
      sinks = rw sinks (b, (b, (b, (b, tt))));
      four = rw sinks refl;
    }
