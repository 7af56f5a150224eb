-- ===== src/Serial/Router/Chain.antt =====
-- The free list and the reference counts of the pool of deck_serial_router.cpp.
use s3_rlcd_deck.Base.{
  ℕ, zero, suc, ◌+◌, ◌-◌, ◌≤◌, ◌<◌, ◌≡◌, ◌≢◌, ◌∙◌, ap, refl, true, false, List, [], ◌∷◌, inl, inr,
  length, get_or, set_elem, length-set_elem, get_or-set_elem, get_or-set_elem_other, ◌==◌, ==_iff,
  if◌then◌else◌, arith, Bool-cases,
}
use s3_rlcd_deck.Serial.Router.{
  Block, Pool, blank_block, block_at, set_block, no_block, return_block, release_reference,
  copy_block,
}

-- How often a block stands in a list.
unfoldable pub occurs : ℕ → List ℕ → ℕ
occurs k [] = 0
occurs k (x ∷ xs) = let rest = occurs k xs in if x == k then rest + 1 else rest

-- The blocks that `next_free` leads through from a head.
abbrev pub Chain : List Block → ℕ → List ℕ → Type 0
Chain blocks head [] = head ≡ no_block
Chain blocks head (k ∷ free) =
    (head ≡ k) × (k < length blocks) × Chain blocks (get_or blocks k blank_block).next_free free

-- With how often each block is queued: it is in the free list once where it is not, and never where
-- it is, and it counts its references.
pub record IsPool (p : Pool) (free : List ℕ) (uses : ℕ → ℕ) : Type 0 where
  pub chain : Chain p.blocks p.free_head free
  pub size : length p.blocks ≤ no_block
  pub counts : (k : ℕ) → k < length p.blocks → (block_at p k).references ≡ uses k
  pub share : (k : ℕ) → k < length p.blocks → occurs k free ≡ (if uses k == 0 then 1 else 0)
  pub inside : (k : ℕ) → length p.blocks ≤ k → uses k ≡ 0

-- What a block that is queued carries is the same in both pools.
abbrev pub SameQueued : Pool → Pool → (ℕ → ℕ) → Type 0
SameQueued p q uses =
    (j session_id : ℕ) → uses j ≢ 0 → copy_block session_id q j ≡ copy_block session_id p j

pub get_or_set :
    (blocks : List Block) (k j : ℕ) (b : Block)
    → k < length blocks
    → get_or (set_elem blocks k b) j blank_block
      ≡ (if j == k then b else get_or blocks j blank_block)
get_or_set blocks k j b h = elim (Bool-cases (j == k)) [
  | inl same ↦
      let e : j ≡ k = (==_iff j k).0 same in rw (same, e) (get_or-set_elem blocks k b blank_block h)
  | inr other ↦
      let e : k ≢ j = λ d. ground (arith, other, d) in
      rw other (get_or-set_elem_other blocks k j b blank_block e)
]

pub Chain-set_elem :
    (blocks : List Block) (head k : ℕ) (free : List ℕ) (b : Block)
    → k < length blocks
    → occurs k free ≡ 0
    → Chain blocks head free
    → Chain (set_elem blocks k b) head free
unfolding occurs
Chain-set_elem blocks head k [] b h away c = c
Chain-set_elem blocks head k (x ∷ free) b h away (first, inside, rest) =
    let other : (x == k) ≡ false = ground arith in
    let left : occurs k free ≡ 0 = ground arith in
    let same : get_or (set_elem blocks k b) x blank_block ≡ get_or blocks x blank_block =
      get_or_set blocks k x b h ∙ rw other refl in
    let next = (get_or blocks x blank_block).next_free in
    (
      first,
      omega (arith, length-set_elem blocks k b, inside),
      rw same (Chain-set_elem blocks next k free b h left rest),
    )

-- A pool with other contents of a block that is not free, and another count of its uses.
IsPool-set_elem :
    (p : Pool) (free : List ℕ) (uses next : ℕ → ℕ) (k : ℕ) (b : Block)
    → k < length p.blocks
    → IsPool p free uses
    → uses k ≢ 0
    → next k ≢ 0
    → b.references ≡ next k
    → ((j : ℕ) → j ≢ k → next j ≡ uses j)
    → IsPool (set_block p k b) free next
IsPool-set_elem p free uses next k b h i used kept counted others =
    let away : occurs k free ≡ 0 = ground (arith, i.share k h) in
    let count = length-set_elem p.blocks k b in
    record {
      chain = Chain-set_elem p.blocks p.free_head k free b h away i.chain;
      size = omega (arith, count, i.size);
      counts = λ j l. ground (
        arith,
        get_or_set p.blocks k j b h,
        i.counts j (omega (arith, count, l)),
        others j,
        counted,
      );
      share = λ j l. ground (arith, i.share j (omega (arith, count, l)), others j, away, kept);
      inside = λ j l. ground (arith, i.inside j (omega (arith, count, l)), others j, count);
    }

-- A block that is no longer used goes to the front of the free list.
IsPool-return_block :
    (p : Pool) (free : List ℕ) (uses next : ℕ → ℕ) (k : ℕ)
    → k < length p.blocks
    → IsPool p free uses
    → uses k ≢ 0
    → next k ≡ 0
    → ((j : ℕ) → j ≢ k → next j ≡ uses j)
    → IsPool (return_block p k) (k ∷ free) next
unfolding return_block occurs
IsPool-return_block p free uses next k h i used gone others =
    let b : Block = record blank_block { next_free = p.free_head } in
    let away : occurs k free ≡ 0 = ground (arith, i.share k h) in
    let count = length-set_elem p.blocks k b in
    let here : get_or (set_elem p.blocks k b) k blank_block ≡ b =
      get_or-set_elem p.blocks k b blank_block h in
    record {
      chain = (
        refl,
        omega (arith, count, h),
        rw here (Chain-set_elem p.blocks p.free_head k free b h away i.chain),
      );
      size = omega (arith, count, i.size);
      counts = λ j l. ground (
        arith,
        get_or_set p.blocks k j b h,
        i.counts j (omega (arith, count, l)),
        others j,
        gone,
      );
      share = λ j l. ground (arith, i.share j (omega (arith, count, l)), others j, away, gone);
      inside = λ j l. ground (arith, i.inside j (omega (arith, count, l)), others j, count);
    }

set_block-SameQueued :
    (p : Pool) (uses : ℕ → ℕ) (k : ℕ) (b : Block)
    → k < length p.blocks
    → b.sequence ≡ (block_at p k).sequence
    → b.monotonic_ms ≡ (block_at p k).monotonic_ms
    → b.bytes ≡ (block_at p k).bytes
    → SameQueued p (set_block p k b) uses
unfolding copy_block
set_block-SameQueued p uses k b h e1 e2 e3 j session_id used =
    rw (get_or_set p.blocks k j b h) (ground (arith, e1, e2, e3, get_at))
  where
    get_at : (j == k) ≡ true → get_or p.blocks j blank_block ≡ get_or p.blocks k blank_block
    get_at e = ap (λ n. get_or p.blocks n blank_block) ((==_iff j k).0 e)

pub set_elem_twice :
    (blocks : List Block) (k : ℕ) (a b : Block)
    → set_elem (set_elem blocks k a) k b ≡ set_elem blocks k b
set_elem_twice [] k a b = refl
set_elem_twice (x ∷ blocks) zero a b = refl
set_elem_twice (x ∷ blocks) (suc k) a b = ap (λ l. x ∷ l) (set_elem_twice blocks k a b)

return_block-set_block :
    (p : Pool) (k : ℕ) (b : Block) → return_block (set_block p k b) k ≡ return_block p k
unfolding return_block
return_block-set_block p k b =
    rw (set_elem_twice p.blocks k b (record blank_block { next_free = p.free_head })) refl

pub unused_other : (uses : ℕ → ℕ) (j k : ℕ) → uses k ≡ 0 → uses j ≢ 0 → (j == k) ≡ false
unused_other uses j k gone used = elim (Bool-cases (j == k)) [
  | inl same ↦ absurd (used (ap uses ((==_iff j k).0 same) ∙ gone))
  | inr other ↦ other
]

return_block-SameQueued :
    (p : Pool) (uses : ℕ → ℕ) (k : ℕ)
    → k < length p.blocks
    → uses k ≡ 0
    → SameQueued p (return_block p k) uses
unfolding return_block copy_block
return_block-SameQueued p uses k h gone j session_id used =
    let other = unused_other uses j k gone used in
    rw (get_or_set p.blocks k j (record blank_block { next_free = p.free_head }) h, other) refl

-- Giving a reference back frees a block that has no other.
pub IsPool-release_reference :
    (p : Pool) (free : List ℕ) (uses next : ℕ → ℕ) (k : ℕ)
    → k < length p.blocks
    → IsPool p free uses
    → uses k ≡ suc (next k)
    → ((j : ℕ) → j ≢ k → next j ≡ uses j)
    → IsPool (release_reference p k) (if next k == 0 then k ∷ free else free) next
      × SameQueued p (release_reference p k) next
unfolding release_reference
IsPool-release_reference p free uses next k h i used others =
    let b = block_at p k in
    let lower : Block = record b { references = b.references - 1 } in
    let q = set_block p k lower in
    let count = length-set_elem p.blocks k lower in
    let now = i.counts k h in
    let some_left : (b.references == 0) ≡ false = ground (arith, now, used) in
    let same = set_block-SameQueued p next k lower h refl refl refl in
    elim (Bool-cases (next k == 0)) [
      | inl gone ↦
          let last : (b.references - 1 == 0) ≡ true = ground (arith, now, used, gone) in
          let twice = return_block-set_block p k lower in
          rw (some_left, last, gone, twice)
            (
              IsPool-return_block p free uses next k h i (omega (arith, used))
                  (ground (arith, gone)) others,
              return_block-SameQueued p next k h (ground (arith, gone)),
            )
      | inr kept ↦
          let more : (b.references - 1 == 0) ≡ false = ground (arith, now, used, kept) in
          rw (some_left, more, kept)
            (
              IsPool-set_elem p free uses next k lower h i (omega (arith, used))
                  (ground (arith, kept)) (omega (arith, now, used)) others,
              same,
            )
    ]
