-- ===== src/Serial/Router/Replay.antt =====
-- Reading the history of deck_serial_router.cpp on from a block, against the list of its blocks.
use native.Mathlib.Nat.{mod-add-mod}
use s3_rlcd_deck.Base.{
  ℕ, zero, suc, ◌+◌, ◌-◌, ◌%◌, ◌<◌, ◌≡◌, ◌∙◌, sym, ap, refl, true, false, not, ◌||◌, Option, none,
  some, List, [], ◌∷◌, inl, inr, map, ◌==◌, if◌then◌else◌, arith, Bool-cases, Option-cases,
}
use s3_rlcd_deck.Serial.Router.{
  Pool, Sink, Router, RoutedBlock, copy_block, block_at, sink_block_at,
}
use s3_rlcd_deck.Serial.Router.Calls.{
  sink_at, has_sink, CopyResult, copied, gap, nothing_queued, copy_after, find_sequence,
}
use s3_rlcd_deck.Serial.Router.Ring.{items, mod_small}
use s3_rlcd_deck.Serial.Router.Fifo.{Inv, contents}
use s3_rlcd_deck.Serial.Router.Steps.{sink_at-IsSink}

-- What stands behind the first block of a sequence number.
unfoldable pub behind : ℕ → List RoutedBlock → Option (List RoutedBlock)
behind after_sequence [] = none
behind after_sequence (b ∷ bs) =
    let rest = behind after_sequence bs in if b.sequence == after_sequence then some bs else rest

abbrev pub next_of : RoutedBlock → Option (List RoutedBlock) → CopyResult
next_of b none = gap b
next_of b (some []) = nothing_queued
next_of b (some (c ∷ cs)) = copied c

-- What a reader of a list of blocks gets, that has seen those up to a sequence number; it starts at
-- the first one with the number 0, and where the one that it saw is gone.
unfoldable pub replay : List RoutedBlock → ℕ → CopyResult
replay [] after_sequence = nothing_queued
replay (b ∷ bs) after_sequence =
    if after_sequence == 0 then copied b else next_of b (behind after_sequence (b ∷ bs))

module _ (session_id : ℕ) (p : Pool) (s : Sink) where
  -- Some blocks of the sink, from an offset on.
  abbrev blocks_from : ℕ → ℕ → List RoutedBlock
  blocks_from offset n =
      map (λ k. copy_block session_id p k)
        (items s.blocks s.capacity_blocks ((s.head + offset) % s.capacity_blocks) n)

  abbrev left_of : ℕ → Option ℕ → Option (List RoutedBlock)
  left_of size none = none
  left_of size (some offset) = some (blocks_from (offset + 1) (size - (offset + 1)))

  blocks_from-suc :
      (offset n : ℕ)
      → blocks_from offset (suc n)
        ≡ copy_block session_id p (sink_block_at s offset) ∷ blocks_from (offset + 1) n
  unfolding items
  blocks_from-suc offset n =
      let f = λ (k : ℕ). copy_block session_id p k in
      let e : s.head + offset + 1 ≡ s.head + (offset + 1) = omega arith in
      ap (λ x. f (sink_block_at s offset) ∷ map f (items s.blocks s.capacity_blocks x n))
        (mod-add-mod (s.head + offset) s.capacity_blocks 1 ∙ ap (λ x. x % s.capacity_blocks) e)

  behind-blocks_from :
      (after_sequence offset n : ℕ)
      → behind after_sequence (blocks_from offset n)
        ≡ left_of (offset + n) (find_sequence p s after_sequence offset n)
  unfolding behind find_sequence items copy_block
  behind-blocks_from after_sequence offset zero = refl
  behind-blocks_from after_sequence offset (suc n) =
      let first = (block_at p (sink_block_at s offset)).sequence in
      ap (λ l. behind after_sequence l) (blocks_from-suc offset n)
      ∙ (elim (Bool-cases (first == after_sequence)) [
        | inl here ↦
            let left : n ≡ offset + suc n - (offset + 1) = omega arith in
            rw here (ap (λ m. some (blocks_from (offset + 1) m)) left)
        | inr other ↦
            let size : offset + 1 + n ≡ offset + suc n = omega arith in
            rw other (
              behind-blocks_from after_sequence (offset + 1) n
              ∙ ap (λ m. left_of m (find_sequence p s after_sequence (offset + 1) n)) size)
      ])

  find_sequence-lt :
      (after_sequence offset n found : ℕ)
      → find_sequence p s after_sequence offset n ≡ some found
      → found < offset + n
  unfolding find_sequence
  find_sequence-lt after_sequence offset zero found e = absurd (ground (arith, e))
  find_sequence-lt after_sequence offset (suc n) found e =
      ground (arith, e, find_sequence-lt after_sequence (offset + 1) n found)

  -- What is given out where the block was found.
  next_of-left_of :
      (first : RoutedBlock) (offset : ℕ)
      → offset < s.count
      → next_of first (left_of s.count (some offset)) ≡ (
          if offset + 1 == s.count
          then nothing_queued
          else copied (copy_block session_id p (sink_block_at s (offset + 1))))
  unfolding items
  next_of-left_of first offset h = elim (Bool-cases (offset + 1 == s.count)) [
    | inl last ↦
        let none_left : s.count - (offset + 1) ≡ 0 = ground (arith, last) in
        rw last (ap (λ m. next_of first (some (blocks_from (offset + 1) m))) none_left)
    | inr more ↦
        let n = s.count - (offset + 1) - 1 in
        let some_left : s.count - (offset + 1) ≡ suc n = ground (arith, more, h) in
        rw more (
          ap (λ m. next_of first (some (blocks_from (offset + 1) m))) some_left
          ∙ ap (λ l. next_of first (some l)) (blocks_from-suc (offset + 1) n))
  ]

  behind_all :
      (after_sequence : ℕ)
      → behind after_sequence (blocks_from 0 s.count)
        ≡ left_of s.count (find_sequence p s after_sequence 0 s.count)
  behind_all after_sequence =
      let size : 0 + s.count ≡ s.count = omega arith in
      behind-blocks_from after_sequence 0 s.count
      ∙ ap (λ m. left_of m (find_sequence p s after_sequence 0 s.count)) size

  next_of_missing :
      (first : RoutedBlock) (after_sequence : ℕ)
      → find_sequence p s after_sequence 0 s.count ≡ none
      → next_of first (behind after_sequence (blocks_from 0 s.count)) ≡ gap first
  next_of_missing first after_sequence e =
      ap (λ l. next_of first l) (behind_all after_sequence ∙ ap (λ o. left_of s.count o) e)

  next_of_found :
      (first : RoutedBlock) (after_sequence offset : ℕ)
      → find_sequence p s after_sequence 0 s.count ≡ some offset
      → next_of first (behind after_sequence (blocks_from 0 s.count)) ≡ (
          if offset + 1 == s.count
          then nothing_queued
          else copied (copy_block session_id p (sink_block_at s (offset + 1))))
  next_of_found first after_sequence offset e =
      let inside = find_sequence-lt after_sequence 0 s.count offset e in
      ap (λ l. next_of first l) (behind_all after_sequence ∙ ap (λ o. left_of s.count o) e)
      ∙ next_of-left_of first offset (omega (arith, inside))

queue-contents :
    (r : Router) (id : ℕ)
    → Inv r
    → has_sink r id ≡ true
    → contents r id ≡ blocks_from r.session_id r.pool (sink_at r id) 0 (sink_at r id).count
unfolding contents
queue-contents r id i there =
    let s = sink_at r id in
    let f = λ (k : ℕ). copy_block r.session_id r.pool k in
    let e : s.head + 0 ≡ s.head = omega arith in
    let ready = (sink_at-IsSink r id i (ground (arith, there))).ready (ground (arith, there)) in
    ap (λ x. map f (items s.blocks s.capacity_blocks x s.count))
      (sym (ap (λ x. x % s.capacity_blocks) e ∙ mod_small s.head s.capacity_blocks ready.0))

-- A reader of a retained sink gets what a reader of the list of its blocks gets.
pub copy_after-replay :
    (r : Router) (id after_sequence : ℕ)
    → Inv r
    → has_sink r id ≡ true
    → (sink_at r id).retained ≡ true
    → (copy_after r id after_sequence).1 ≡ replay (contents r id) after_sequence
unfolding copy_after replay items
copy_after-replay r id after_sequence i there keeps =
    let s = sink_at r id in
    let open_sink : (not (has_sink r id) || not s.retained) ≡ false =
      ground (arith, there, keeps) in
    let all = queue-contents r id i there in
    let first = copy_block r.session_id r.pool (sink_block_at s 0) in
    elim (Bool-cases (s.count == 0)) [
      | inl empty ↦
          let none_there : s.count ≡ 0 = ground (arith, empty) in
          rw (open_sink, empty)
            (ap (λ n. replay (blocks_from r.session_id r.pool s 0 n) after_sequence)
                (sym none_there)
              ∙ ap (λ l. replay l after_sequence) (sym all))
      | inr some_there ↦
          let n = s.count - 1 in
          let more : s.count ≡ suc n = ground (arith, some_there) in
          let split : blocks_from r.session_id r.pool s 0 s.count
              ≡ first ∷ blocks_from r.session_id r.pool s 1 n =
            ap (λ m. blocks_from r.session_id r.pool s 0 m) more
            ∙ blocks_from-suc r.session_id r.pool s 0 n in
          let whole = all ∙ split in
          elim (Bool-cases (after_sequence == 0)) [
            | inl start ↦ rw (open_sink, some_there, whole, start) refl
            | inr later ↦
                let same : replay (contents r id) after_sequence
                    ≡ next_of first
                        (behind after_sequence (blocks_from r.session_id r.pool s 0 s.count)) =
                  ap (λ l. replay l after_sequence) whole
                  ∙ rw later (ap (λ l. next_of first (behind after_sequence l)) (sym split)) in
                elim (Option-cases (find_sequence r.pool s after_sequence 0 s.count)) [
                  | inl missing ↦
                      rw (open_sink, some_there, later, missing)
                        (sym (
                          same
                          ∙ next_of_missing r.session_id r.pool s first after_sequence missing))
                  | inr (offset, found) ↦
                      let given =
                        same
                        ∙ next_of_found r.session_id r.pool s first after_sequence offset found in
                      elim (Bool-cases (offset + 1 == s.count)) [
                        | inl last ↦
                            rw (open_sink, some_there, later, found, last)
                              (sym (given ∙ rw last refl))
                        | inr left ↦
                            rw (open_sink, some_there, later, found, left)
                              (sym (given ∙ rw left refl))
                      ]
                ]
          ]
    ]
