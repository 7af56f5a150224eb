-- ===== src/Serial/Router/Filling.antt =====
-- Taking a block from the free list of deck_serial_router.cpp for its sinks.
use s3_rlcd_deck.Base.{
  ℕ, ◌<◌, ◌≡◌, ◌≢◌, refl, List, ◌∷◌, inl, inr, length, length-set_elem, get_or-set_elem, ◌==◌,
  if◌then◌else◌, arith, Bool-cases,
}
use s3_rlcd_deck.Serial.Router.{
  Block, Pool, Sink, InputBlock, RoutedBlock, blank_block, block_at, no_block, return_block,
  copy_block,
}
use s3_rlcd_deck.Serial.Router.Calls.{takers, fill_block}
use s3_rlcd_deck.Serial.Router.Chain.{
  occurs, IsPool, SameQueued, get_or_set, Chain-set_elem, set_elem_twice, unused_other,
}

-- What a new block carries.
abbrev pub routed : ℕ → ℕ → InputBlock → RoutedBlock
routed session_id sequence input = record {
  session_id = session_id;
  sequence = sequence;
  monotonic_ms = input.monotonic_ms;
  bytes = input.bytes;
}

module _ (p : Pool) (k : ℕ) (rest : List ℕ) (uses next : ℕ → ℕ) (i : IsPool p (k ∷ rest) uses) where
  -- The first free block is not used, and stands in the list once.
  pub front_free : (uses k ≡ 0) × (occurs k rest ≡ 0) × (k < length p.blocks) × (p.free_head ≡ k)
  unfolding occurs
  front_free =
      let (head, inside, behind) = i.chain in
      (ground (arith, i.share k inside), ground (arith, i.share k inside), inside, head)

  pub fill_block_lem :
      (sinks : List Sink) (sequence : ℕ) (input : InputBlock)
      → next k ≡ takers sinks
      → ((j : ℕ) → j ≢ k → next j ≡ uses j)
      → IsPool
          (fill_block p sinks sequence input)
          (if takers sinks == 0 then k ∷ rest else rest)
          next
        × SameQueued p (fill_block p sinks sequence input) uses
        × ((session_id : ℕ)
            → takers sinks ≢ 0
            → copy_block session_id (fill_block p sinks sequence input) k
              ≡ routed session_id sequence input)
  unfolding fill_block return_block occurs copy_block
  fill_block_lem sinks sequence input taken others =
      let (free, once, inside, head) = front_free in
      let (same, bound, behind) = i.chain in
      let filled : Block = record {
        sequence = sequence;
        monotonic_ms = input.monotonic_ms;
        next_free = no_block;
        references = takers sinks;
        bytes = input.bytes;
      } in
      let fresh : Block = record blank_block { next_free = (block_at p k).next_free } in
      elim (Bool-cases (takers sinks == 0)) [
        | inl none_taken ↦
            let count = length-set_elem p.blocks k fresh in
            rw (head, none_taken, set_elem_twice p.blocks k filled fresh)
              (
                record {
                  chain = (
                    refl,
                    omega (arith, count, inside),
                    rw (get_or-set_elem p.blocks k fresh blank_block inside) (
                        Chain-set_elem p.blocks (block_at p k).next_free k rest fresh inside once
                          behind),
                  );
                  size = omega (arith, count, i.size);
                  counts = λ j l. ground (
                    arith,
                    get_or_set p.blocks k j fresh inside,
                    i.counts j (omega (arith, count, l)),
                    others j,
                    taken,
                    none_taken,
                  );
                  share = λ j l. ground (
                    arith,
                    i.share j (omega (arith, count, l)),
                    others j,
                    taken,
                    none_taken,
                    free,
                  );
                  inside =
                      λ j l. ground (arith, i.inside j (omega (arith, count, l)), others j, count);
                },
                λ j session_id used.
                    let other = unused_other uses j k free used in
                    rw (get_or_set p.blocks k j fresh inside, other) refl,
                λ session_id some_taken. absurd (ground (arith, none_taken, some_taken)),
              )
        | inr some_taken ↦
            let count = length-set_elem p.blocks k filled in
            rw (head, some_taken)
              (
                record {
                  chain =
                      Chain-set_elem p.blocks (block_at p k).next_free k rest filled inside once
                        behind;
                  size = omega (arith, count, i.size);
                  counts = λ j l. ground (
                    arith,
                    get_or_set p.blocks k j filled inside,
                    i.counts j (omega (arith, count, l)),
                    others j,
                    taken,
                  );
                  share = λ j l. ground (
                    arith,
                    i.share j (omega (arith, count, l)),
                    others j,
                    taken,
                    some_taken,
                    once,
                  );
                  inside =
                      λ j l. ground (arith, i.inside j (omega (arith, count, l)), others j, count);
                },
                λ j session_id used.
                    let other = unused_other uses j k free used in
                    rw (get_or_set p.blocks k j filled inside, other) refl,
                λ session_id t. rw (get_or-set_elem p.blocks k filled blank_block inside) refl,
              )
      ]
