-- ===== src/Serial/Router/Preservation.antt =====
-- What each call of deck_serial_router.cpp leaves of the share-out of the blocks.
use s3_rlcd_deck.Base.{
  ℕ, zero, suc, ◌+◌, ◌/◌, ◌%◌, ◌<◌, ◌≡◌, ◌∙◌, sym, ap, refl, Bool, true, false, not, ◌&&◌, ◌||◌,
  List, [], ◌∷◌, inl, inr, map, replicate, length, ltb, ◌==◌, ◌!=◌, if◌then◌else◌, arith,
  Bool-cases, Option-cases, increment_nonzero,
}
use s3_rlcd_deck.Serial.Router.{
  Sink, Router, InputBlock, blank_sink, no_block, block_bytes, delivered, counted, remove_front,
  clear_sink_locked, sink_block_at, block_at, max_sinks, history_sink, history_min_bytes,
}
use s3_rlcd_deck.Serial.Router.Calls.{
  sink_at, has_sink, with_sink, overwrite_full, enqueue, submit, register_sink, unregister_sink,
  clear_sink, take, copy_at, copy_after, find_sequence,
}
use s3_rlcd_deck.Serial.Router.Ring.{items}
use s3_rlcd_deck.Serial.Router.Chain.{occurs}
use s3_rlcd_deck.Serial.Router.Shares.{
  queue, IsReady-IsSink, uses_of, IsPool-ext, remove_front-HasLeft,
}
use s3_rlcd_deck.Serial.Router.Drops.{clear_sink_locked-IsCleared}
use s3_rlcd_deck.Serial.Router.Enqueue.{enqueue-AllSinks, AllRoom-AllSinks, AllRoom-length}
use s3_rlcd_deck.Serial.Router.Fifo.{Inv, dropped, fanned_out}
use s3_rlcd_deck.Serial.Router.Creation.{blank_sink-IsSink}
use s3_rlcd_deck.Serial.Router.Steps.{uses_but, pool_at, sink_at-IsSink, with_sink-Inv}

length-map : (f : Sink → Sink) (sinks : List Sink) → length (map f sinks) ≡ length sinks
length-map f [] = refl
length-map f (s ∷ sinks) = ap (λ n. suc n) (length-map f sinks)

pub submit-Inv : (r : Router) (input : InputBlock) → Inv r → Inv (submit r input).0
unfolding submit
submit-Inv r input i =
    let n = length input.bytes in
    let (p, sinks) = overwrite_full r.pool r.sinks in
    let h = dropped r i in
    let sequence = increment_nonzero r.stats.last_sequence in
    let four = AllRoom-length r.sinks sinks h.rooms ∙ i.four in
    elim (Bool-cases (n == 0 || ltb block_bytes n)) [
      | inl bad ↦ rw bad i
      | inr good ↦ elim (Bool-cases (p.free_head == no_block)) [
        | inl exhausted ↦
            rw (good, exhausted)
              (record {
                free = h.free;
                pool =
                    IsPool-ext p h.free (λ j. 0 + uses_of sinks j) (uses_of sinks) h.pool
                      (λ j. omega arith);
                sinks = AllRoom-AllSinks r.sinks sinks h.rooms;
                four = four;
              })
        | inr open_pool ↦
            let (free, pool, same, new) = fanned_out r i sequence n input open_pool in
            rw (good, open_pool)
              (record {
                free = free;
                pool = pool;
                sinks = enqueue-AllSinks p.free_head n r.sinks sinks h.rooms;
                four = length-map (λ s. enqueue p.free_head n s) sinks ∙ four;
              })
      ]
    ]

-- A sink that is cleared, and what is put in its place.
cleared-Inv :
    (r : Router) (id : ℕ)
    → Inv r
    → id < 4
    → let (p, s) = clear_sink_locked r.pool (sink_at r id) in
      Inv (with_sink r p id s) × Inv (with_sink r p id blank_sink)
unfolding occurs items
cleared-Inv r id i h =
    let (p, s) = clear_sink_locked r.pool (sink_at r id) in
    let others = uses_but r.sinks id in
    let c =
      clear_sink_locked-IsCleared r.pool (sink_at r id) i.free others (sink_at-IsSink r id i h)
        (pool_at r id i h) in
    let none_left : queue s ≡ [] = ap (λ m. items s.blocks s.capacity_blocks s.head m) c.empty in
    (
      with_sink-Inv r id i h p s c.free
          (IsPool-ext p c.free others (λ j. occurs j (queue s) + others j) c.pool
            (λ j. ap (λ l. occurs j l + others j) none_left ∙ omega arith))
          c.sink,
      with_sink-Inv r id i h p blank_sink c.free
          (IsPool-ext p c.free others (λ j. occurs j (queue blank_sink) + others j) c.pool
            (λ j. omega arith))
          blank_sink-IsSink,
    )

pub unregister_sink-Inv : (r : Router) (id : ℕ) → Inv r → Inv (unregister_sink r id).0
unfolding unregister_sink
unregister_sink-Inv r id i = elim (Bool-cases (has_sink r id)) [
  | inl there ↦ rw there (cleared-Inv r id i (ground (arith, there))).1
  | inr missing ↦ rw missing i
]

pub clear_sink-Inv : (r : Router) (id : ℕ) → Inv r → Inv (clear_sink r id).0
unfolding clear_sink
clear_sink-Inv r id i = elim (Bool-cases (has_sink r id)) [
  | inl there ↦ rw there (cleared-Inv r id i (ground (arith, there))).0
  | inr missing ↦ rw missing i
]

pub take-Inv : (r : Router) (id : ℕ) → Inv r → Inv (take r id).0
unfolding take
take-Inv r id i =
    let s = sink_at r id in
    let (p, t) = remove_front r.pool s delivered in
    elim (Bool-cases (not (has_sink r id) || s.retained)) [
      | inl bad ↦ rw bad i
      | inr good ↦ elim (Bool-cases (s.count == 0)) [
        | inl empty ↦ rw (good, empty) i
        | inr some_there ↦
            let h : id < 4 = ground (arith, good) in
            let left =
              remove_front-HasLeft r.pool s delivered i.free (uses_but r.sinks id)
                (sink_at-IsSink r id i h) (ground (arith, some_there)) (pool_at r id i h) in
            rw (good, some_there)
              (with_sink-Inv r id i h p t left.free left.pool (IsReady-IsSink t left.sink))
      ]
    ]

-- Counting a delivery leaves the queues as they are.
copy_at-Inv :
    (r : Router) (id selected : ℕ) → Inv r → has_sink r id ≡ true → Inv (copy_at r id selected).0
copy_at-Inv r id selected i there =
    let s = sink_at r id in
    let h : id < 4 = ground (arith, there) in
    let t = counted delivered (length (block_at r.pool (sink_block_at s selected)).bytes) s in
    let ready = (sink_at-IsSink r id i h).ready in
    with_sink-Inv r id i h r.pool t i.free (pool_at r id i h)
      (record { ready = λ e. ready e; off = λ e. absurd (ground (arith, e, there)) })

pub copy_after-Inv :
    (r : Router) (id after_sequence : ℕ) → Inv r → Inv (copy_after r id after_sequence).0
unfolding copy_after
copy_after-Inv r id after_sequence i =
    let s = sink_at r id in
    elim (Bool-cases (not (has_sink r id) || not s.retained)) [
      | inl bad ↦ rw bad i
      | inr good ↦
          let there : has_sink r id ≡ true = ground (arith, good) in
          let first = copy_at-Inv r id 0 i there in
          elim (Bool-cases (s.count == 0)) [
            | inl empty ↦ rw (good, empty) i
            | inr some_there ↦ elim (Bool-cases (after_sequence == 0)) [
              | inl start ↦ rw (good, some_there, start) first
              | inr later ↦ elim (Option-cases (find_sequence r.pool s after_sequence 0 s.count)) [
                | inl missing ↦ rw (good, some_there, later, missing) first
                | inr (offset, found) ↦ elim (Bool-cases (offset + 1 == s.count)) [
                  | inl last ↦ rw (good, some_there, later, found, last) i
                  | inr more ↦
                      rw (good, some_there, later, found, more)
                        (copy_at-Inv r id (offset + 1) i there)
                ]
              ]
            ]
          ]
    ]

length-replicate_zero : (n : ℕ) → length (replicate {A = ℕ} n 0) ≡ n
length-replicate_zero zero = refl
length-replicate_zero (suc n) = ap (λ m. suc m) (length-replicate_zero n)

-- A sink that comes into use is empty, and has room.
registered-Inv :
    (r : Router) (id capacity_bytes : ℕ) (retained : Bool)
    → Inv r
    → id < 4
    → (sink_at r id).registered ≡ false
    → 0 < capacity_bytes / 256
    → let capacity_blocks = capacity_bytes / 256 in
      Inv (
        with_sink r r.pool id (record (sink_at r id) {
          registered = true;
          retained = retained;
          capacity_bytes = capacity_bytes;
          blocks = replicate capacity_blocks 0;
          capacity_blocks = capacity_blocks;
        }))
unfolding occurs items
registered-Inv r id capacity_bytes retained i h free_sink some_room =
    let s = sink_at r id in
    let room = capacity_bytes / 256 in
    let off : s ≡ blank_sink = (sink_at-IsSink r id i h).off free_sink in
    let count : s.count ≡ 0 = ap (λ x. x.count) off in
    let head : s.head ≡ 0 = ap (λ x. x.head) off in
    let others = uses_but r.sinks id in
    let t : Sink = record s {
      registered = true;
      retained = retained;
      capacity_bytes = capacity_bytes;
      blocks = replicate room 0;
      capacity_blocks = room;
    } in
    let new : queue t ≡ [] = ap (λ m. items (replicate room 0) room s.head m) count in
    let old : queue s ≡ [] = ap (λ m. items s.blocks s.capacity_blocks s.head m) count in
    with_sink-Inv r id i h r.pool t i.free
      (IsPool-ext r.pool i.free (λ j. occurs j (queue s) + others j)
        (λ j. occurs j (queue t) + others j) (pool_at r id i h)
        (λ j. ap (λ l. occurs j l + others j) (new ∙ sym old)))
      (record {
        ready =
            λ e. (omega (arith, head, some_room), omega (arith, count), length-replicate_zero room);
        off = λ e. absurd (ground (arith, e));
      })

pub register_sink-Inv :
    (r : Router) (id capacity_bytes : ℕ) (retained allocated : Bool)
    → Inv r
    → Inv (register_sink r id capacity_bytes retained allocated).0
unfolding register_sink
register_sink-Inv r id capacity_bytes retained allocated i =
    elim (Bool-cases (
      not (ltb id max_sinks)
      || capacity_bytes == 0
      || capacity_bytes % block_bytes != 0
      || ltb r.pool_capacity_bytes capacity_bytes
      || (if id == history_sink then not retained else retained)
      || id == history_sink && ltb capacity_bytes history_min_bytes
      || (sink_at r id).registered
      || not allocated)) [
        | inl bad ↦ rw bad i
        | inr good ↦
            let off : (sink_at r id).registered ≡ false = ground (arith, good) in
            let h : id < 4 = ground (arith, good) in
            let room : 0 < capacity_bytes / 256 = grind (arith, good) in
            rw good (registered-Inv r id capacity_bytes retained i h off room)
      ]
