-- ===== src/Serial/Router/Calls.antt =====
-- The operations of deck_serial_router.cpp on a router.
use s3_rlcd_deck.Base.{
  ℕ, zero, suc, ◌+◌, ◌-◌, ◌/◌, ◌%◌, Bool, true, false, not, ◌&&◌, ◌||◌, Option, none, some, List,
  [], ◌∷◌, map, ltb, ◌==◌, ◌!=◌, if◌then◌else◌, length, get_or, set_elem, replicate,
  increment_nonzero, saturating_add, u32_max,
}
use s3_rlcd_deck.Serial.Router.{
  block_bytes, max_sinks, history_min_bytes, history_sink, no_block, Block, Pool, Sink, Stats,
  Router, InputBlock, RoutedBlock, blank_sink, block_at, return_block, counted, remove_front,
  clear_sink_locked, copy_block, sink_block_at, overwritten, delivered,
}

abbrev pub with_sink : Router → Pool → ℕ → Sink → Router
with_sink r p id s = record r { pool = p; sinks = set_elem r.sinks id s }

abbrev pub sink_at : Router → ℕ → Sink
sink_at r id = get_or r.sinks id blank_sink

-- `find_sink` finds one; the others are null.
abbrev pub has_sink : Router → ℕ → Bool
has_sink r id = ltb id max_sinks && (sink_at r id).registered

-- The flag tells whether the allocation succeeds.
unfoldable pub register_sink : Router → ℕ → ℕ → Bool → Bool → Router × Bool
register_sink r id capacity_bytes retained allocated =
    if not (ltb id max_sinks)
      || capacity_bytes == 0
      || capacity_bytes % block_bytes != 0
      || ltb r.pool_capacity_bytes capacity_bytes
      || (if id == history_sink then not retained else retained)
      || id == history_sink && ltb capacity_bytes history_min_bytes
      || (sink_at r id).registered
      || not allocated
    then (r, false)
    else let capacity_blocks = capacity_bytes / block_bytes in
      (
        with_sink r r.pool id (record (sink_at r id) {
          registered = true;
          retained = retained;
          capacity_bytes = capacity_bytes;
          blocks = replicate capacity_blocks 0;
          capacity_blocks = capacity_blocks;
        }),
        true,
      )

unfoldable pub unregister_sink : Router → ℕ → Router × Bool
unregister_sink r id =
    let (p, s) = clear_sink_locked r.pool (sink_at r id) in
    if has_sink r id then (with_sink r p id blank_sink, true) else (r, false)

unfoldable pub clear_sink : Router → ℕ → Router × Bool
clear_sink r id =
    let (p, s) = clear_sink_locked r.pool (sink_at r id) in
    if has_sink r id then (with_sink r p id s, true) else (r, false)

-- Every sink that is full loses its oldest block.
unfoldable pub overwrite_full : Pool → List Sink → Pool × List Sink
overwrite_full p [] = (p, [])
overwrite_full p (s ∷ sinks) =
    let (q, t) =
      if s.registered && s.count == s.capacity_blocks
      then remove_front p s overwritten
      else (p, s) in
    let (u, others) = overwrite_full q sinks in (u, t ∷ others)

-- A `size_t` of 32 bits.
abbrev pub saturating_add_size : ℕ → ℕ → ℕ
saturating_add_size left right = if ltb (u32_max - right) left then u32_max else left + right

unfoldable pub enqueue : ℕ → ℕ → Sink → Sink
enqueue k n s =
    if s.registered
    then record s {
      blocks = set_elem s.blocks ((s.head + s.count) % s.capacity_blocks) k;
      count = s.count + 1;
      queued_bytes = saturating_add_size s.queued_bytes n;
    }
    else s

-- How many sinks take a block.
unfoldable pub takers : List Sink → ℕ
takers [] = 0
takers (s ∷ sinks) = let rest = takers sinks in if s.registered then rest + 1 else rest

-- A block is filled for its sinks, and given back where there is none.
unfoldable pub fill_block : Pool → List Sink → ℕ → InputBlock → Pool
unfolding takers
fill_block p sinks sequence input =
    let k = p.free_head in
    let filled : Block = record {
      sequence = sequence;
      monotonic_ms = input.monotonic_ms;
      next_free = no_block;
      references = takers sinks;
      bytes = input.bytes;
    } in
    let q : Pool = record {
      blocks = set_elem p.blocks k filled;
      free_head = (block_at p k).next_free;
    } in
    if takers sinks == 0 then return_block q k else q

-- The sequence number that was given, where the block is accepted.
unfoldable pub submit : Router → InputBlock → Router × Option ℕ
submit r input =
    let n = length input.bytes in
    let (p, sinks) = overwrite_full r.pool r.sinks in
    let sequence = increment_nonzero r.stats.last_sequence in
    if n == 0 || ltb block_bytes n
    then (r, none)
    else if p.free_head == no_block
    then (
      record r {
        pool = p;
        sinks = sinks;
        stats = record r.stats { pool_exhaustions = saturating_add r.stats.pool_exhaustions 1 };
      },
      none,
    )
    else (
      record r {
        pool = fill_block p sinks sequence input;
        sinks = map (λ s. enqueue p.free_head n s) sinks;
        stats = record r.stats {
          accepted_bytes = saturating_add r.stats.accepted_bytes n;
          accepted_blocks = saturating_add r.stats.accepted_blocks 1;
          last_sequence = sequence;
        };
      },
      some sequence,
    )

pub data CopyResult : Type 0 where
  copied gap : RoutedBlock → CopyResult
  nothing_queued refused : CopyResult

unfoldable pub take : Router → ℕ → Router × CopyResult
take r id =
    let s = sink_at r id in
    let (p, t) = remove_front r.pool s delivered in
    if not (has_sink r id) || s.retained
    then (r, refused)
    else if s.count == 0
    then (r, nothing_queued)
    else (with_sink r p id t, copied (copy_block r.session_id r.pool (sink_block_at s 0)))

-- The search of `copy_after` from an offset, over the blocks that are left: where the block stands.
unfoldable pub find_sequence : Pool → Sink → ℕ → ℕ → ℕ → Option ℕ
find_sequence p s after_sequence offset zero = none
find_sequence p s after_sequence offset (suc left) =
    let rest = find_sequence p s after_sequence (offset + 1) left in
    if (block_at p (sink_block_at s offset)).sequence == after_sequence then some offset else rest

abbrev pub copy_at : Router → ℕ → ℕ → Router × RoutedBlock
copy_at r id selected =
    let s = sink_at r id in
    let k = sink_block_at s selected in
    (
      with_sink r r.pool id (counted delivered (length (block_at r.pool k).bytes) s),
      copy_block r.session_id r.pool k,
    )

unfoldable pub copy_after : Router → ℕ → ℕ → Router × CopyResult
unfolding copy_block find_sequence
copy_after r id after_sequence =
    let s = sink_at r id in
    let (from_start, first) = copy_at r id 0 in
    if not (has_sink r id) || not s.retained
    then (r, refused)
    else if s.count == 0
    then (r, nothing_queued)
    else if after_sequence == 0
    then (from_start, copied first)
    else elim (find_sequence r.pool s after_sequence 0 s.count) [
      | none ↦ (from_start, gap first)
      | some offset ↦
          let (moved, next) = copy_at r id (offset + 1) in
          if offset + 1 == s.count then (r, nothing_queued) else (moved, copied next)
    ]

pub data UartError : Type 0 where
  fifo_overflow driver_buffer_full router_starved : UartError

abbrev pub noted : Stats → UartError → Stats
noted st fifo_overflow = record st { uart_fifo_overflows = saturating_add st.uart_fifo_overflows 1 }
noted st driver_buffer_full = record st {
  uart_driver_buffer_full = saturating_add st.uart_driver_buffer_full 1;
}
noted st router_starved = record st { router_starvations = saturating_add st.router_starvations 1 }

unfoldable pub note_uart_error : Router → UartError → Router
note_uart_error r e = record r { stats = noted r.stats e }

pub record SinkStats : Type 0 where
  pub registered : Bool
  pub retained : Bool
  pub capacity_bytes : ℕ
  pub queued_bytes : ℕ
  pub queued_blocks : ℕ
  pub oldest_sequence : ℕ
  pub newest_sequence : ℕ
  pub overwritten_bytes : ℕ
  pub overwritten_blocks : ℕ
  pub delivered_bytes : ℕ
  pub delivered_blocks : ℕ
  pub cleared_bytes : ℕ
  pub cleared_blocks : ℕ

abbrev pub fill_sink_stats : Router → Sink → SinkStats
fill_sink_stats r s =
    let at = λ (offset : ℕ).
      if s.count == 0 then 0 else (block_at r.pool (sink_block_at s offset)).sequence in
    record {
      registered = s.registered;
      retained = s.retained;
      capacity_bytes = s.capacity_bytes;
      queued_bytes = s.queued_bytes;
      queued_blocks = s.count;
      oldest_sequence = at 0;
      newest_sequence = at (s.count - 1);
      overwritten_bytes = s.overwritten_bytes;
      overwritten_blocks = s.overwritten_blocks;
      delivered_bytes = s.delivered_bytes;
      delivered_blocks = s.delivered_blocks;
      cleared_bytes = s.cleared_bytes;
      cleared_blocks = s.cleared_blocks;
    }

abbrev pub sink_stats : Router → ℕ → Option SinkStats
sink_stats r id = if has_sink r id then some (fill_sink_stats r (sink_at r id)) else none

abbrev pub stats : Router → Stats
stats r = r.stats
