-- ===== src/Serial/Router.antt =====
-- The router of serial blocks: firmware/components/serial_service/deck_serial_router.cpp. A block of
-- the pool holds its payload's first `length` bytes, those behind are zero; so does an input block.
-- A sink is named by its number.
pub mod Calls
pub mod Ring
pub mod Chain
pub mod Filling
pub mod Shares
pub mod Drops
pub mod Enqueue
pub mod Fifo
pub mod Creation
pub mod Steps
pub mod Preservation
pub mod History
pub mod Replay
pub mod Reading
pub mod Examples
use s3_rlcd_deck.Base.{
  ℕ, zero, suc, ◌+◌, ◌-◌, ◌*◌, ◌/◌, ◌%◌, ◌^◌, Bool, true, false, not, ◌&&◌, ◌||◌, Option, none,
  some, List, [], ◌∷◌, map, ltb, ◌==◌, ◌!=◌, if◌then◌else◌, length, get_or, get_elem?, set_elem,
  replicate, increment_nonzero, saturating_add, u32_max,
}

abbrev pub block_bytes : ℕ
block_bytes = 256

abbrev pub max_sinks : ℕ
max_sinks = 4

abbrev pub history_min_bytes : ℕ
history_min_bytes = 64 * 1024

abbrev pub history_max_bytes : ℕ
history_max_bytes = 2048 * 1024

-- The number of the history's sink.
abbrev pub history_sink : ℕ
history_sink = 2

abbrev pub no_block : ℕ
no_block = u32_max

pub record Block : Type 0 where
  pub sequence : ℕ
  pub monotonic_ms : ℕ
  pub next_free : ℕ
  pub references : ℕ
  pub bytes : List ℕ

pub record Pool : Type 0 where
  pub blocks : List Block
  pub free_head : ℕ

pub record Sink : Type 0 where
  pub registered : Bool
  pub retained : Bool
  pub capacity_bytes : ℕ
  pub blocks : List ℕ
  pub capacity_blocks : ℕ
  pub head : ℕ
  pub count : ℕ
  pub queued_bytes : ℕ
  pub overwritten_bytes : ℕ
  pub overwritten_blocks : ℕ
  pub delivered_bytes : ℕ
  pub delivered_blocks : ℕ
  pub cleared_bytes : ℕ
  pub cleared_blocks : ℕ

pub record Stats : Type 0 where
  pub accepted_bytes : ℕ
  pub accepted_blocks : ℕ
  pub last_sequence : ℕ
  pub pool_exhaustions : ℕ
  pub uart_fifo_overflows : ℕ
  pub uart_driver_buffer_full : ℕ
  pub router_starvations : ℕ

pub record Router : Type 0 where
  pub session_id : ℕ
  pub pool_capacity_bytes : ℕ
  pub pool : Pool
  pub sinks : List Sink
  pub stats : Stats

pub record InputBlock : Type 0 where
  pub monotonic_ms : ℕ
  pub bytes : List ℕ

pub record RoutedBlock : Type 0 where
  pub session_id : ℕ
  pub sequence : ℕ
  pub monotonic_ms : ℕ
  pub bytes : List ℕ

abbrev pub blank_block : Block
blank_block = record { sequence = 0; monotonic_ms = 0; next_free = 0; references = 0; bytes = [] }

abbrev pub blank_sink : Sink
blank_sink = record {
  registered = false;
  retained = false;
  capacity_bytes = 0;
  blocks = [];
  capacity_blocks = 0;
  head = 0;
  count = 0;
  queued_bytes = 0;
  overwritten_bytes = 0;
  overwritten_blocks = 0;
  delivered_bytes = 0;
  delivered_blocks = 0;
  cleared_bytes = 0;
  cleared_blocks = 0;
}

abbrev pub block_at : Pool → ℕ → Block
block_at p k = get_or p.blocks k blank_block

abbrev pub set_block : Pool → ℕ → Block → Pool
set_block p k b = record p { blocks = set_elem p.blocks k b }

unfoldable pub return_block : Pool → ℕ → Pool
return_block p k = record {
  blocks = set_elem p.blocks k (record blank_block { next_free = p.free_head });
  free_head = k;
}

unfoldable pub release_reference : Pool → ℕ → Pool
release_reference p k =
    let b = block_at p k in
    let q = set_block p k (record b { references = b.references - 1 }) in
    if b.references == 0 then p else if b.references - 1 == 0 then return_block q k else q

-- Why a block leaves a queue.
pub data Reason : Type 0 where
  overwritten cleared delivered : Reason

abbrev pub counted : Reason → ℕ → Sink → Sink
counted overwritten n s = record s {
  overwritten_bytes = saturating_add s.overwritten_bytes n;
  overwritten_blocks = saturating_add s.overwritten_blocks 1;
}
counted cleared n s = record s {
  cleared_bytes = saturating_add s.cleared_bytes n;
  cleared_blocks = saturating_add s.cleared_blocks 1;
}
counted delivered n s = record s {
  delivered_bytes = saturating_add s.delivered_bytes n;
  delivered_blocks = saturating_add s.delivered_blocks 1;
}

-- A sink that holds blocks has room for them, so that its capacity is not 0. An unsigned difference
-- does not go below 0, since the bytes of a queue are counted.
unfoldable pub remove_front : Pool → Sink → Reason → Pool × Sink
remove_front p s reason =
    let k = get_or s.blocks s.head 0 in
    let n = length (block_at p k).bytes in
    let t = record s {
      head = (s.head + 1) % s.capacity_blocks;
      count = s.count - 1;
      queued_bytes = s.queued_bytes - n;
    } in
    if s.count == 0 then (p, s) else (release_reference p k, counted reason n t)

-- The loop of `clear_sink_locked`: each round takes one block away.
unfoldable pub clear_loop : ℕ → Pool → Sink → Pool × Sink
unfolding remove_front
clear_loop zero p s = (p, s)
clear_loop (suc n) p s = let (q, t) = remove_front p s cleared in clear_loop n q t

unfoldable pub clear_sink_locked : Pool → Sink → Pool × Sink
unfolding clear_loop
clear_sink_locked p s = let (q, t) = clear_loop s.count p s in (q, record t { head = 0 })

unfoldable pub copy_block : ℕ → Pool → ℕ → RoutedBlock
copy_block session_id p k =
    let b = block_at p k in
    record {
      session_id = session_id;
      sequence = b.sequence;
      monotonic_ms = b.monotonic_ms;
      bytes = b.bytes;
    }

abbrev pub sink_block_at : Sink → ℕ → ℕ
sink_block_at s offset = get_or s.blocks ((s.head + offset) % s.capacity_blocks) 0

-- The chain of free blocks that a new pool has, from a block on.
unfoldable pub fresh_blocks : ℕ → ℕ → List Block
fresh_blocks zero index = []
fresh_blocks (suc n) index =
    record blank_block { next_free = if n == 0 then no_block else index + 1 }
    ∷ fresh_blocks n (index + 1)

-- The flag tells whether both allocations succeed.
unfoldable pub create : ℕ → ℕ → ℕ → Bool → Option Router
unfolding fresh_blocks
create session_id pool_capacity_bytes initial_sequence allocated =
    if session_id == 0
      || pool_capacity_bytes == 0
      || pool_capacity_bytes % block_bytes != 0
      || ltb history_max_bytes pool_capacity_bytes
      || not allocated
    then none
    else some (record {
      session_id = session_id;
      pool_capacity_bytes = pool_capacity_bytes;
      pool = record { blocks = fresh_blocks (pool_capacity_bytes / block_bytes) 0; free_head = 0 };
      sinks = replicate max_sinks blank_sink;
      stats = record {
        accepted_bytes = 0;
        accepted_blocks = 0;
        last_sequence = initial_sequence;
        pool_exhaustions = 0;
        uart_fifo_overflows = 0;
        uart_driver_buffer_full = 0;
        router_starvations = 0;
      };
    })
