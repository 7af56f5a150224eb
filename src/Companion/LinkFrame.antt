-- ===== src/Companion/LinkFrame.antt =====
-- Messages put together from the chunks of their frames:
-- firmware/components/companion_link/deck_companion_link_frame.cpp and its header. `size_t` has the
-- 32 bits of the target. Of the buffer the model keeps the bytes up to `message_size`, in order.
pub mod Laws
pub mod Delivery
mod Examples
use s3_rlcd_deck.Base.{
  ℕ, ◌+◌, ◌-◌, ◌%◌, ◌^◌, Bool, true, false, not, ◌&&◌, ◌||◌, Option, none, some, List, [], ◌++◌,
  ltb, ◌==◌, ◌!=◌, if◌then◌else◌, length,
}
use s3_rlcd_deck.Base.Int.{ℤ, pos, negsuc}

pub data FrameResult : Type 0 where
  invalid partial complete : FrameResult

pub record LinkFrame : Type 0 where
  pub buffer : List ℕ
  pub capacity : ℕ
  pub message_size : ℕ
  pub frame_size : ℕ
  pub frame_payload_length : ℕ
  pub frame_opcode : ℕ
  pub message_opcode : ℕ
  pub active : Bool
  pub frame_active : Bool
  pub awaiting_continuation : Bool

abbrev pub continuation_opcode : ℕ
continuation_opcode = 0

abbrev pub text_opcode : ℕ
text_opcode = 1

abbrev pub binary_opcode : ℕ
binary_opcode = 2

unfoldable pub init : ℕ → LinkFrame
init capacity = record {
  buffer = [];
  capacity = capacity;
  message_size = 0;
  frame_size = 0;
  frame_payload_length = 0;
  frame_opcode = 0;
  message_opcode = 0;
  active = false;
  frame_active = false;
  awaiting_continuation = false;
}

unfoldable pub reset : LinkFrame → LinkFrame
unfolding init
reset f = init f.capacity

abbrev pub begin_frame : LinkFrame → ℕ → ℕ → LinkFrame
begin_frame f payload_length opcode = record f {
  awaiting_continuation = false;
  frame_active = true;
  frame_payload_length = payload_length;
  frame_opcode = opcode;
  frame_size = 0;
}

unfoldable pub start_transport_frame : LinkFrame → ℕ → ℕ → Option LinkFrame
start_transport_frame f payload_length opcode =
    let fresh = record f {
      active = true;
      message_opcode = opcode;
      message_size = 0;
      buffer = [];
    } in
    if not f.active
    then if opcode != text_opcode && opcode != binary_opcode
      then none
      else some (begin_frame fresh payload_length opcode)
    else if not f.awaiting_continuation || opcode != continuation_opcode
    then none
    else some (begin_frame f payload_length opcode)

-- `accept` once the chunk's bytes are copied: is the frame full, and is it the last?
unfoldable pub end_chunk : LinkFrame → Bool → LinkFrame × FrameResult
end_chunk f final =
    let ended = record f {
      frame_active = false;
      frame_size = 0;
      frame_payload_length = 0;
      frame_opcode = 0;
      awaiting_continuation = not final;
    } in
    if f.frame_size != f.frame_payload_length
    then (f, partial)
    else (ended, if final then complete else partial)

-- `accept` from the test of the capacity; `capacity - message_size` is a `size_t`.
unfoldable pub copy_chunk : LinkFrame → Bool → List ℕ → LinkFrame × FrameResult
unfolding end_chunk
copy_chunk f final bytes =
    let copied = record f {
      buffer = f.buffer ++ bytes;
      message_size = (f.message_size + length bytes) % 2 ^ 32;
      frame_size = (f.frame_size + length bytes) % 2 ^ 32;
    } in
    if ltb ((f.capacity + 2 ^ 32 - f.message_size) % 2 ^ 32) (length bytes)
    then (f, invalid)
    else end_chunk copied final

unfoldable pub accept_at : LinkFrame → ℕ → ℕ → ℕ → Bool → List ℕ → LinkFrame × FrameResult
unfolding start_transport_frame copy_chunk
accept_at f payload_length payload_offset opcode final bytes =
    if f.capacity == 0
      || payload_length == 0
      || ltb payload_length ((payload_offset + length bytes) % 2 ^ 32)
    then (f, invalid)
    else if payload_offset == 0
    then if f.frame_active
      then (f, invalid)
      else elim (start_transport_frame f payload_length opcode) [
        | none ↦ (f, invalid)
        | some g ↦ copy_chunk g final bytes
      ]
    else if not f.frame_active
        || f.frame_payload_length != payload_length
        || f.frame_opcode != opcode
        || payload_offset != f.frame_size
    then (f, invalid)
    else copy_chunk f final bytes

-- A length or an offset under 0 is refused.
unfoldable pub accept : LinkFrame → ℤ → ℤ → ℕ → Bool → List ℕ → LinkFrame × FrameResult
unfolding accept_at
accept f (negsuc n) payload_offset opcode final bytes = (f, invalid)
accept f (pos payload_length) (negsuc n) opcode final bytes = (f, invalid)
accept f (pos payload_length) (pos payload_offset) opcode final bytes =
    accept_at f payload_length payload_offset opcode final bytes
