-- ===== src/Companion/SerialFrame.antt =====
-- The binary frames of serial data: firmware/components/companion_link/deck_serial_frame.cpp and its
-- header. The shifted bytes do not overlap, so `|` is written as a sum.
pub mod Laws
mod Examples
use s3_rlcd_deck.Base.{
  ℕ, ◌+◌, ◌-◌, ◌*◌, ◌/◌, ◌%◌, ◌^◌, Bool, true, false, not, ◌&&◌, ◌||◌, Option, none, some, List, [],
  ◌∷◌, ◌++◌, ltb, leb, ◌==◌, ◌!=◌, if◌then◌else◌, length, get_or, drop,
}

-- A decoded frame.
pub record FrameView : Type 0 where
  pub channel : ℕ
  pub session_id : ℕ
  pub sequence : ℕ
  pub monotonic_ms : ℕ
  pub payload : List ℕ

pub record FrameOrder : Type 0 where
  pub session_id : ℕ
  pub sequence : ℕ
  pub monotonic_ms : ℕ
  pub has_value : Bool

abbrev pub header_bytes : ℕ
header_bytes = 32

abbrev pub max_payload_bytes : ℕ
max_payload_bytes = 256

abbrev pub target_rx : ℕ
target_rx = 1

abbrev pub web_tx : ℕ
web_tx = 2

-- A byte of a word, `word >> shift` cast to uint8_t.
abbrev pub byte_of : ℕ → ℕ → ℕ
byte_of value shift = value / 2 ^ shift % 2 ^ 8

abbrev pub write_u16 : ℕ → List ℕ → List ℕ
write_u16 value rest = byte_of value 8 ∷ byte_of value 0 ∷ rest

abbrev pub write_u64 : ℕ → List ℕ → List ℕ
write_u64 value rest =
    byte_of value 56
    ∷ byte_of value 48
    ∷ byte_of value 40
    ∷ byte_of value 32
    ∷ byte_of value 24
    ∷ byte_of value 16
    ∷ byte_of value 8
    ∷ byte_of value 0
    ∷ rest

abbrev pub read_u16 : List ℕ → ℕ → ℕ
read_u16 input offset = (get_or input offset 0 * 2 ^ 8 + get_or input (offset + 1) 0) % 2 ^ 16

-- `value = (value << 8) | byte`, on 64 bits.
abbrev pub shift_in : ℕ → ℕ → ℕ
shift_in value byte = (value * 2 ^ 8 + byte) % 2 ^ 64

abbrev pub read_u64 : List ℕ → ℕ → ℕ
read_u64 input offset =
    shift_in
      (shift_in
        (shift_in
          (shift_in
            (shift_in
              (shift_in
                (shift_in (shift_in 0 (get_or input offset 0)) (get_or input (offset + 1) 0))
                (get_or input (offset + 2) 0))
              (get_or input (offset + 3) 0))
            (get_or input (offset + 4) 0))
          (get_or input (offset + 5) 0))
        (get_or input (offset + 6) 0))
      (get_or input (offset + 7) 0)

abbrev pub valid_channel : ℕ → Bool
valid_channel channel = channel == target_rx || channel == web_tx

-- The candidate is ahead by less than half of the range.
abbrev pub sequence_after : ℕ → ℕ → Bool
sequence_after candidate previous =
    let difference = (candidate + 2 ^ 64 - previous) % 2 ^ 64 in
    difference != 0 && ltb difference (2 ^ 63)

-- `none` where the code answers 0; the magic is "SRD1".
unfoldable pub encode : ℕ → ℕ → ℕ → ℕ → List ℕ → ℕ → Option (List ℕ)
encode channel session_id sequence monotonic_ms payload output_capacity =
    if not (valid_channel channel)
      || session_id == 0
      || sequence == 0
      || length payload == 0
      || ltb max_payload_bytes (length payload)
      || ltb output_capacity (header_bytes + length payload)
    then none
    else some (
        b'S'
        ∷ b'R'
        ∷ b'D'
        ∷ b'1'
        ∷ channel
        ∷ 0
        ∷ write_u16 (length payload)
            (write_u64 session_id (write_u64 sequence (write_u64 monotonic_ms payload))))

-- `memcmp(document, kMagic, 4) == 0`.
abbrev pub has_magic : List ℕ → Bool
has_magic document =
    get_or document 0 0 == b'S'
    && get_or document 1 0 == b'R'
    && get_or document 2 0 == b'D'
    && get_or document 3 0 == b'1'

-- `decode`'s tests of the header.
abbrev pub header_fails : List ℕ → Bool
header_fails document =
    ltb (length document) header_bytes
    || not (has_magic document)
    || not (valid_channel (get_or document 4 0))
    || get_or document 5 0 != 0

-- `decode` from the tests of the fields, which are already read.
unfoldable pub decode_fields : List ℕ → ℕ → FrameView → Option FrameView
decode_fields document payload_size frame =
    if payload_size == 0
      || ltb max_payload_bytes payload_size
      || length document != header_bytes + payload_size
      || frame.session_id == 0
      || frame.sequence == 0
    then none
    else some frame

unfoldable pub decode : List ℕ → Option FrameView
unfolding decode_fields
decode document =
    if header_fails document
    then none
    else decode_fields document (read_u16 document 6) (record {
      channel = get_or document 4 0;
      session_id = read_u64 document 8;
      sequence = read_u64 document 16;
      monotonic_ms = read_u64 document 24;
      payload = drop header_bytes document;
    })

abbrev pub order_reset : FrameOrder
order_reset = record { session_id = 0; sequence = 0; monotonic_ms = 0; has_value = false }

unfoldable pub order_accepts : FrameOrder → FrameView → Bool
order_accepts order frame =
    if frame.session_id == 0 || frame.sequence == 0
    then false
    else not order.has_value
      || order.session_id != frame.session_id
      || sequence_after frame.sequence order.sequence && leb order.monotonic_ms frame.monotonic_ms

unfoldable pub order_commit : FrameOrder → FrameView → FrameOrder
order_commit order frame = record {
  session_id = frame.session_id;
  sequence = frame.sequence;
  monotonic_ms = frame.monotonic_ms;
  has_value = true;
}
