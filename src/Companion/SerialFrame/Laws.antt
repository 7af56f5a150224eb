-- ===== src/Companion/SerialFrame/Laws.antt =====
-- The round trip of the frames of deck_serial_frame.cpp, and their order.
use s3_rlcd_deck.Base.{
  ℕ, ◌+◌, ◌-◌, ◌^◌, ◌≤◌, ◌<◌, ◌≡◌, ◌⊎◌, inl, inr, Bool, true, false, not, none, some, List, [], ◌∷◌,
  if◌then◌else◌, length, get_or, drop, arith, length-drop, Bool-cases, sym, ap, ◌∙◌,
}
use s3_rlcd_deck.Companion.SerialFrame.{
  FrameView, FrameOrder, target_rx, web_tx, byte_of, write_u16, write_u64, shift_in, encode, decode,
  decode_fields, header_fails, read_u16, read_u64, order_accepts, order_commit, order_reset,
}

read-write_u64 :
    (v : ℕ)
    → v < 2 ^ 64
    → shift_in
        (shift_in
          (shift_in
            (shift_in
              (shift_in
                (shift_in (shift_in (shift_in 0 (byte_of v 56)) (byte_of v 48)) (byte_of v 40))
                (byte_of v 32))
              (byte_of v 24))
            (byte_of v 16))
          (byte_of v 8))
        (byte_of v 0)
      ≡ v
read-write_u64 v h = omega arith

-- A frame of 1 to 256 bytes of a session and a sequence number that are not 0, on one of the two
-- channels, is encoded wherever there is room for its header and its bytes, and decodes to what it
-- was made of.
pub decode-encode :
    (channel session_id sequence monotonic_ms capacity : ℕ) (payload : List ℕ)
    → (channel ≡ target_rx) ⊎ (channel ≡ web_tx)
    → (0 < session_id) × (session_id < 2 ^ 64)
    → (0 < sequence) × (sequence < 2 ^ 64)
    → monotonic_ms < 2 ^ 64
    → 0 < length payload
    → length payload ≤ 256
    → 32 + length payload ≤ capacity
    → (document : List ℕ) × (encode channel session_id sequence monotonic_ms payload capacity
        ≡ some document)
      × (length document ≡ 32 + length payload)
      × (decode document
          ≡ some (record {
            channel = channel;
            session_id = session_id;
            sequence = sequence;
            monotonic_ms = monotonic_ms;
            payload = payload;
          }))
unfolding encode decode
decode-encode channel session_id sequence monotonic_ms capacity payload kind id number time
      some_bytes few room =
    (
      b'S'
          ∷ b'R'
          ∷ b'D'
          ∷ b'1'
          ∷ channel
          ∷ 0
          ∷ write_u16 (length payload)
              (write_u64 session_id (write_u64 sequence (write_u64 monotonic_ms payload))),
      ground arith,
      omega arith,
      ground
          (arith, read-write_u64 session_id, read-write_u64 sequence, read-write_u64 monotonic_ms),
    )

decode_fields_sound :
    (document : List ℕ) (size : ℕ) (read frame : FrameView)
    → decode_fields document size read ≡ some frame
    → (frame ≡ read)
      × (0 < size)
      × (size ≤ 256)
      × (length document ≡ 32 + size)
      × (0 < frame.session_id)
      × (0 < frame.sequence)
unfolding decode_fields
decode_fields_sound document size read frame e = ground arith

abbrev frame_read : List ℕ → FrameView
frame_read document = record {
  channel = get_or document 4 0;
  session_id = read_u64 document 8;
  sequence = read_u64 document 16;
  monotonic_ms = read_u64 document 24;
  payload = drop 32 document;
}

-- The fields are looked at only where the header is right.
decode_cases :
    (document : List ℕ)
    → (decode document ≡ none)
      ⊎ (((get_or document 4 0 ≡ target_rx) ⊎ (get_or document 4 0 ≡ web_tx))
          × (decode document ≡ decode_fields document (read_u16 document 6) (frame_read document)))
unfolding decode
decode_cases document = elim (Bool-cases (header_fails document)) [
  | inl bad ↦ inl (rw bad)
  | inr good ↦ inr (ground arith, rw good)
]

-- Of what is too short, has another header, or does not have the length that it says, nothing is
-- decoded; and a frame that is decoded has a session, a sequence number and 1 to 256 bytes, all
-- that follow the header.
pub decode_sound :
    (document : List ℕ) (frame : FrameView)
    → decode document ≡ some frame
    → ((frame.channel ≡ target_rx) ⊎ (frame.channel ≡ web_tx))
      × (0 < frame.session_id)
      × (0 < frame.sequence)
      × (0 < length frame.payload)
      × (length frame.payload ≤ 256)
      × (length document ≡ 32 + length frame.payload)
decode_sound document frame e = elim (decode_cases document) [
  | inl gone ↦ cc (gone, e)
  | inr (channel, same) ↦
      let fields =
        decode_fields_sound document (read_u16 document 6) (frame_read document) frame
          (sym same ∙ e) in
      let kind : frame.channel ≡ get_or document 4 0 = ap (λ f. f.channel) fields.0 in
      let count : length frame.payload ≡ length document - 32 =
        ap (λ f. length f.payload) fields.0 ∙ length-drop 32 document in
      (
        rw kind channel,
        fields.4,
        fields.5,
        omega (arith, count, fields.1, fields.3),
        omega (arith, count, fields.2, fields.3),
        omega (arith, count, fields.3),
      )
]

-- Receiving a Web frame in deck_companion_link.cpp, once it is decoded and the session is current:
-- a frame that the order accepts is committed if the serial service takes its bytes.
unfoldable pub observe : FrameOrder → FrameView → Bool → FrameOrder
unfolding order_accepts order_commit
observe order frame taken =
    if not (order_accepts order frame)
    then order
    else if taken
    then order_commit order frame
    else order

-- The link resets the order where the transport is closed, and where the port is disarmed.
pub data Event : Type 0 where
  receives : FrameView → Bool → Event
  resets : Event

unfoldable pub observe_all : FrameOrder → List Event → FrameOrder
unfolding observe
observe_all order [] = order
observe_all order (receives f taken ∷ events) = observe_all (observe order f taken) events
observe_all order (resets ∷ events) = observe_all order_reset events

-- Frames of the one session, with sequence numbers from the lower half of the range, and no reset.
abbrev pub OfSession : ℕ → List Event → Type 0
OfSession session [] = Unit {0}
OfSession session (receives f taken ∷ events) =
    (f.session_id ≡ session) × (f.sequence < 2 ^ 63) × OfSession session events
OfSession session (resets ∷ events) = ⊥

-- The order has seen this session up to a sequence number.
record Past (order : FrameOrder) (session reached time : ℕ) : Type 0 where
  pub seen : order.has_value ≡ true
  pub same : order.session_id ≡ session
  pub ahead : reached ≤ order.sequence
  pub low : order.sequence < 2 ^ 63
  pub later : time ≤ order.monotonic_ms

observe_all-Past :
    (order : FrameOrder) (session reached time : ℕ) (events : List Event)
    → OfSession session events
    → Past order session reached time
    → Past (observe_all order events) session reached time
unfolding observe_all
observe_all-Past order session reached time [] all p = p
observe_all-Past order session reached time (receives f taken ∷ events) all p =
    observe_all-Past (observe order f taken) session reached time events all.2 (ground arith)
observe_all-Past order session reached time (resets ∷ events) all p = absurd all

-- Once a frame was accepted and its bytes were taken, and as long as only frames of its session
-- follow, taken or not, and the order is not reset, the frame is refused, as is every frame of the
-- session with no higher sequence number or an earlier time, for sequence numbers below 2 ^ 63.
pub observe_all-refuses :
    (order : FrameOrder) (frame old : FrameView) (events : List Event)
    → order_accepts order frame ≡ true
    → frame.sequence < 2 ^ 63
    → OfSession frame.session_id events
    → old.session_id ≡ frame.session_id
    → old.sequence < 2 ^ 63
    → (old.sequence ≤ frame.sequence) ⊎ (old.monotonic_ms < frame.monotonic_ms)
    → order_accepts (observe_all (observe order frame true) events) old ≡ false
unfolding observe order_accepts
observe_all-refuses order frame old events fresh low all same low' stale =
    let p =
      observe_all-Past (observe order frame true) frame.session_id frame.sequence frame.monotonic_ms
        events all (ground arith) in
    ground (arith, p)
