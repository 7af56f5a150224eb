-- ===== src/Companion/SerialFrame/Examples.antt =====
-- The theorems about deck_serial_frame.cpp at concrete inputs.
use s3_rlcd_deck.Base.{ℕ, ◌≡◌, inl, inr, refl, true, false, some, List, [], ◌∷◌, arith, length}
use s3_rlcd_deck.Companion.SerialFrame.{FrameView, encode, decode, order_reset, order_accepts}
use s3_rlcd_deck.Companion.SerialFrame.Laws.{
  decode-encode, Event, receives, observe, observe_all, observe_all-refuses,
}

decode-encode_example :
    (document : List ℕ) × (encode 2 77 300 5 (1 ∷ 2 ∷ []) 288 ≡ some document)
    × (length document ≡ 34)
    × (decode document
        ≡ some (record {
          channel = 2;
          session_id = 77;
          sequence = 300;
          monotonic_ms = 5;
          payload = 1 ∷ 2 ∷ [];
        }))
decode-encode_example =
    decode-encode 2 77 300 5 288 (1 ∷ 2 ∷ []) (inr refl) (omega arith) (omega arith) (omega arith)
      (omega arith) (omega arith) (omega arith)

abbrev frame_of : ℕ → ℕ → FrameView
frame_of sequence time = record {
  channel = 2;
  session_id = 77;
  sequence = sequence;
  monotonic_ms = time;
  payload = 9 ∷ [];
}

abbrev document : List ℕ
document =
    83 ∷ 82 ∷ 68 ∷ 49 ∷ 2 ∷ 0 ∷ 0 ∷ 1 ∷ 0 ∷ 0 ∷ 0 ∷ 0 ∷ 0 ∷ 0 ∷ 0 ∷ 77 ∷ 0 ∷ 0 ∷ 0 ∷ 0 ∷ 0 ∷ 0 ∷ 1
    ∷ 44 ∷ 0 ∷ 0 ∷ 0 ∷ 0 ∷ 0 ∷ 0 ∷ 0 ∷ 5 ∷ 9 ∷ []

decoded : decode document ≡ some (frame_of 300 5)
unfolding decode
decoded = refl

accepted : order_accepts order_reset (frame_of 4 10) ≡ true
unfolding order_accepts
accepted = refl

abbrev later_frames : List Event
later_frames = receives (frame_of 5 12) true ∷ receives (frame_of 9 12) false ∷ []

observe_all-refuses_example :
    order_accepts
      (observe_all (observe order_reset (frame_of 4 10) true) later_frames)
      (frame_of 4 10)
    ≡ false
observe_all-refuses_example =
    observe_all-refuses order_reset (frame_of 4 10) (frame_of 4 10) later_frames accepted
      (omega arith) (ground arith) refl (omega arith) (inl (omega arith))
