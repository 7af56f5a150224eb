-- ===== src/Companion/LinkFrame/Examples.antt =====
-- The theorems about deck_companion_link_frame.cpp at concrete inputs.
use s3_rlcd_deck.Base.{ℕ, ◌≤◌, ◌≡◌, refl, inl, true, false, List, [], ◌∷◌, arith, length}
use s3_rlcd_deck.Base.Int.{pos, negsuc}
use s3_rlcd_deck.Companion.LinkFrame.{invalid, complete, init}
use s3_rlcd_deck.Companion.LinkFrame.Laws.{Call, accepts, run, run-init-Inv}
use s3_rlcd_deck.Companion.LinkFrame.Delivery.{message, accept_frames, accept_frames_completes}

-- A frame that overruns the buffer of 4 bytes, after one with a length under 0.
abbrev hostile : List Call
hostile =
    accepts (negsuc 0) (pos 0) 1 true (1 ∷ [])
    ∷ accepts (pos 9) (pos 0) 1 false (1 ∷ 2 ∷ 3 ∷ [])
    ∷ accepts (pos 9) (pos 3) 1 false (4 ∷ 5 ∷ 6 ∷ [])
    ∷ []

run-init-Inv_example :
    ((run (init 4) hostile).message_size ≡ length (run (init 4) hostile).buffer)
    × ((run (init 4) hostile).message_size ≤ 4)
run-init-Inv_example = run-init-Inv 4 hostile (omega arith)

-- A text in two frames, the first in two chunks.
abbrev first : List (List ℕ)
first = (104 ∷ 101 ∷ []) ∷ (108 ∷ []) ∷ []

abbrev others : List (List (List ℕ))
others = ((108 ∷ 111 ∷ []) ∷ []) ∷ []

abbrev hello : List ℕ
hello = 104 ∷ 101 ∷ 108 ∷ 108 ∷ 111 ∷ []

accept_frames_completes_example :
    let (f, r) = accept_frames (init 8) 1 invalid (first ∷ others) in
    (r ≡ complete) × (f.buffer ≡ hello) × (f.message_size ≡ 5) × (f.frame_active ≡ false)
unfolding message
accept_frames_completes_example =
    accept_frames_completes 8 1 first others (omega arith) (inl refl)
      ((omega arith, (omega arith, tt)), omega arith, ((omega arith, tt), omega arith, tt))
      (omega arith)
