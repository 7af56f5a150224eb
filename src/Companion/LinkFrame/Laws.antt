-- ===== src/Companion/LinkFrame/Laws.antt =====
-- What the reassembly of deck_companion_link_frame.cpp keeps, and what it puts together.
use s3_rlcd_deck.Base.{
  ℕ, ◌^◌, ◌≤◌, ◌<◌, ◌≡◌, inl, inr, refl, Bool, List, [], ◌∷◌, length, arith, length-append,
  Option-cases,
}
use s3_rlcd_deck.Base.Int.{ℤ, pos, negsuc}
use s3_rlcd_deck.Companion.LinkFrame.{
  LinkFrame, init, reset, start_transport_frame, copy_chunk, accept_at, accept,
}

-- The buffer keeps its capacity, its bytes are counted, and they fit.
pub record Inv (n : ℕ) (f : LinkFrame) : Type 0 where
  pub same : f.capacity ≡ n
  pub width : f.capacity < 2 ^ 32
  pub counted : f.message_size ≡ length f.buffer
  pub fits : f.message_size ≤ f.capacity

copy_chunk-Inv :
    (n : ℕ) (f : LinkFrame) (final : Bool) (bytes : List ℕ)
    → Inv n f
    → Inv n (copy_chunk f final bytes).0
unfolding copy_chunk
copy_chunk-Inv n f final bytes v = ground (arith, length-append f.buffer bytes)

accept_at-Inv :
    (n : ℕ) (f : LinkFrame) (size offset opcode : ℕ) (final : Bool) (bytes : List ℕ)
    → Inv n f
    → Inv n (accept_at f size offset opcode final bytes).0
unfolding accept_at
accept_at-Inv n f size offset opcode final bytes v =
    elim (Option-cases (start_transport_frame f size opcode)) [
      | inl e ↦ ground (arith, copy_chunk-Inv n f final bytes)
      | inr (g, e) ↦
          let started : Inv n g = ground arith in
          ground (arith, copy_chunk-Inv n f final bytes, copy_chunk-Inv n g final bytes started)
    ]

pub data Call : Type 0 where
  resets : Call
  accepts : (length offset : ℤ) (opcode : ℕ) (final : Bool) (bytes : List ℕ) → Call

unfoldable pub step : LinkFrame → Call → LinkFrame
step f resets = reset f
step f (accepts n o c fin bytes) = (accept f n o c fin bytes).0

unfoldable pub run : LinkFrame → List Call → LinkFrame
unfolding step
run f [] = f
run f (c ∷ cs) = run (step f c) cs

step-Inv : (n : ℕ) (f : LinkFrame) (c : Call) → Inv n f → Inv n (step f c)
unfolding step reset accept
step-Inv n f resets v = ground arith
step-Inv n f (accepts (negsuc m) o c fin bytes) v = v
step-Inv n f (accepts (pos m) (negsuc o) c fin bytes) v = v
step-Inv n f (accepts (pos m) (pos o) c fin bytes) v = accept_at-Inv n f m o c fin bytes v

run-Inv : (n : ℕ) (f : LinkFrame) (cs : List Call) → Inv n f → Inv n (run f cs)
unfolding run
run-Inv n f [] v = v
run-Inv n f (c ∷ cs) v = run-Inv n (step f c) cs (step-Inv n f c v)

-- Whatever chunks arrive, in whatever order and of whatever lengths, the message's bytes are
-- counted and never run over a buffer of less than 2 ^ 32 bytes.
pub run-init-Inv :
    (capacity : ℕ) (cs : List Call)
    → capacity < 2 ^ 32
    → let f = run (init capacity) cs in
      (f.message_size ≡ length f.buffer) × (f.message_size ≤ capacity)
unfolding init
run-init-Inv capacity cs h =
    let v : Inv capacity (init capacity) = record {
      same = refl;
      width = h;
      counted = refl;
      fits = omega arith;
    } in
    ground (arith, run-Inv capacity (init capacity) cs v)
