-- ===== src/Companion/LinkFrame/Delivery.antt =====
-- A message that is sent in order through the reassembly of deck_companion_link_frame.cpp.
use s3_rlcd_deck.Base.{
  ℕ, ◌+◌, ◌^◌, ◌≤◌, ◌<◌, ◌≡◌, ◌⊎◌, inl, inr, refl, ap, Bool, true, false, not, List, [], ◌∷◌, ◌++◌,
  if◌then◌else◌, length, arith, length-append,
}
use mathlib.Core.List.{append-nil, append_assoc}
use s3_rlcd_deck.Base.Int.{pos}
use s3_rlcd_deck.Companion.LinkFrame.{
  LinkFrame, FrameResult, invalid, partial, complete, copy_chunk, accept, begin_frame, init,
  continuation_opcode, text_opcode, binary_opcode,
}

unfoldable pub flatten : List (List ℕ) → List ℕ
flatten [] = []
flatten (c ∷ cs) = c ++ flatten cs

-- The transport passes on a frame's chunks one after the other; the result is that of the last.
unfoldable pub accept_chunks :
    LinkFrame → ℕ → ℕ → ℕ → Bool → FrameResult → List (List ℕ) → LinkFrame × FrameResult
accept_chunks f size offset opcode final result [] = (f, result)
accept_chunks f size offset opcode final result (c ∷ cs) =
    let (g, r) = accept f (pos size) (pos offset) opcode final c in
    accept_chunks g size (offset + length c) opcode final r cs

-- Every chunk has a byte.
abbrev pub NonEmpty : List (List ℕ) → Type 0
NonEmpty [] = Unit {0}
NonEmpty (c ∷ cs) = (0 < length c) × NonEmpty cs

-- `offset` bytes of a frame of `size` are there; the message is `b` so far.
record Mid (f : LinkFrame) (n size offset opcode : ℕ) (b : List ℕ) : Type 0 where
  pub capacity : f.capacity ≡ n
  pub buffer : f.buffer ≡ b
  pub counted : f.message_size ≡ length b
  pub on : f.active ≡ true
  pub frame_on : f.frame_active ≡ true
  pub payload : f.frame_payload_length ≡ size
  pub same : f.frame_opcode ≡ opcode
  pub filled : f.frame_size ≡ offset

-- A frame is over; the message is `b` so far, and wants more where `waits` says so.
pub record Between (f : LinkFrame) (n : ℕ) (waits : Bool) (b : List ℕ) : Type 0 where
  pub capacity : f.capacity ≡ n
  pub buffer : f.buffer ≡ b
  pub counted : f.message_size ≡ length b
  pub on : f.active ≡ true
  pub frame_off : f.frame_active ≡ false
  pub waiting : f.awaiting_continuation ≡ waits

abbrev pub end_result : Bool → FrameResult
end_result final = if final then complete else partial

-- One chunk of a frame under way.
copy_chunk-Mid :
    (f : LinkFrame) (n size offset opcode : ℕ) (final : Bool) (b c : List ℕ)
    → Mid f n size offset opcode b
    → n < 2 ^ 32
    → size < 2 ^ 31
    → offset + length c < size
    → length b + length c ≤ n
    → Mid (copy_chunk f final c).0 n size (offset + length c) opcode (b ++ c)
unfolding copy_chunk
copy_chunk-Mid f n size offset opcode final b c m hn hs more fits =
    ground (arith, length-append b c, ap (λ x. x ++ c) m.buffer)

copy_chunk-Between :
    (f : LinkFrame) (n size offset opcode : ℕ) (final : Bool) (b c : List ℕ)
    → Mid f n size offset opcode b
    → n < 2 ^ 32
    → size < 2 ^ 31
    → offset + length c ≡ size
    → length b + length c ≤ n
    → Between (copy_chunk f final c).0 n (not final) (b ++ c)
      × ((copy_chunk f final c).1 ≡ end_result final)
unfolding copy_chunk
copy_chunk-Between f n size offset opcode final b c m hn hs last fits =
    ground (arith, length-append b c, ap (λ x. x ++ c) m.buffer)

accept-copies :
    (f : LinkFrame) (n size offset opcode : ℕ) (final : Bool) (b c : List ℕ)
    → Mid f n size offset opcode b
    → 0 < n
    → 0 < offset
    → size < 2 ^ 31
    → offset + length c ≤ size
    → accept f (pos size) (pos offset) opcode final c ≡ copy_chunk f final c
unfolding accept
accept-copies f n size offset opcode final b c m hn ho hs fits = ground arith

-- The rest of a frame whose first chunk has arrived.
accept_chunks-rest :
    (f : LinkFrame) (n size offset opcode : ℕ) (final : Bool) (result : FrameResult) (b c : List ℕ)
    (cs : List (List ℕ))
    → Mid f n size offset opcode b
    → n < 2 ^ 32
    → 0 < offset
    → size < 2 ^ 31
    → NonEmpty (c ∷ cs)
    → offset + length (flatten (c ∷ cs)) ≡ size
    → length b + length (flatten (c ∷ cs)) ≤ n
    → let (g, r) = accept_chunks f size offset opcode final result (c ∷ cs) in
      Between g n (not final) (b ++ flatten (c ∷ cs)) × (r ≡ end_result final)
unfolding accept_chunks flatten
accept_chunks-rest f n size offset opcode final result b c [] m hn ho hs ne whole fits =
    let e : c ++ [] ≡ c = append-nil c in
    let last : offset + length c ≡ size = ground (arith, length-append c []) in
    let room : length b + length c ≤ n = ground (arith, length-append c []) in
    let step =
      accept-copies f n size offset opcode final b c m (omega (arith, ne.0)) ho hs
        (omega (arith, last)) in
    rw (step, e) (copy_chunk-Between f n size offset opcode final b c m hn hs last room)
accept_chunks-rest f n size offset opcode final result b c (d ∷ cs) m hn ho hs ne whole fits =
    let rest = d ++ flatten cs in
    let total : length (c ++ rest) ≡ length c + length rest = length-append c rest in
    let more : length rest ≡ length d + length (flatten cs) = length-append d (flatten cs) in
    let short : offset + length c < size = omega (arith, total, more, ne.1.0, whole) in
    let step =
      accept-copies f n size offset opcode final b c m (omega (arith, ne.0)) ho hs
        (omega (arith, short)) in
    let g = (copy_chunk f final c).0 in
    let r = (copy_chunk f final c).1 in
    let ends =
      accept_chunks-rest g n size (offset + length c) opcode final r (b ++ c) d cs
        (copy_chunk-Mid f n size offset opcode final b c m hn hs short (omega (arith, total, fits)))
        hn (omega arith) hs ne.1 (omega (arith, total, whole))
        (omega (arith, total, fits, length-append b c)) in
    let same : accept_chunks f size offset opcode final result (c ∷ d ∷ cs)
        ≡ accept_chunks g size (offset + length c) opcode final r (d ∷ cs) =
      ap (λ x. accept_chunks x.0 size (offset + length c) opcode final x.1 (d ∷ cs)) step in
    rw (same, ← append_assoc b c rest) ends

-- The opcode that the next frame of the message `b` may have.
abbrev Ready : LinkFrame → ℕ → ℕ → List ℕ → Type 0
Ready f n opcode b =
    (Between f n true b × (opcode ≡ continuation_opcode))
    ⊎ ((f.active ≡ false)
        × (f.frame_active ≡ false)
        × (f.capacity ≡ n)
        × (b ≡ [])
        × ((opcode ≡ text_opcode) ⊎ (opcode ≡ binary_opcode)))

abbrev started : LinkFrame → ℕ → ℕ → LinkFrame
started f size opcode =
    if f.active
    then begin_frame f size opcode
    else begin_frame
        (record f { active = true; message_opcode = opcode; message_size = 0; buffer = [] }) size
        opcode

accept_first :
    (f : LinkFrame) (n size opcode : ℕ) (final : Bool) (b c : List ℕ)
    → Ready f n opcode b
    → 0 < n
    → 0 < size
    → size < 2 ^ 31
    → length c ≤ size
    → (accept f (pos size) (pos 0) opcode final c ≡ copy_chunk (started f size opcode) final c)
      × Mid (started f size opcode) n size 0 opcode b
unfolding accept
accept_first f n size opcode final b c (inl (v, e)) hn hs small fits = ground arith
accept_first f n size opcode final b c (inr v) hn hs small fits = ground arith

-- One frame of a message, in chunks.
accept_chunks-whole :
    (f : LinkFrame) (n opcode : ℕ) (final : Bool) (b c : List ℕ) (cs : List (List ℕ))
    → Ready f n opcode b
    → n < 2 ^ 32
    → length (flatten (c ∷ cs)) < 2 ^ 31
    → NonEmpty (c ∷ cs)
    → length b + length (flatten (c ∷ cs)) ≤ n
    → let (g, r) = accept_chunks f (length (flatten (c ∷ cs))) 0 opcode final partial (c ∷ cs) in
      Between g n (not final) (b ++ flatten (c ∷ cs)) × (r ≡ end_result final)
unfolding accept_chunks flatten
accept_chunks-whole f n opcode final b c [] ready hn hs ne fits =
    let e : c ++ [] ≡ c = append-nil c in
    let size = length c in
    let same : length (c ++ []) ≡ size = ap length e in
    let small : size < 2 ^ 31 = omega (arith, same, hs) in
    let (step, mid) =
      accept_first f n size opcode final b c ready (omega (arith, ne.0, same, fits)) ne.0 small
        (omega arith) in
    let h = started f size opcode in
    let ends =
      copy_chunk-Between h n size 0 opcode final b c mid hn small (omega arith)
        (omega (arith, same, fits)) in
    let go : accept_chunks f size 0 opcode final partial (c ∷ []) ≡ copy_chunk h final c = step in
    rw (e, go) ends
accept_chunks-whole f n opcode final b c (d ∷ cs) ready hn hs ne fits =
    let rest = d ++ flatten cs in
    let size = length (c ++ rest) in
    let total : size ≡ length c + length rest = length-append c rest in
    let more : length rest ≡ length d + length (flatten cs) = length-append d (flatten cs) in
    let short : 0 + length c < size = omega (arith, total, more, ne.1.0) in
    let (step, mid) =
      accept_first f n size opcode final b c ready (omega (arith, total, ne.0))
        (omega (arith, short)) hs (omega (arith, short)) in
    let h = started f size opcode in
    let g = (copy_chunk h final c).0 in
    let r = (copy_chunk h final c).1 in
    let ends =
      accept_chunks-rest g n size (0 + length c) opcode final r (b ++ c) d cs
        (copy_chunk-Mid h n size 0 opcode final b c mid hn hs short (omega (arith, total, fits))) hn
        (omega (arith, ne.0)) hs ne.1 (omega (arith, total))
        (omega (arith, total, fits, length-append b c)) in
    let same : accept_chunks f size 0 opcode final partial (c ∷ d ∷ cs)
        ≡ accept_chunks g size (0 + length c) opcode final r (d ∷ cs) =
      ap (λ x. accept_chunks x.0 size (0 + length c) opcode final x.1 (d ∷ cs)) step in
    rw (same, ← append_assoc b c rest) ends

abbrev pub is_last : List (List (List ℕ)) → Bool
is_last [] = true
is_last (w ∷ ws) = false

-- The bytes of a message in frames.
unfoldable pub message : List (List (List ℕ)) → List ℕ
unfolding flatten
message [] = []
message (w ∷ ws) = flatten w ++ message ws

-- The frames of a message: the first has the message's opcode, the others continue it.
unfoldable pub accept_frames :
    LinkFrame → ℕ → FrameResult → List (List (List ℕ)) → LinkFrame × FrameResult
unfolding accept_chunks
accept_frames f opcode result [] = (f, result)
accept_frames f opcode result (w ∷ ws) =
    let (g, r) = accept_chunks f (length (flatten w)) 0 opcode (is_last ws) partial w in
    accept_frames g continuation_opcode r ws

-- Every frame has a chunk, every chunk a byte, and a frame's length fits an `int`.
abbrev pub Splits : List (List (List ℕ)) → Type 0
Splits [] = Unit {0}
Splits ([] ∷ ws) = ⊥
Splits ((c ∷ cs) ∷ ws) = NonEmpty (c ∷ cs) × (length (flatten (c ∷ cs)) < 2 ^ 31) × Splits ws

accept_frames-Between :
    (f : LinkFrame) (n opcode : ℕ) (result : FrameResult) (b : List ℕ) (w : List (List ℕ))
    (ws : List (List (List ℕ)))
    → Ready f n opcode b
    → n < 2 ^ 32
    → Splits (w ∷ ws)
    → length b + length (message (w ∷ ws)) ≤ n
    → let (g, r) = accept_frames f opcode result (w ∷ ws) in
      Between g n false (b ++ message (w ∷ ws)) × (r ≡ complete)
unfolding accept_frames message
accept_frames-Between f n opcode result b [] ws ready hn split fits = elim split [ ]
accept_frames-Between f n opcode result b (c ∷ cs) [] ready hn split fits =
    let e : flatten (c ∷ cs) ++ [] ≡ flatten (c ∷ cs) = append-nil (flatten (c ∷ cs)) in
    rw e (
      accept_chunks-whole f n opcode true b c cs ready hn split.1 split.0
        (omega (arith, fits, ap length e)))
accept_frames-Between f n opcode result b (c ∷ cs) (v ∷ ws) ready hn split fits =
    let one = flatten (c ∷ cs) in
    let rest = message (v ∷ ws) in
    let total : length (one ++ rest) ≡ length one + length rest = length-append one rest in
    let (mid, r) =
      accept_chunks-whole f n opcode false b c cs ready hn split.1 split.0
        (omega (arith, fits, total)) in
    let g = accept_chunks f (length one) 0 opcode false partial (c ∷ cs) in
    rw (← append_assoc b one rest) (
      accept_frames-Between g.0 n continuation_opcode g.1 (b ++ one) v ws (inl (mid, refl)) hn
        split.2 (omega (arith, fits, total, length-append b one)))

-- A text or binary message that fits a new buffer of less than 2 ^ 32 bytes, sent in any number of
-- frames of less than 2 ^ 31 bytes, each passed on in any number of chunks that have a byte, is put
-- together: the last chunk completes it, and the buffer holds its bytes in order, counted.
pub accept_frames_completes :
    (n opcode : ℕ) (w : List (List ℕ)) (ws : List (List (List ℕ)))
    → n < 2 ^ 32
    → (opcode ≡ text_opcode) ⊎ (opcode ≡ binary_opcode)
    → Splits (w ∷ ws)
    → length (message (w ∷ ws)) ≤ n
    → let (f, r) = accept_frames (init n) opcode invalid (w ∷ ws) in
      (r ≡ complete)
      × (f.buffer ≡ message (w ∷ ws))
      × (f.message_size ≡ length (message (w ∷ ws)))
      × (f.frame_active ≡ false)
unfolding init
accept_frames_completes n opcode w ws hn kind split fits =
    let ready : Ready (init n) n opcode [] = inr (refl, refl, refl, refl, kind) in
    let (ends, r) =
      accept_frames-Between (init n) n opcode invalid [] w ws ready hn split
        (omega (arith, fits)) in
    (r, ends.buffer, ends.counted, ends.frame_off)
