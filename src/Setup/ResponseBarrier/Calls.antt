-- ===== src/Setup/ResponseBarrier/Calls.antt =====
-- Sequences of calls of deck_setup_response_barrier.cpp, and the generations that they give.
use s3_rlcd_deck.Base.{
  Option-cases, ℕ, suc, ◌+◌, ◌^◌, ◌≤◌, ◌<◌, ◌≡◌, inl, inr, Bool, false, ◌&&◌, ◌||◌, List, [], ◌∷◌,
  ◌==◌, if◌then◌else◌, arith, length, same_text,
}
use s3_rlcd_deck.Setup.ResponseBarrier.{
  Slot, Barrier, fill_free, following, issue, acknowledge, is_complete, release,
}
use s3_rlcd_deck.Setup.ResponseBarrier.Slots.{IsAck, Low, Gone}
use s3_rlcd_deck.Setup.ResponseBarrier.Kept.{
  complete_at-Gone, fill_free-Gone, acknowledge_slots-Gone, release_slots_keep-Gone, Low-mono,
  fill_free-Low, acknowledge_slots-Low, release_slots-Low,
}

pub data Call : Type 0 where
  issues acknowledges : ℕ → List ℕ → Call
  releases : ℕ → Call

unfoldable pub step : Barrier → Call → Barrier
step b (issues client ack) = (issue b client ack).0
step b (acknowledges client ack) = (acknowledge b client ack).0
step b (releases generation) = release b generation

unfoldable pub run : Barrier → List Call → Barrier
unfolding step
run b [] = b
run b (c ∷ cs) = run (step b c) cs

-- Acknowledgements are arrays of 16 bytes.
abbrev pub IsCall : Call → Type 0
IsCall (issues client ack) = IsAck ack
IsCall (acknowledges client ack) = IsAck ack
IsCall (releases generation) = Unit {0}

abbrev pub AllCalls : List Call → Type 0
AllCalls [] = Unit {0}
AllCalls (c ∷ cs) = IsCall c × AllCalls cs

-- The response is complete once its own client acknowledges it, until it is released.
unfoldable pub expected : ℕ → List ℕ → ℕ → Bool → List Call → Bool
expected client ack g done [] = done
expected client ack g done (issues other code ∷ cs) = expected client ack g done cs
expected client ack g done (acknowledges other code ∷ cs) =
    expected client ack g (done || other == client && same_text code ack) cs
expected client ack g done (releases generation ∷ cs) =
    let rest = expected client ack g done cs in if generation == g then false else rest

-- Room for the calls before the counter of generations wraps.
pub record Numbered (b : Barrier) (left : ℕ) : Type 0 where
  pub low : Low b.next_generation b.slots
  pub room : b.next_generation + left < 2 ^ 32

pub following_next : (n : ℕ) → n + 1 < 2 ^ 32 → following n ≡ n + 1
unfolding following
following_next n h = ground arith

pub step-Numbered :
    (b : Barrier) (c : Call) (left : ℕ)
    → IsCall c
    → Numbered b (suc left)
    → Numbered (step b c) left × (b.next_generation ≤ (step b c).next_generation)
unfolding step issue acknowledge release
step-Numbered b (issues client ack) left is n =
    let slot : Slot = record {
      generation = following b.next_generation;
      client_ipv4 = client;
      response_ack = ack;
      complete = false;
    } in
    let next = following_next b.next_generation (omega (arith, n.room)) in
    let higher = Low-mono b.next_generation (b.next_generation + 1) b.slots (omega arith) n.low in
    elim (Option-cases (fill_free b.slots slot)) [
      | inl full ↦ ground (arith, next)
      | inr (filled, found) ↦ ground (
        arith,
        next,
        fill_free-Low (b.next_generation + 1) b.slots slot filled higher
            (omega (arith, next), is, λ e. omega (arith, e, next)) found,
      )
    ]
step-Numbered b (acknowledges client ack) left is n = (
  record {
    low = acknowledge_slots-Low b.next_generation b.slots client ack n.low;
    room = omega (arith, n.room);
  },
  omega arith,
)
step-Numbered b (releases generation) left is n =
    ground (arith, release_slots-Low b.next_generation b.slots generation n.low)

-- A response that is released stays so: its generation is not given again.
step-Gone :
    (g : ℕ) (b : Barrier) (c : Call) (left : ℕ)
    → 0 < g
    → g ≤ b.next_generation
    → Numbered b (suc left)
    → Gone g b.slots
    → Gone g (step b c).slots
unfolding step issue acknowledge release
step-Gone g b (issues client ack) left pos le n h =
    let slot : Slot = record {
      generation = following b.next_generation;
      client_ipv4 = client;
      response_ack = ack;
      complete = false;
    } in
    let next = following_next b.next_generation (omega (arith, n.room)) in
    elim (Option-cases (fill_free b.slots slot)) [
      | inl full ↦ ground arith
      | inr (filled, found) ↦
          ground
            (arith, fill_free-Gone g b.slots slot filled h (λ e. omega (arith, e, next, le)) found)
    ]
step-Gone g b (acknowledges client ack) left pos le n h =
    acknowledge_slots-Gone g b.slots client ack h
step-Gone g b (releases generation) left pos le n h =
    ground (arith, release_slots_keep-Gone g b.slots generation pos h)

pub run-Gone :
    (g : ℕ) (b : Barrier) (cs : List Call)
    → 0 < g
    → g ≤ b.next_generation
    → AllCalls cs
    → Numbered b (length cs)
    → Gone g b.slots
    → is_complete (run b cs) g ≡ false
unfolding run is_complete
run-Gone g b [] pos le all n h = ground (arith, complete_at-Gone g b.slots h)
run-Gone g b (c ∷ cs) pos le all n h =
    let (kept, higher) = step-Numbered b c (length cs) all.0 n in
    run-Gone g (step b c) cs pos (omega (arith, le, higher)) all.1 kept
      (step-Gone g b c (length cs) pos le n h)
