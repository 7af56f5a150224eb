-- ===== src/Setup/ResponseBarrier/Tracking.antt =====
-- What the barrier of deck_setup_response_barrier.cpp tells about one response, over any calls.
use s3_rlcd_deck.Base.{
  Option-cases, Bool-cases, ℕ, suc, ◌+◌, ◌^◌, ◌≤◌, ◌<◌, ◌≡◌, ◌≢◌, inl, inr, refl, Bool, false, ◌&&◌,
  ◌||◌, some, List, [], ◌∷◌, ◌==◌, arith, length, same_text,
}
use native.Mathlib.Decide.{ℕ_discrete}
use s3_rlcd_deck.Setup.ResponseBarrier.{
  Slot, Barrier, create, is_taken, fill_free, following, issue, acknowledge, is_complete, release,
}
use s3_rlcd_deck.Setup.ResponseBarrier.Slots.{
  IsAck, Other, Holds, Tracked, complete_at-Tracked, is_taken-Tracked, is_taken-AllOther,
  fill_free-Holds, fill_free-Tracked, acknowledge_slots-Tracked, release_slots-Tracked,
  release_slots-Gone,
}
use s3_rlcd_deck.Setup.ResponseBarrier.Kept.{replicate-Low}
use s3_rlcd_deck.Setup.ResponseBarrier.Calls.{
  Call, issues, acknowledges, releases, step, run, AllCalls, expected, Numbered, following_next,
  step-Numbered, run-Gone,
}

module _ (g client_ipv4 : ℕ) (ack : List ℕ) (pos : 0 < g) (mine : IsAck ack) where
  issue-Tracked :
      (done : Bool) (b : Barrier) (client : ℕ) (code : List ℕ)
      → g ≤ b.next_generation
      → b.next_generation + 1 < 2 ^ 32
      → IsAck code
      → Tracked g client_ipv4 ack done b.slots
      → Tracked g client_ipv4 ack done (issue b client code).0.slots
  unfolding issue
  issue-Tracked done b client code le room is t =
      let slot : Slot = record {
        generation = following b.next_generation;
        client_ipv4 = client;
        response_ack = code;
        complete = false;
      } in
      let next = following_next b.next_generation room in
      elim (Bool-cases (is_taken b.slots code)) [
        | inl taken ↦ rw taken t
        | inr free ↦
            let differs : code ≢ ack =
              λ e. cc (is_taken-Tracked g client_ipv4 ack done b.slots pos t, free, e) in
            let used : slot.generation ≢ 0 = λ e. omega (arith, e, next) in
            let other : Other g client_ipv4 ack slot = record {
              generation_differs = λ e. omega (arith, e, next, le);
              ack_differs = inr differs;
              ack_size = is;
              free_reset = inl used;
            } in
            elim (Option-cases (fill_free b.slots slot)) [
              | inl full ↦ ground arith
              | inr (filled, found) ↦ ground (
                arith,
                fill_free-Tracked g client_ipv4 ack done b.slots slot filled pos t other used found,
              )
            ]
      ]

  run-Tracked :
      (done : Bool) (b : Barrier) (cs : List Call)
      → g ≤ b.next_generation
      → AllCalls cs
      → Numbered b (length cs)
      → Tracked g client_ipv4 ack done b.slots
      → is_complete (run b cs) g ≡ expected client_ipv4 ack g done cs
  unfolding run is_complete expected step acknowledge release
  run-Tracked done b [] le all n t =
      ground (arith, complete_at-Tracked g client_ipv4 ack done b.slots t)
  run-Tracked done b (issues client code ∷ cs) le all n t =
      let c = issues client code in
      let (kept, higher) = step-Numbered b c (length cs) all.0 n in
      run-Tracked done (step b c) cs (omega (arith, le, higher)) all.1 kept
        (issue-Tracked done b client code le (omega (arith, n.room)) all.0 t)
  run-Tracked done b (acknowledges client code ∷ cs) le all n t =
      let c = acknowledges client code in
      let (kept, higher) = step-Numbered b c (length cs) all.0 n in
      let now = done || client == client_ipv4 && same_text code ack in
      run-Tracked now (step b c) cs (omega (arith, le, higher)) all.1 kept
        (acknowledge_slots-Tracked g client_ipv4 ack done b.slots client code pos mine all.0 t)
  run-Tracked done b (releases generation ∷ cs) le all n t =
      let c = releases generation in
      let (kept, higher) = step-Numbered b c (length cs) all.0 n in
      elim (ℕ_discrete generation g) [
        | yes same ↦
            let gone = release_slots-Gone g client_ipv4 ack done b.slots pos t in
            let over =
              run-Gone g (step b c) cs pos (omega (arith, le, higher)) all.1 kept
                (ground (arith, gone)) in
            ground (arith, over)
        | no differs ↦
            let left =
              release_slots-Tracked g client_ipv4 ack done b.slots generation pos differs t in
            let rest =
              run-Tracked done (step b c) cs (omega (arith, le, higher)) all.1 kept
                (ground (arith, left)) in
            ground (arith, rest)
      ]

run-Numbered :
    (b : Barrier) (cs : List Call) (left : ℕ)
    → AllCalls cs
    → Numbered b (length cs + left)
    → Numbered (run b cs) left
unfolding run
run-Numbered b [] left all n = ground arith
run-Numbered b (c ∷ cs) left all n =
    let more : Numbered b (suc (length cs + left)) = record {
      low = n.low;
      room = omega (arith, n.room);
    } in
    run-Numbered (step b c) cs left all.1 (step-Numbered b c (length cs + left) all.0 more).0

create-Numbered :
    (capacity left : ℕ) (b : Barrier) → create capacity ≡ some b → left < 2 ^ 32 → Numbered b left
unfolding create
create-Numbered capacity left b e h = ground (arith, replicate-Low capacity)

-- A new response is in flight under the generation that was given.
issue-tracks :
    (b : Barrier) (client : ℕ) (ack : List ℕ)
    → IsAck ack
    → Numbered b 1
    → (issue b client ack).1 ≢ 0
    → let (u, g) = issue b client ack in
      (0 < g) × (g ≤ u.next_generation) × Tracked g client ack false u.slots
unfolding issue
issue-tracks b client ack is n given =
    let g = following b.next_generation in
    let slot : Slot = record {
      generation = g;
      client_ipv4 = client;
      response_ack = ack;
      complete = false;
    } in
    let next = following_next b.next_generation n.room in
    elim (Bool-cases (is_taken b.slots ack)) [
      | inl taken ↦ absurd (given (ground arith))
      | inr free ↦
          let others =
            is_taken-AllOther g client ack b.next_generation b.slots n.low (omega (arith, next))
              free in
          elim (Option-cases (fill_free b.slots slot)) [
            | inl full ↦ absurd (given (ground arith))
            | inr (filled, found) ↦
                let holds : Holds g client ack false slot = record {
                  generation_is = refl;
                  client_is = refl;
                  ack_is = refl;
                  complete_is = refl;
                } in
                ground (
                  arith,
                  next,
                  fill_free-Holds g client ack b.slots slot filled others holds
                      (omega (arith, next)) found,
                )
          ]
    ]

-- A response that is issued is complete exactly where its own client has acknowledged it with its
-- own 16 bytes, and it was not released, whatever other responses are issued, acknowledged and
-- released around it, before the counter of generations wraps.
pub is_complete-issue :
    (capacity client : ℕ) (ack : List ℕ) (b : Barrier) (before after : List Call)
    → create capacity ≡ some b
    → IsAck ack
    → AllCalls before
    → AllCalls after
    → length before + length after + 1 < 2 ^ 32
    → (issue (run b before) client ack).1 ≢ 0
    → let (u, g) = issue (run b before) client ack in
      is_complete (run u after) g ≡ expected client ack g false after
unfolding step
is_complete-issue capacity client ack b before after new is all_before all_after room given =
    let start = create-Numbered capacity (length before + suc (length after)) b new (omega arith) in
    let n = run-Numbered b before (suc (length after)) all_before start in
    let one : Numbered (run b before) 1 = record { low = n.low; room = omega (arith, n.room) } in
    let (pos, le, tracked) = issue-tracks (run b before) client ack is one given in
    let (u, g) = issue (run b before) client ack in
    let (kept, higher) = step-Numbered (run b before) (issues client ack) (length after) is n in
    run-Tracked g client ack pos is false u after le all_after kept tracked
