-- ===== src/Setup/ResponseBarrier.antt =====
-- The acknowledgements that a response reached its client:
-- firmware/components/setup_mode/deck_setup_response_barrier.cpp. Each method runs under the
-- barrier's mutex, in one step. The array of slots is a list, as long as the capacity.
pub mod Slots
pub mod Kept
pub mod Calls
pub mod Tracking
use s3_rlcd_deck.Base.{
  ℕ, ◌+◌, ◌%◌, ◌^◌, Bool, true, false, not, ◌&&◌, Option, none, some, List, [], ◌∷◌, ◌==◌, ◌!=◌,
  if◌then◌else◌, replicate, same_text,
}
use s3_rlcd_deck.Ota.Digest.{digest_equal}

abbrev pub response_ack_size : ℕ
response_ack_size = 16

-- A slot is free where its generation is 0.
pub record Slot : Type 0 where
  pub generation : ℕ
  pub client_ipv4 : ℕ
  pub response_ack : List ℕ
  pub complete : Bool

pub record Barrier : Type 0 where
  pub slots : List Slot
  pub next_generation : ℕ

-- `clear_slot`, and a slot of a new barrier.
abbrev pub cleared_slot : Slot
cleared_slot = record {
  generation = 0;
  client_ipv4 = 0;
  response_ack = replicate response_ack_size 0;
  complete = false;
}

unfoldable pub create : ℕ → Option Barrier
create capacity =
    if capacity == 0
    then none
    else some (record { slots = replicate capacity cleared_slot; next_generation = 0 })

-- A response in flight has this acknowledgement.
unfoldable pub is_taken : List Slot → List ℕ → Bool
is_taken [] ack = false
is_taken (s ∷ slots) ack =
    if s.generation != 0 && same_text s.response_ack ack then true else is_taken slots ack

-- The first free slot becomes this one, but keeps its own `complete`, which the code leaves alone;
-- `none` where there is no free slot.
unfoldable pub fill_free : List Slot → Slot → Option (List Slot)
fill_free [] slot = none
fill_free (s ∷ slots) slot =
    let rest = fill_free slots slot in
    if s.generation == 0
    then some (record slot { complete = s.complete } ∷ slots)
    else elim rest [ none ↦ none | some filled ↦ some (s ∷ filled) ]

-- `++next_generation`, which skips 0.
unfoldable pub following : ℕ → ℕ
following generation = let next = (generation + 1) % 2 ^ 32 in if next == 0 then 1 else next

unfoldable pub issue : Barrier → ℕ → List ℕ → Barrier × ℕ
issue b client_ipv4 ack =
    let generation = following b.next_generation in
    let slot : Slot = record {
      generation = generation;
      client_ipv4 = client_ipv4;
      response_ack = ack;
      complete = false;
    } in
    if is_taken b.slots ack then (b, 0) else elim (fill_free b.slots slot) [
      | none ↦ (b, 0)
      | some slots ↦ (record { slots = slots; next_generation = generation }, generation)
    ]

-- The constant-time comparison is that of the digests.
abbrev pub is_awaited : Slot → ℕ → List ℕ → Bool
is_awaited s client_ipv4 ack =
    s.generation != 0
    && not s.complete
    && s.client_ipv4 == client_ipv4
    && digest_equal s.response_ack ack

-- The first slot that awaits this acknowledgement is complete.
unfoldable pub acknowledge_slots : List Slot → ℕ → List ℕ → List Slot × Bool
acknowledge_slots [] client_ipv4 ack = ([], false)
acknowledge_slots (s ∷ slots) client_ipv4 ack =
    let (rest, found) = acknowledge_slots slots client_ipv4 ack in
    if is_awaited s client_ipv4 ack
    then (record s { complete = true } ∷ slots, true)
    else (s ∷ rest, found)

unfoldable pub acknowledge : Barrier → ℕ → List ℕ → Barrier × Bool
acknowledge b client_ipv4 ack =
    let (slots, found) = acknowledge_slots b.slots client_ipv4 ack in
    (record b { slots = slots }, found)

unfoldable pub complete_at : List Slot → ℕ → Bool
complete_at [] generation = false
complete_at (s ∷ slots) generation =
    if s.generation == generation then s.complete else complete_at slots generation

unfoldable pub is_complete : Barrier → ℕ → Bool
is_complete b generation = if generation == 0 then false else complete_at b.slots generation

unfoldable pub release_slots : List Slot → ℕ → List Slot
release_slots [] generation = []
release_slots (s ∷ slots) generation =
    let rest = release_slots slots generation in
    if s.generation == generation then cleared_slot ∷ slots else s ∷ rest

unfoldable pub release : Barrier → ℕ → Barrier
release b generation =
    if generation == 0 then b else record b { slots = release_slots b.slots generation }
