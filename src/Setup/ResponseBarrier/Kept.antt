-- ===== src/Setup/ResponseBarrier/Kept.antt =====
-- What every operation of deck_setup_response_barrier.cpp keeps of the generations in its slots.
use s3_rlcd_deck.Base.{
  Option-cases, ℕ, zero, suc, ◌≤◌, ◌<◌, ◌≡◌, ◌≢◌, inl, inr, refl, false, some, List, [], ◌∷◌,
  replicate, arith,
}
use s3_rlcd_deck.Setup.ResponseBarrier.{
  Slot, fill_free, acknowledge_slots, complete_at, release_slots, cleared_slot,
}
use s3_rlcd_deck.Setup.ResponseBarrier.Slots.{IsAck, Low, Gone}

pub complete_at-Gone : (g : ℕ) (slots : List Slot) → Gone g slots → complete_at slots g ≡ false
unfolding complete_at
complete_at-Gone g [] h = refl
complete_at-Gone g (s ∷ slots) h = ground (arith, complete_at-Gone g slots h.1)

pub fill_free-Gone :
    (g : ℕ) (slots : List Slot) (slot : Slot) (filled : List Slot)
    → Gone g slots
    → slot.generation ≢ g
    → fill_free slots slot ≡ some filled
    → Gone g filled
unfolding fill_free
fill_free-Gone g [] slot filled h differs e = ground arith
fill_free-Gone g (s ∷ slots) slot filled h differs e = elim (Option-cases (fill_free slots slot)) [
  | inl full ↦ ground arith
  | inr (rest, found) ↦ ground (arith, fill_free-Gone g slots slot rest h.1 differs found)
]

pub acknowledge_slots-Gone :
    (g : ℕ) (slots : List Slot) (client : ℕ) (ack : List ℕ)
    → Gone g slots
    → Gone g (acknowledge_slots slots client ack).0
unfolding acknowledge_slots
acknowledge_slots-Gone g [] client ack h = tt
acknowledge_slots-Gone g (s ∷ slots) client ack h =
    ground (arith, acknowledge_slots-Gone g slots client ack h.1)

pub release_slots_keep-Gone :
    (g : ℕ) (slots : List Slot) (generation : ℕ)
    → 0 < g
    → Gone g slots
    → Gone g (release_slots slots generation)
unfolding release_slots
release_slots_keep-Gone g [] generation pos h = tt
release_slots_keep-Gone g (s ∷ slots) generation pos h =
    ground (arith, release_slots_keep-Gone g slots generation pos h.1)

pub Low-mono : (low high : ℕ) (slots : List Slot) → low ≤ high → Low low slots → Low high slots
Low-mono low high [] h l = tt
Low-mono low high (s ∷ slots) h l = (omega arith, l.1, l.2, Low-mono low high slots h l.3)

pub fill_free-Low :
    (bound : ℕ) (slots : List Slot) (slot : Slot) (filled : List Slot)
    → Low bound slots
    → (slot.generation ≤ bound) × IsAck slot.response_ack × (slot.generation ≢ 0)
    → fill_free slots slot ≡ some filled
    → Low bound filled
unfolding fill_free
fill_free-Low bound [] slot filled l fits e = ground arith
fill_free-Low bound (s ∷ slots) slot filled l fits e = elim (Option-cases (fill_free slots slot)) [
  | inl full ↦ ground arith
  | inr (rest, found) ↦ ground (arith, fill_free-Low bound slots slot rest l.3 fits found)
]

pub acknowledge_slots-Low :
    (bound : ℕ) (slots : List Slot) (client : ℕ) (ack : List ℕ)
    → Low bound slots
    → Low bound (acknowledge_slots slots client ack).0
unfolding acknowledge_slots
acknowledge_slots-Low bound [] client ack l = tt
acknowledge_slots-Low bound (s ∷ slots) client ack l =
    ground (arith, acknowledge_slots-Low bound slots client ack l.3)

zeros-IsAck : IsAck cleared_slot.response_ack
zeros-IsAck = (omega arith, refl)

pub release_slots-Low :
    (bound : ℕ) (slots : List Slot) (generation : ℕ)
    → Low bound slots
    → Low bound (release_slots slots generation)
unfolding release_slots
release_slots-Low bound [] generation l = tt
release_slots-Low bound (s ∷ slots) generation l =
    ground (arith, release_slots-Low bound slots generation l.3, zeros-IsAck)

pub replicate-Low : (n : ℕ) → Low 0 (replicate n cleared_slot)
replicate-Low zero = tt
replicate-Low (suc n) = (omega arith, zeros-IsAck, inr refl, replicate-Low n)
