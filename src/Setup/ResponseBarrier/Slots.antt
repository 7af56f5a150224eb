-- ===== src/Setup/ResponseBarrier/Slots.antt =====
-- One response in flight among the slots of deck_setup_response_barrier.cpp.
use s3_rlcd_deck.Base.{
  Option-cases, ℕ, ◌≤◌, ◌<◌, ◌≡◌, ◌≢◌, ◌⊎◌, inl, inr, refl, Bool, true, false, ◌&&◌, ◌||◌, some,
  List, [], ◌∷◌, ◌==◌, same_text, same_text_iff, arith, length,
}
use s3_rlcd_deck.Ota.Digest.{digest_equal_iff, AllBytes}
use s3_rlcd_deck.Setup.ResponseBarrier.{
  Slot, is_taken, fill_free, acknowledge_slots, complete_at, release_slots, cleared_slot,
}

abbrev pub IsAck : List ℕ → Type 0
IsAck ack = AllBytes ack × (length ack ≡ 16)

-- Every generation is one that was given, and a free slot is not complete.
abbrev pub Low : ℕ → List Slot → Type 0
Low bound [] = Unit {0}
Low bound (s ∷ slots) =
    (s.generation ≤ bound)
    × IsAck s.response_ack
    × ((s.generation ≢ 0) ⊎ (s.complete ≡ false))
    × Low bound slots

-- No slot has this generation.
abbrev pub Gone : ℕ → List Slot → Type 0
Gone g [] = Unit {0}
Gone g (s ∷ slots) = (s.generation ≢ g) × Gone g slots

module _ (g client_ipv4 : ℕ) (ack : List ℕ) where
  -- A slot with another generation, and with another acknowledgement if it is in use.
  pub record Other (s : Slot) : Type 0 where
    pub generation_differs : s.generation ≢ g
    pub ack_differs : (s.generation ≡ 0) ⊎ (s.response_ack ≢ ack)
    pub ack_size : IsAck s.response_ack
    pub free_reset : (s.generation ≢ 0) ⊎ (s.complete ≡ false)

  pub record Holds (done : Bool) (s : Slot) : Type 0 where
    pub generation_is : s.generation ≡ g
    pub client_is : s.client_ipv4 ≡ client_ipv4
    pub ack_is : s.response_ack ≡ ack
    pub complete_is : s.complete ≡ done

  abbrev pub AllOther : List Slot → Type 0
  AllOther [] = Unit {0}
  AllOther (s ∷ slots) = Other s × AllOther slots

  -- One slot holds the response, and the others do not.
  abbrev pub Tracked : Bool → List Slot → Type 0
  Tracked done [] = ⊥
  Tracked done (s ∷ slots) = (Holds done s × AllOther slots) ⊎ (Other s × Tracked done slots)

  pub complete_at-Tracked :
      (done : Bool) (slots : List Slot) → Tracked done slots → complete_at slots g ≡ done
  unfolding complete_at
  complete_at-Tracked done [] t = absurd t
  complete_at-Tracked done (s ∷ slots) (inl (h, t)) = ground arith
  complete_at-Tracked done (s ∷ slots) (inr (o, t)) =
      ground (arith, complete_at-Tracked done slots t)

  pub is_taken-Tracked :
      (done : Bool) (slots : List Slot) → 0 < g → Tracked done slots → is_taken slots ack ≡ true
  unfolding is_taken
  is_taken-Tracked done [] pos t = absurd t
  is_taken-Tracked done (s ∷ slots) pos (inl (h, t)) =
      ground (arith, same_text_iff s.response_ack ack)
  is_taken-Tracked done (s ∷ slots) pos (inr (o, t)) =
      ground (arith, is_taken-Tracked done slots pos t)

  -- Before it is issued: its acknowledgement is not in use, and its generation was never given.
  pub is_taken-AllOther :
      (bound : ℕ) (slots : List Slot)
      → Low bound slots
      → bound < g
      → is_taken slots ack ≡ false
      → AllOther slots
  unfolding is_taken
  is_taken-AllOther bound [] low fresh free = tt
  is_taken-AllOther bound (s ∷ slots) low fresh free =
      let rest = is_taken-AllOther bound slots low.3 fresh in
      ground (arith, rest, same_text_iff s.response_ack ack)

  pub fill_free-Holds :
      (slots : List Slot) (slot : Slot) (filled : List Slot)
      → AllOther slots
      → Holds false slot
      → 0 < g
      → fill_free slots slot ≡ some filled
      → Tracked false filled
  unfolding fill_free
  fill_free-Holds [] slot filled others holds pos e = ground arith
  fill_free-Holds (s ∷ slots) slot filled others holds pos e =
      elim (Option-cases (fill_free slots slot)) [
        | inl full ↦ ground arith
        | inr (rest, found) ↦
            ground (arith, fill_free-Holds slots slot rest others.1 holds pos found)
      ]

  pub fill_free-AllOther :
      (slots : List Slot) (slot : Slot) (filled : List Slot)
      → AllOther slots
      → Other slot
      → slot.generation ≢ 0
      → fill_free slots slot ≡ some filled
      → AllOther filled
  unfolding fill_free
  fill_free-AllOther [] slot filled others other used e = ground arith
  fill_free-AllOther (s ∷ slots) slot filled others other used e =
      elim (Option-cases (fill_free slots slot)) [
        | inl full ↦ ground arith
        | inr (rest, found) ↦
            ground (arith, fill_free-AllOther slots slot rest others.1 other used found)
      ]

  pub fill_free-Tracked :
      (done : Bool) (slots : List Slot) (slot : Slot) (filled : List Slot)
      → 0 < g
      → Tracked done slots
      → Other slot
      → slot.generation ≢ 0
      → fill_free slots slot ≡ some filled
      → Tracked done filled
  unfolding fill_free
  fill_free-Tracked done [] slot filled pos t other used e = absurd t
  fill_free-Tracked done (s ∷ slots) slot filled pos (inl (h, t)) other used e =
      elim (Option-cases (fill_free slots slot)) [
        | inl full ↦ ground arith
        | inr (rest, found) ↦ ground (arith, fill_free-AllOther slots slot rest t other used found)
      ]
  fill_free-Tracked done (s ∷ slots) slot filled pos (inr (o, t)) other used e =
      elim (Option-cases (fill_free slots slot)) [
        | inl full ↦ ground arith
        | inr (rest, found) ↦
            ground (arith, fill_free-Tracked done slots slot rest pos t other used found)
      ]

  pub acknowledge_slots-AllOther :
      (slots : List Slot) (client : ℕ) (other : List ℕ)
      → AllOther slots
      → AllOther (acknowledge_slots slots client other).0
  unfolding acknowledge_slots
  acknowledge_slots-AllOther [] client other o = tt
  acknowledge_slots-AllOther (s ∷ slots) client other o =
      ground (arith, acknowledge_slots-AllOther slots client other o.1)

  -- Only an acknowledgement by the same client completes the response.
  pub acknowledge_slots-Tracked :
      (done : Bool) (slots : List Slot) (client : ℕ) (other : List ℕ)
      → 0 < g
      → IsAck ack
      → IsAck other
      → Tracked done slots
      → Tracked
          (done || client == client_ipv4 && same_text other ack)
          (acknowledge_slots slots client other).0
  unfolding acknowledge_slots
  acknowledge_slots-Tracked done [] client other pos mine theirs t = absurd t
  acknowledge_slots-Tracked done (s ∷ slots) client other pos mine theirs (inl (h, t)) = ground (
    arith,
    acknowledge_slots-AllOther slots client other t,
    same_text_iff other ack,
    digest_equal_iff s.response_ack other,
  )
  acknowledge_slots-Tracked done (s ∷ slots) client other pos mine theirs (inr (o, t)) = ground (
    arith,
    acknowledge_slots-Tracked done slots client other pos mine theirs t,
    same_text_iff other ack,
    digest_equal_iff s.response_ack other,
  )

  cleared-Other : 0 < g → Other cleared_slot
  cleared-Other pos = record {
    generation_differs = λ e. omega arith;
    ack_differs = inl refl;
    ack_size = (omega arith, refl);
    free_reset = inr refl;
  }

  release_slots-AllOther :
      (slots : List Slot) (generation : ℕ)
      → 0 < g
      → AllOther slots
      → AllOther (release_slots slots generation)
  unfolding release_slots
  release_slots-AllOther [] generation pos o = tt
  release_slots-AllOther (s ∷ slots) generation pos o =
      ground (arith, release_slots-AllOther slots generation pos o.1, cleared-Other pos)

  -- The release of another response leaves this one.
  pub release_slots-Tracked :
      (done : Bool) (slots : List Slot) (generation : ℕ)
      → 0 < g
      → generation ≢ g
      → Tracked done slots
      → Tracked done (release_slots slots generation)
  unfolding release_slots
  release_slots-Tracked done [] generation pos differs t = absurd t
  release_slots-Tracked done (s ∷ slots) generation pos differs (inl (h, t)) =
      ground (arith, release_slots-AllOther slots generation pos t)
  release_slots-Tracked done (s ∷ slots) generation pos differs (inr (o, t)) =
      ground (arith, release_slots-Tracked done slots generation pos differs t, cleared-Other pos)

  AllOther-Gone : (slots : List Slot) → AllOther slots → Gone g slots
  AllOther-Gone [] o = tt
  AllOther-Gone (s ∷ slots) o = (o.0.generation_differs, AllOther-Gone slots o.1)

  pub release_slots-Gone :
      (done : Bool) (slots : List Slot)
      → 0 < g
      → Tracked done slots
      → Gone g (release_slots slots g)
  unfolding release_slots
  release_slots-Gone done [] pos t = absurd t
  release_slots-Gone done (s ∷ slots) pos (inl (h, t)) = ground (arith, AllOther-Gone slots t)
  release_slots-Gone done (s ∷ slots) pos (inr (o, t)) =
      ground (arith, release_slots-Gone done slots pos t)
