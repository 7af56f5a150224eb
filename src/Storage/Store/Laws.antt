-- ===== src/Storage/Store/Laws.antt =====
-- What deck_transaction_store.cpp relies on in its storage, and the record that a boot finds there.
use s3_rlcd_deck.Base.{ℕ, ◌≡◌, ◌⊎◌, true, false, Option, none, some, List, if◌then◌else◌, arith}
use s3_rlcd_deck.Storage.Record.{Options, OwnedRecord, DecodeResult, decode_record}
use s3_rlcd_deck.Storage.Marker.{DecodedMarker, decode_marker}
use s3_rlcd_deck.Storage.Store.{
  StorageKey, ok, not_found, StorageAdapter, fetched, slot_key, of_generation,
}

-- The bytes under each key.
pub record Cells : Type 0 where
  pub candidate : Option (List ℕ)
  pub slot_0 : Option (List ℕ)
  pub slot_1 : Option (List ℕ)
  pub active_marker : Option (List ℕ)
  pub metadata : Option (List ℕ)

abbrev pub cell : Cells → StorageKey → Option (List ℕ)
cell cs StorageKey.candidate = cs.candidate
cell cs StorageKey.slot_0 = cs.slot_0
cell cs StorageKey.slot_1 = cs.slot_1
cell cs StorageKey.active_marker = cs.active_marker
cell cs StorageKey.metadata = cs.metadata

abbrev pub put : Cells → StorageKey → Option (List ℕ) → Cells
put cs StorageKey.candidate v = record cs { candidate = v }
put cs StorageKey.slot_0 v = record cs { slot_0 = v }
put cs StorageKey.slot_1 v = record cs { slot_1 = v }
put cs StorageKey.active_marker v = record cs { active_marker = v }
put cs StorageKey.metadata v = record cs { metadata = v }

-- The storage as its library documents it: a read tells what is there, or fails; a write or an
-- erasure that succeeds is done, and one that fails, at a power failure too, is done or not, and
-- touches no other key.
pub record StorageLaws {S : Type 0} (sa : StorageAdapter S) (cells : S → Cells) : Type 0 where
  pub read_keeps : (c : S) (k : StorageKey) (n : ℕ) → cells (sa.read c k n).0 ≡ cells c
  pub read_tells :
      (c : S) (k : StorageKey) (n : ℕ) (bytes : List ℕ)
      → (sa.read c k n).1 ≡ ok bytes
      → cell (cells c) k ≡ some bytes
  pub read_misses :
      (c : S) (k : StorageKey) (n : ℕ) → (sa.read c k n).1 ≡ not_found → cell (cells c) k ≡ none
  pub write_puts :
      (c : S) (k : StorageKey) (d : List ℕ)
      → (sa.write c k d).1 ≡ true
      → cells (sa.write c k d).0 ≡ put (cells c) k (some d)
  pub write_fails :
      (c : S) (k : StorageKey) (d : List ℕ)
      → (sa.write c k d).1 ≡ false
      → (cells (sa.write c k d).0 ≡ cells c) ⊎ (cells (sa.write c k d).0 ≡ put (cells c) k (some d))
  pub erase_puts :
      (c : S) (k : StorageKey)
      → (sa.erase c k).1 ≡ true
      → cells (sa.erase c k).0 ≡ put (cells c) k none
  pub erase_fails :
      (c : S) (k : StorageKey)
      → (sa.erase c k).1 ≡ false
      → (cells (sa.erase c k).0 ≡ cells c) ⊎ (cells (sa.erase c k).0 ≡ put (cells c) k none)

-- The record of this generation in a slot, if the slot holds one.
abbrev pub decoded_at : Options → Option (List ℕ) → ℕ → Option OwnedRecord
decoded_at o none generation = none
decoded_at o (some bytes) generation = of_generation (fetched (decode_record o bytes)) generation

unfoldable pub stored : Options → Cells → ℕ → ℕ → Option OwnedRecord
stored o cs slot generation = decoded_at o (cell cs (slot_key slot)) generation

abbrev pub as_marker : DecodeResult DecodedMarker → Option DecodedMarker
as_marker (DecodeResult.valid m) = some m
as_marker _ = none

abbrev pub marker_at : Options → Option (List ℕ) → Option DecodedMarker
marker_at o none = none
marker_at o (some bytes) = as_marker (decode_marker o bytes)

-- The marker in the storage, if it is a good one.
unfoldable pub marker_in : Options → Cells → Option DecodedMarker
marker_in o cs = marker_at o cs.active_marker

abbrev pub at_slot : ℕ → Option OwnedRecord → Option (ℕ × OwnedRecord)
at_slot slot none = none
at_slot slot (some r) = some (slot, r)

abbrev pub first_of : Option (ℕ × OwnedRecord) → Option (ℕ × OwnedRecord) → Option (ℕ × OwnedRecord)
first_of (some found) other = some found
first_of none other = other

-- The marker's record, or else the one that it names to fall back on.
abbrev pub recover_marked : Options → Cells → DecodedMarker → Option (ℕ × OwnedRecord)
recover_marked o cs m =
    first_of (at_slot m.active_slot (stored o cs m.active_slot m.active_generation)) (
      if m.has_previous
      then at_slot m.previous_slot (stored o cs m.previous_slot m.previous_generation)
      else none)

abbrev pub recover_from : Options → Cells → Option DecodedMarker → Option (ℕ × OwnedRecord)
recover_from o cs none = none
recover_from o cs (some m) = recover_marked o cs m

-- What a boot finds: a slot and its record.
unfoldable pub recover : Options → Cells → Option (ℕ × OwnedRecord)
unfolding marker_in stored
recover o cs = recover_from o cs (marker_in o cs)

-- The marker names this slot and generation.
abbrev pub Names : Option DecodedMarker → ℕ → ℕ → Type 0
Names none slot generation = ⊥
Names (some m) slot generation = (m.active_slot ≡ slot) × (m.active_generation ≡ generation)

pub recover_of_Names :
    (o : Options) (cs : Cells) (slot generation : ℕ) (r : OwnedRecord)
    → Names (marker_in o cs) slot generation
    → stored o cs slot generation ≡ some r
    → recover o cs ≡ some (slot, r)
unfolding recover
recover_of_Names o cs slot generation r names at = ground arith
