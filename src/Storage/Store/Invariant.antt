-- ===== src/Storage/Store/Invariant.antt =====
-- How the store and the storage of deck_transaction_store.cpp agree, and the first steps of a commit.
use s3_rlcd_deck.Base.{
  ℕ, ◌^◌, ◌≤◌, ◌<◌, ◌≡◌, ◌≢◌, ◌⊎◌, ◌∙◌, inl, inr, refl, true, false, Option, none, some, List,
  arith, Option-cases, Bool-cases,
}
use s3_rlcd_deck.Storage.Record.{Options, OwnedRecord, decode_record-valid}
use s3_rlcd_deck.Storage.Marker.{
  DecodedMarker, encode_marker, IsMarker, decode_marker-encode_marker, marker_size,
}
use s3_rlcd_deck.Storage.Store.{
  StorageKey, active_marker, ReadResult, ok, not_found, error, StorageAdapter, Store, slot_key,
}
use s3_rlcd_deck.Storage.Store.Commit.{single_marker, write_and_verify_marker, prepare_marker}
use s3_rlcd_deck.Storage.Store.Laws.{
  Cells, cell, put, StorageLaws, stored, marker_in, recover, Names, recover_of_Names,
}

pub ReadResult-cases :
    (r : ReadResult) → ((bytes : List ℕ) × (r ≡ ok bytes)) ⊎ ((r ≡ not_found) ⊎ (r ≡ error))
ReadResult-cases (ok bytes) = inl (bytes, refl)
ReadResult-cases not_found = inr (inl refl)
ReadResult-cases error = inr (inr refl)

-- A marker that was written is the one that is found.
pub marker_in-put :
    (o : Options) (cs : Cells) (m : DecodedMarker)
    → IsMarker m
    → marker_in o (put cs active_marker (some (encode_marker o m))) ≡ some m
unfolding marker_in
marker_in-put o cs m v = ground (arith, decode_marker-encode_marker o m v)

pub stored-put_marker :
    (o : Options) (cs : Cells) (v : Option (List ℕ)) (slot generation : ℕ)
    → stored o (put cs active_marker v) slot generation ≡ stored o cs slot generation
unfolding stored
stored-put_marker o cs v slot generation = ground arith

pub stored-put_slot :
    (o : Options) (cs : Cells) (v : Option (List ℕ)) (slot other generation : ℕ)
    → slot ≤ 1
    → other ≤ 1
    → other ≢ slot
    → stored o (put cs (slot_key other) v) slot generation ≡ stored o cs slot generation
unfolding stored
stored-put_slot o cs v slot other generation h k ne = ground arith

pub marker_in-put_slot :
    (o : Options) (cs : Cells) (v : Option (List ℕ)) (other : ℕ)
    → marker_in o (put cs (slot_key other) v) ≡ marker_in o cs
unfolding marker_in
marker_in-put_slot o cs v other = ground arith

-- The record that a slot holds has the generation of its bytes.
pub stored-bounds :
    (o : Options) (cs : Cells) (slot generation : ℕ) (r : OwnedRecord)
    → stored o cs slot generation ≡ some r
    → (r.generation ≡ generation) × (0 < generation) × (generation < 2 ^ 32)
unfolding stored
stored-bounds o cs slot generation r e = elim (Option-cases (cell cs (slot_key slot))) [
  | inl e1 ↦ ground arith
  | inr (bytes, e1) ↦ ground (arith, decode_record-valid o bytes r)
]

-- A new marker decides what a boot finds.
pub recover-put_marker :
    (o : Options) (cs : Cells) (m : DecodedMarker) (r : OwnedRecord)
    → IsMarker m
    → stored o cs m.active_slot m.active_generation ≡ some r
    → let cs' = put cs active_marker (some (encode_marker o m)) in
      Names (marker_in o cs') m.active_slot m.active_generation
      × (stored o cs' m.active_slot m.active_generation ≡ some r)
      × (recover o cs' ≡ some (m.active_slot, r))
recover-put_marker o cs m r v at =
    let cs' = put cs active_marker (some (encode_marker o m)) in
    let same =
      stored-put_marker o cs (some (encode_marker o m)) m.active_slot m.active_generation in
    let names : Names (marker_in o cs') m.active_slot m.active_generation =
      rw (marker_in-put o cs m v) (refl, refl) in
    (names, same ∙ at, recover_of_Names o cs' m.active_slot m.active_generation r names (same ∙ at))

pub recover-put-none : (o : Options) (cs : Cells) → recover o (put cs active_marker none) ≡ none
unfolding recover
recover-put-none o cs = refl

module _ {S : Type 0} (cells : S → Cells) where
  -- What holds between two calls, while the storage has not failed.
  pub record Inv (st : Store S) : Type 0 where
    pub slot : st.active_slot ≤ 1
    pub home :
        st.has_active ≡ false
        → (st.active_slot ≡ 0) × (recover st.options (cells st.context) ≡ none)
    pub found :
        st.has_active ≡ true
        → (stored st.options (cells st.context) st.active_slot st.active.generation
            ≡ some st.active)
          × (recover st.options (cells st.context) ≡ some (st.active_slot, st.active))
    pub named :
        st.has_active ≡ true
        → st.marker_matches_active ≡ true
        → Names (marker_in st.options (cells st.context)) st.active_slot st.active.generation
    pub bare :
        st.has_active ≡ false → st.marker_present ≡ false → (cells st.context).active_marker ≡ none
    pub fresh :
        st.has_candidate ≡ true → (0 < st.candidate.generation) × (st.candidate.generation < 2 ^ 32)

  -- Before a slot is overwritten: the marker names the active record, or there is none.
  pub record Prepared (st : Store S) : Type 0 where
    pub slot : st.active_slot ≤ 1
    pub home :
        st.has_active ≡ false → (st.active_slot ≡ 0) × ((cells st.context).active_marker ≡ none)
    pub found :
        st.has_active ≡ true
        → (stored st.options (cells st.context) st.active_slot st.active.generation
            ≡ some st.active)
          × Names (marker_in st.options (cells st.context)) st.active_slot st.active.generation

  pub Prepared-recover :
      (st : Store S)
      → Prepared st
      → ((st.has_active ≡ false) × (recover st.options (cells st.context) ≡ none))
        ⊎ ((st.has_active ≡ true)
            × (recover st.options (cells st.context) ≡ some (st.active_slot, st.active)))
  unfolding recover marker_in
  Prepared-recover st v = elim (Bool-cases st.has_active) [
    | inl on ↦ inr (
      on,
      recover_of_Names st.options (cells st.context) st.active_slot st.active.generation st.active
          (v.found on).1 (v.found on).0,
    )
    | inr off ↦ inl (off, ground arith)
  ]

module _ {S : Type 0} (sa : StorageAdapter S) (cells : S → Cells)
    (laws : StorageLaws sa cells) where
  pub write_cases :
      (c : S) (k : StorageKey) (d : List ℕ)
      → (cells (sa.write c k d).0 ≡ cells c) ⊎ (cells (sa.write c k d).0 ≡ put (cells c) k (some d))
  write_cases c k d = ground (arith, laws.write_puts c k d, laws.write_fails c k d)

  pub erase_cases :
      (c : S) (k : StorageKey)
      → (cells (sa.erase c k).0 ≡ cells c) ⊎ (cells (sa.erase c k).0 ≡ put (cells c) k none)
  erase_cases c k = ground (arith, laws.erase_puts c k, laws.erase_fails c k)

  -- A marker that reads back is there; otherwise it is there, or the old one is.
  pub write_and_verify_marker_lem :
      (c : S) (marker : List ℕ)
      → let (d, done) = write_and_verify_marker sa c marker in
        ((cells d ≡ put (cells c) active_marker (some marker)))
        ⊎ ((cells d ≡ cells c) × (done ≡ false))
  unfolding write_and_verify_marker
  write_and_verify_marker_lem c marker =
      let d = (sa.write c active_marker marker).0 in
      ground (
        arith,
        laws.write_puts c active_marker marker,
        laws.write_fails c active_marker marker,
        laws.read_keeps d active_marker marker_size,
      )

  -- Whether it succeeds or not, the step before a slot is overwritten does not change what a boot
  -- finds.
  pub prepare_marker-recover :
      (st : Store S)
      → Inv cells st
      → recover st.options (cells (prepare_marker sa st).0.context)
        ≡ recover st.options (cells st.context)
  unfolding prepare_marker
  prepare_marker-recover st v =
      let m = single_marker st in
      let bytes = encode_marker st.options m in
      ground (
        arith,
        write_and_verify_marker_lem st.context bytes,
        erase_cases st.context active_marker,
        recover-put-none st.options (cells st.context),
        stored-bounds st.options (cells st.context) st.active_slot st.active.generation st.active,
        recover-put_marker st.options (cells st.context) m st.active,
      )

  pub prepare_marker-Prepared :
      (st : Store S)
      → Inv cells st
      → (prepare_marker sa st).1 ≡ true
      → Prepared cells (prepare_marker sa st).0
  unfolding prepare_marker
  prepare_marker-Prepared st v ready =
      let m = single_marker st in
      let bytes = encode_marker st.options m in
      ground (
        arith,
        write_and_verify_marker_lem st.context bytes,
        laws.erase_puts st.context active_marker,
        stored-bounds st.options (cells st.context) st.active_slot st.active.generation st.active,
        recover-put_marker st.options (cells st.context) m st.active,
      )

  -- The rest of the store is left alone.
  pub prepare_marker_same :
      (st : Store S)
      → let u = (prepare_marker sa st).0 in
        (u.options ≡ st.options)
        × (u.active ≡ st.active)
        × (u.active_slot ≡ st.active_slot)
        × (u.has_active ≡ st.has_active)
        × (u.candidate ≡ st.candidate)
        × (u.has_candidate ≡ st.has_candidate)
        × (u.storage_faulted ≡ st.storage_faulted)
  unfolding prepare_marker
  prepare_marker_same st = ground arith
