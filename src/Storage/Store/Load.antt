-- ===== src/Storage/Store/Load.antt =====
-- What a boot finds: `load_candidate`, `load_active` and `create` of deck_transaction_store.cpp.
use s3_rlcd_deck.Base.{
  ℕ, ◌+◌, ◌^◌, ◌≤◌, ◌<◌, ◌≡◌, ◌⊎◌, ◌∙◌, inl, inr, refl, true, false, none, some, List, arith,
  Option-cases,
}
use s3_rlcd_deck.Storage.Record.{
  Options, OwnedRecord, DecodeResult, decode_record, decode_record-valid, record_header_size,
  checksum_size,
}
use s3_rlcd_deck.Storage.Marker.{DecodedMarker, decode_marker, decode_marker-valid, marker_size}
use s3_rlcd_deck.Storage.Store.{
  candidate, active_marker, of_generation, StorageAdapter, Store, Fetched, absent, failed, slot_key,
  read_encoded_record, candidate_loaded, load_candidate, previous_loaded, selected_loaded,
  marker_decoded, marker_loaded, load_active, create, read_previous, blank_store,
}
use s3_rlcd_deck.Storage.Store.Laws.{
  Cells, StorageLaws, stored, marker_in, recover, Names, recover_marked, as_marker,
}
use s3_rlcd_deck.Storage.Store.Faults.{FailedRead, create-FailedRead}
use s3_rlcd_deck.Storage.Store.Invariant.{Inv, ReadResult-cases, stored-bounds}

DecodeResult-cases :
    (d : DecodeResult OwnedRecord)
    → ((r : OwnedRecord) × (d ≡ DecodeResult.valid r))
      ⊎ ((d ≡ DecodeResult.corrupt)
          ⊎ ((d ≡ DecodeResult.unsupported) ⊎ (d ≡ DecodeResult.migration_failed)))
DecodeResult-cases (DecodeResult.valid r) = inl (r, refl)
DecodeResult-cases DecodeResult.corrupt = inr (inl refl)
DecodeResult-cases DecodeResult.unsupported = inr (inr (inl refl))
DecodeResult-cases DecodeResult.migration_failed = inr (inr (inr refl))

recover_marked_lem :
    (o : Options) (cs : Cells) (m : DecodedMarker)
    → marker_in o cs ≡ some m
    → recover o cs ≡ recover_marked o cs m
unfolding recover
recover_marked_lem o cs m e = ground arith

module _ {S : Type 0} (sa : StorageAdapter S) (cells : S → Cells)
    (laws : StorageLaws sa cells) where
  -- A read leaves the storage alone, and finds the record of a generation where there is one.
  pub read_encoded_record-stored :
      (o : Options) (c : S) (slot generation : ℕ)
      → let (d, f) = read_encoded_record sa o c (slot_key slot) in
        (cells d ≡ cells c)
        × ((f ≡ failed) ⊎ (of_generation f generation ≡ stored o (cells c) slot generation))
  unfolding read_encoded_record stored
  read_encoded_record-stored o c slot generation =
      let n = record_header_size + o.payload_capacity + checksum_size in
      elim (ReadResult-cases (sa.read c (slot_key slot) n).1) [
        | inl (bytes, e1) ↦
            ground (
              arith,
              laws.read_keeps c (slot_key slot) n,
              laws.read_tells c (slot_key slot) n bytes,
            )
        | inr (inl e1) ↦
            ground
              (arith, laws.read_keeps c (slot_key slot) n, laws.read_misses c (slot_key slot) n)
        | inr (inr e1) ↦ ground (arith, laws.read_keeps c (slot_key slot) n)
      ]

  -- A store that has not looked for its active record yet.
  record Blank (st : Store S) : Type 0 where
    pub off : st.has_active ≡ false
    pub first : st.active_slot ≡ 0
    pub unnamed : st.marker_matches_active ≡ false
    pub fresh :
        st.has_candidate ≡ true → (0 < st.candidate.generation) × (st.candidate.generation < 2 ^ 32)

  -- The storage has failed, or the store knows what a boot finds.
  abbrev pub Sound : Store S → Type 0
  Sound st = (st.storage_faulted ≡ true) ⊎ Inv cells st

  previous_loaded-Sound :
      (st : Store S) (m : DecodedMarker) (f g : Fetched)
      → Blank st
      → st.marker_present ≡ true
      → marker_in st.options (cells st.context) ≡ some m
      → m.previous_slot ≤ 1
      → (f ≡ failed)
        ⊎ (stored st.options (cells st.context) m.active_slot m.active_generation ≡ none)
      → (g ≡ failed)
        ⊎ ((m.has_previous ≡ true)
            × (of_generation g m.previous_generation
                ≡ stored st.options (cells st.context) m.previous_slot m.previous_generation))
        ⊎ ((m.has_previous ≡ false) × (g ≡ absent))
      → Sound (previous_loaded st m f g)
  unfolding previous_loaded
  previous_loaded-Sound st m f g b present at h (inl broken) previous = inl (ground arith)
  previous_loaded-Sound st m f g b present at h (inr gone) previous =
      let found = recover_marked_lem st.options (cells st.context) m at in
      elim (Option-cases (of_generation g m.previous_generation)) [
        | inl e1 ↦ ground (arith, found)
        | inr (r, e1) ↦ ground (
          arith,
          found,
          stored-bounds st.options (cells st.context) m.previous_slot m.previous_generation r,
        )
      ]

  selected_loaded-Sound :
      (st : Store S) (m : DecodedMarker) (f : Fetched)
      → Blank st
      → st.marker_present ≡ true
      → marker_in st.options (cells st.context) ≡ some m
      → m.active_slot ≤ 1
      → m.previous_slot ≤ 1
      → ((f ≡ failed)
          ⊎ (of_generation f m.active_generation
              ≡ stored st.options (cells st.context) m.active_slot m.active_generation))
      → Sound (selected_loaded sa st m f)
  unfolding selected_loaded
  selected_loaded-Sound st m f b present at h h' selected =
      let found = recover_marked_lem st.options (cells st.context) m at in
      let (c, g) = read_previous sa st.options st.context m in
      let u = record st { context = c } in
      let prior =
        read_encoded_record-stored st.options st.context m.previous_slot m.previous_generation in
      let same : cells c ≡ cells st.context = ground (arith, prior) in
      elim (Option-cases (of_generation f m.active_generation)) [
        | inl e1 ↦
            let previous =
              previous_loaded-Sound u m f g
                (record { off = b.off; first = b.first; unnamed = b.unnamed; fresh = b.fresh })
                present (rw same at) h' (ground (arith, same)) (ground (arith, prior, same)) in
            rw (selected_loaded, e1) previous
        | inr (r, e1) ↦
            let names : Names (marker_in st.options (cells st.context)) m.active_slot
                m.active_generation =
              rw at (refl, refl) in
            let bounds =
              stored-bounds st.options (cells st.context) m.active_slot m.active_generation r
                (ground arith) in
            rw (selected_loaded, e1) (inr (ground (arith, found, names, bounds)))
      ]

  marker_decoded-Sound :
      (st : Store S) (d : DecodeResult DecodedMarker)
      → Blank st
      → st.marker_present ≡ true
      → marker_in st.options (cells st.context) ≡ as_marker d
      → ((m : DecodedMarker)
          → d ≡ DecodeResult.valid m
          → (m.active_slot ≤ 1) × (m.previous_slot ≤ 1))
      → Sound (marker_decoded sa st d)
  unfolding marker_decoded recover
  marker_decoded-Sound st (DecodeResult.valid m) b present at slots =
      let (c, f) = read_encoded_record sa st.options st.context (slot_key m.active_slot) in
      let u = record st { context = c } in
      let read =
        read_encoded_record-stored st.options st.context m.active_slot m.active_generation in
      selected_loaded-Sound u m f
        (record { off = b.off; first = b.first; unnamed = b.unnamed; fresh = b.fresh }) present
        (rw (read.0) at) (slots m refl).0 (slots m refl).1 (ground (arith, read))
  marker_decoded-Sound st d b present at slots = ground arith

  load_active-Sound :
      (st : Store S) → Blank st → st.marker_present ≡ false → Sound (load_active sa st)
  unfolding load_active marker_loaded recover
  load_active-Sound st b bare =
      let c = (sa.read st.context active_marker marker_size).0 in
      let keeps = laws.read_keeps st.context active_marker marker_size in
      elim (ReadResult-cases (sa.read st.context active_marker marker_size).1) [
        | inl (bytes, e) ↦
            let tells = laws.read_tells st.context active_marker marker_size bytes e in
            rw e (
              marker_decoded-Sound (record st { context = c; marker_present = true })
                (decode_marker st.options bytes)
                (record { off = b.off; first = b.first; unnamed = b.unnamed; fresh = b.fresh }) refl
                (ground (arith, keeps, tells)) (λ m h. decode_marker-valid st.options bytes m h))
        | inr (inl e) ↦
            let misses = laws.read_misses st.context active_marker marker_size e in
            ground (arith, keeps, misses)
        | inr (inr e) ↦ ground arith
      ]

  load_candidate-Blank :
      (st : Store S)
      → Blank st
      → st.marker_present ≡ false
      → Blank (load_candidate sa st) × ((load_candidate sa st).marker_present ≡ false)
  unfolding load_candidate candidate_loaded read_encoded_record
  load_candidate-Blank st b bare =
      let n = record_header_size + st.options.payload_capacity + checksum_size in
      elim (ReadResult-cases (sa.read st.context candidate n).1) [
        | inl (bytes, e) ↦ elim (DecodeResult-cases (decode_record st.options bytes)) [
          | inl (r, e') ↦ ground (arith, decode_record-valid st.options bytes r)
          | inr lost ↦ ground arith
        ]
        | inr lost ↦ ground arith
      ]

  load_candidate_keeps : (st : Store S) → cells (load_candidate sa st).context ≡ cells st.context
  unfolding load_candidate candidate_loaded read_encoded_record
  load_candidate_keeps st =
      let n = record_header_size + st.options.payload_capacity + checksum_size in
      ground (arith, laws.read_keeps st.context candidate n)

  selected_loaded_keeps :
      (st : Store S) (m : DecodedMarker) (f : Fetched)
      → cells (selected_loaded sa st m f).context ≡ cells st.context
  unfolding selected_loaded previous_loaded
  selected_loaded_keeps st m f =
      let read =
        read_encoded_record-stored st.options st.context m.previous_slot m.previous_generation in
      ground (arith, read)

  marker_decoded_keeps :
      (st : Store S) (d : DecodeResult DecodedMarker)
      → cells (marker_decoded sa st d).context ≡ cells st.context
  unfolding marker_decoded
  marker_decoded_keeps st (DecodeResult.valid m) =
      let (c, f) = read_encoded_record sa st.options st.context (slot_key m.active_slot) in
      selected_loaded_keeps (record st { context = c }) m f
      ∙ (read_encoded_record-stored st.options st.context m.active_slot m.active_generation).0
  marker_decoded_keeps st d = refl

  load_active_keeps : (st : Store S) → cells (load_active sa st).context ≡ cells st.context
  unfolding load_active marker_loaded
  load_active_keeps st =
      let c = (sa.read st.context active_marker marker_size).0 in
      let keeps = laws.read_keeps st.context active_marker marker_size in
      let kept = λ (bytes : List ℕ).
        marker_decoded_keeps (record st { context = c; marker_present = true })
          (decode_marker st.options bytes) in
      elim (ReadResult-cases (sa.read st.context active_marker marker_size).1) [
        | inl (bytes, e) ↦ rw e (kept bytes ∙ keeps)
        | inr (inl e) ↦ rw e keeps
        | inr (inr e) ↦ rw e keeps
      ]

  -- Creating a store leaves the storage alone. Either the store is faulted, and some reads from here
  -- end in an error; or its active record, with its slot, is the one that the marker selects, or else
  -- the one that it names to fall back on, and there is none exactly where neither is there.
  pub create_recovers :
      (c : S) (options : Options) (st : Store S)
      → create sa c options ≡ some st
      → (cells st.context ≡ cells c)
        × (((st.storage_faulted ≡ true) × FailedRead sa c)
            ⊎ ((st.has_active ≡ true)
                × (recover st.options (cells c) ≡ some (st.active_slot, st.active)))
            ⊎ ((st.has_active ≡ false) × (recover st.options (cells c) ≡ none)))
        × Sound st
  unfolding create blank_store
  create_recovers c options st e =
      let blank = blank_store c options in
      let read = load_candidate sa blank in
      let (b, bare) =
        load_candidate-Blank blank
          (record { off = refl; first = refl; unnamed = refl; fresh = λ h. cc }) refl in
      let made : st ≡ load_active sa read = ground arith in
      let same : cells st.context ≡ cells c =
        ground (arith, load_active_keeps read, load_candidate_keeps blank) in
      let sound : Sound st = rw made (load_active-Sound read b bare) in
      (
        same,
        elim sound [
          | inl faulted ↦ inl (faulted, create-FailedRead sa c options st e faulted)
          | inr i ↦ inr (ground (arith, i, same))
        ],
        sound,
      )
