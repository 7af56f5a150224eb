-- ===== src/Storage/Store/Safety.antt =====
-- What a commit of deck_transaction_store.cpp leaves behind, wherever it stops.
use mathlib.Core.Path.{subst}
use s3_rlcd_deck.Base.{
  ℕ, ◌+◌, ◌^◌, ◌≤◌, ◌<◌, ◌≡◌, ◌⊎◌, ◌∙◌, ap, inl, inr, refl, true, Option, none, some, List,
  if◌then◌else◌, arith, Option-cases, Bool-cases, same_text_iff,
}
use s3_rlcd_deck.Storage.Record.{
  Options, OwnedRecord, DecodeResult, encode_record, record_header_size, checksum_size,
}
use s3_rlcd_deck.Storage.Marker.{encode_marker, IsMarker}
use s3_rlcd_deck.Storage.Store.{
  StorageKey, candidate, active_marker, StorageAdapter, Store, Fetched, fetched, absent, failed,
  slot_key, read_encoded_record, UpdateResult, updated, storage_failure, no_candidate,
}
use s3_rlcd_deck.Storage.Store.Commit.{
  single_marker, next_marker, next_slot, record_back, write_and_verify_marker, rollback_marker,
  prepare_marker, finish_commit, switch_marker, slot_written, write_slot, commit,
}
use s3_rlcd_deck.Storage.Store.Laws.{
  Cells, put, StorageLaws, stored, marker_in, recover, Names, recover_of_Names,
}
use s3_rlcd_deck.Storage.Store.Invariant.{
  Inv, Prepared, ReadResult-cases, Prepared-recover, stored-bounds, stored-put_marker,
  stored-put_slot, marker_in-put_slot, recover-put_marker, recover-put-none, write_cases,
  erase_cases, write_and_verify_marker_lem, prepare_marker-recover, prepare_marker-Prepared,
  prepare_marker_same,
}

record_back-eq : (f : Fetched) (c r : OwnedRecord) → record_back f c ≡ some r → r ≡ c
record_back-eq (fetched (DecodeResult.valid q)) c r e =
    ground (arith, same_text_iff q.payload c.payload)
record_back-eq (fetched DecodeResult.corrupt) c r e = cc
record_back-eq (fetched DecodeResult.unsupported) c r e = cc
record_back-eq (fetched DecodeResult.migration_failed) c r e = cc
record_back-eq absent c r e = cc
record_back-eq failed c r e = cc

put_slot-marker :
    (cs : Cells) (v : Option (List ℕ)) (slot : ℕ)
    → (put cs (slot_key slot) v).active_marker ≡ cs.active_marker
put_slot-marker cs v slot = ground arith

module _ {S : Type 0} (sa : StorageAdapter S) (cells : S → Cells)
    (laws : StorageLaws sa cells) where
  -- The outcome of a commit of `r` to `slot`, where a boot found `before`.
  abbrev pub Outcome : Option (ℕ × OwnedRecord) → ℕ → OwnedRecord → Store S → UpdateResult → Type 0
  Outcome before slot r u result =
      ((result ≡ updated)
        × (recover u.options (cells u.context) ≡ some (slot, r))
        × (u.active ≡ r)
        × Inv cells u)
      ⊎ ((result ≡ storage_failure)
          × (u.storage_faulted ≡ true)
          × ((recover u.options (cells u.context) ≡ before)
              ⊎ (recover u.options (cells u.context) ≡ some (slot, r))))

  -- After a rollback a boot finds what it would have found before it, or the active record.
  rollback_marker-recover :
      (st : Store S)
      → st.active_slot ≤ 1
      → (st.has_active ≡ true
          → stored st.options (cells st.context) st.active_slot st.active.generation
            ≡ some st.active)
      → let found = recover st.options (cells (rollback_marker sa st)) in
        (found ≡ recover st.options (cells st.context))
        ⊎ (found ≡ (if st.has_active then some (st.active_slot, st.active) else none))
  unfolding rollback_marker
  rollback_marker-recover st slot found =
      let m = single_marker st in
      ground (
        arith,
        write_cases sa cells laws st.context active_marker (encode_marker st.options m),
        erase_cases sa cells laws st.context active_marker,
        recover-put-none st.options (cells st.context),
        stored-bounds st.options (cells st.context) st.active_slot st.active.generation st.active,
        recover-put_marker st.options (cells st.context) m st.active,
      )

  finish_commit-Outcome :
      (st : Store S) (slot : ℕ) (r : OwnedRecord) (before : Option (ℕ × OwnedRecord))
      → slot ≤ 1
      → (st.has_candidate ≡ true
          → (0 < st.candidate.generation) × (st.candidate.generation < 2 ^ 32))
      → stored st.options (cells st.context) slot r.generation ≡ some r
      → Names (marker_in st.options (cells st.context)) slot r.generation
      → let (u, result) = finish_commit sa st slot r in Outcome before slot r u result
  unfolding finish_commit stored marker_in recover
  finish_commit-Outcome st slot r before h fresh at names = ground (
    arith,
    erase_cases sa cells laws st.context candidate,
    recover_of_Names st.options (cells st.context) slot r.generation r names at,
  )

  -- What a commit has before it switches: a slot of its own, and a candidate.
  record Ready (st : Store S) : Type 0 where
    pub prepared : Prepared cells st
    pub fresh : (0 < st.candidate.generation) × (st.candidate.generation < 2 ^ 32)

  switch_marker-Outcome :
      (st : Store S) (r : OwnedRecord)
      → Ready st
      → (0 < r.generation) × (r.generation < 2 ^ 32)
      → stored st.options (cells st.context) (next_slot st) r.generation ≡ some r
      → let (u, result) = switch_marker sa st (next_slot st) r in
        Outcome (recover st.options (cells st.context)) (next_slot st) r u result
  unfolding switch_marker
  switch_marker-Outcome st r v gens at =
      let slot = next_slot st in
      let m = next_marker st slot r in
      let bytes = encode_marker st.options m in
      let c = (write_and_verify_marker sa st.context bytes).0 in
      let left = record st { context = c } in
      let before = recover st.options (cells st.context) in
      let sound : IsMarker m = ground (
        arith,
        stored-bounds st.options (cells st.context) st.active_slot st.active.generation st.active,
      ) in
      let new = recover-put_marker st.options (cells st.context) m r sound at in
      let written = write_and_verify_marker_lem sa cells laws st.context bytes in
      let keeps =
        stored-put_marker st.options (cells st.context) (some bytes) st.active_slot
          st.active.generation in
      elim (Bool-cases (write_and_verify_marker sa st.context bytes).1) [
        | inl on ↦
            let there : cells c ≡ put (cells st.context) active_marker (some bytes) =
              ground arith in
            rw on (
              finish_commit-Outcome left slot r before (ground arith) (λ h. v.fresh)
                (rw there new.1) (rw there new.0))
        | inr off ↦ ground (
          arith,
          new,
          written,
          keeps,
          Prepared-recover cells st v.prepared,
          rollback_marker-recover left,
        )
      ]

  slot_written-Outcome :
      (st : Store S) (f : Fetched)
      → Ready st
      → ((r : OwnedRecord)
          → record_back f st.candidate ≡ some r
          → stored st.options (cells st.context) (next_slot st) r.generation ≡ some r)
      → let (u, result) = slot_written sa st (next_slot st) f in
        Outcome (recover st.options (cells st.context)) (next_slot st) st.candidate u result
  unfolding slot_written
  slot_written-Outcome st f v at = elim (Option-cases (record_back f st.candidate)) [
    | inl e1 ↦ rw (e1, slot_written) (inr (refl, refl, inl refl))
    | inr (r, e1) ↦
        let same = record_back-eq f st.candidate r e1 in
        let there = at r e1 in
        rw (e1, slot_written)
          (subst
            (λ x.
              Outcome (recover st.options (cells st.context)) (next_slot st) x
                (switch_marker sa st (next_slot st) r).0 (switch_marker sa st (next_slot st) r).1)
            same (switch_marker-Outcome st r v (rw same v.fresh) there))
  ]

  -- A record that reads back as it was written is in its slot.
  read_encoded_record-stored :
      (o : Options) (c : S) (slot : ℕ) (sent r : OwnedRecord)
      → let (d, f) = read_encoded_record sa o c (slot_key slot) in
        record_back f sent ≡ some r → stored o (cells d) slot r.generation ≡ some r
  unfolding read_encoded_record stored
  read_encoded_record-stored o c slot sent r e =
      let n = record_header_size + o.payload_capacity + checksum_size in
      let keeps = laws.read_keeps c (slot_key slot) n in
      elim (ReadResult-cases (sa.read c (slot_key slot) n).1) [
        | inl (bytes, e1) ↦
            let tells = laws.read_tells c (slot_key slot) n bytes e1 in
            ground (arith, same_text_iff r.payload sent.payload)
        | inr (inl e1) ↦ cc
        | inr (inr e1) ↦ cc
      ]

  pub read_encoded_record_keeps :
      (o : Options) (c : S) (k : StorageKey) → cells (read_encoded_record sa o c k).0 ≡ cells c
  unfolding read_encoded_record
  read_encoded_record_keeps o c k =
      laws.read_keeps c k (record_header_size + o.payload_capacity + checksum_size)

  -- The slot that is not active may be overwritten.
  next_slot-Prepared :
      (st : Store S) (d : S) (bytes : List ℕ)
      → Prepared cells st
      → (cells d ≡ cells st.context)
        ⊎ (cells d ≡ put (cells st.context) (slot_key (next_slot st)) (some bytes))
      → Prepared cells (record st { context = d })
        × (recover st.options (cells d) ≡ recover st.options (cells st.context))
  next_slot-Prepared st d bytes v changed =
      let kept : Prepared cells (record st { context = d }) = ground (
        arith,
        stored-put_slot st.options (cells st.context) (some bytes) st.active_slot (next_slot st)
            st.active.generation,
        marker_in-put_slot st.options (cells st.context) (some bytes) (next_slot st),
        put_slot-marker (cells st.context) (some bytes) (next_slot st),
      ) in
      (
        kept,
        ground (
          arith,
          Prepared-recover cells st v,
          Prepared-recover cells (record st { context = d }) kept,
        ),
      )

  write_slot-Outcome :
      (st : Store S)
      → Ready st
      → let (u, result) = write_slot sa st in
        Outcome (recover st.options (cells st.context)) (next_slot st) st.candidate u result
  unfolding write_slot
  write_slot-Outcome st v =
      elim (Option-cases (encode_record st.options st.candidate.payload st.candidate.generation)) [
        | inl e ↦ rw (e, write_slot) (inr (refl, refl, inl refl))
        | inr (bytes, e) ↦
            let slot = next_slot st in
            let c = (sa.write st.context (slot_key slot) bytes).0 in
            let (d, f) = read_encoded_record sa st.options c (slot_key slot) in
            let u = record st { context = d } in
            let reads = read_encoded_record_keeps st.options c (slot_key slot) in
            let wrote = write_cases sa cells laws st.context (slot_key slot) bytes in
            let (kept, same) = next_slot-Prepared st c bytes v.prepared wrote in
            let (kept', same') =
              next_slot-Prepared (record st { context = c }) d bytes kept (inl reads) in
            let ready : Ready u = record { prepared = kept'; fresh = v.fresh } in
            elim (Bool-cases (sa.write st.context (slot_key slot) bytes).1) [
              | inl on ↦
                  rw (e, write_slot, on)
                    (subst
                      (λ before.
                        Outcome before slot st.candidate (slot_written sa u slot f).0
                          (slot_written sa u slot f).1)
                      (same' ∙ same)
                      (slot_written-Outcome u f ready
                        (λ r h. read_encoded_record-stored st.options c slot st.candidate r h)))
              | inr off ↦ rw (e, write_slot, off) (inr (refl, refl, inl same))
            ]
      ]

  -- The outcome of a commit of `st`: done, or failed with the old record or the new one in the
  -- storage, or nothing.
  abbrev pub Atomic : Store S → Store S → UpdateResult → Type 0
  Atomic st u result =
      let before = recover st.options (cells st.context) in
      ((result ≡ updated)
        × (recover u.options (cells u.context) ≡ some (next_slot st, st.candidate))
        × (u.active ≡ st.candidate)
        × Inv cells u)
      ⊎ ((result ≡ storage_failure)
          × (u.storage_faulted ≡ true)
          × ((recover u.options (cells u.context) ≡ before)
              ⊎ (recover u.options (cells u.context) ≡ some (next_slot st, st.candidate))))
      ⊎ ((result ≡ no_candidate) × (u ≡ st))

  commit-tail :
      (st : Store S)
      → Inv cells st
      → st.has_candidate ≡ true
      → (prepare_marker sa st).1 ≡ true
      → let (u, result) = write_slot sa (prepare_marker sa st).0 in Atomic st u result
  commit-tail st v staged prepared =
      let u = (prepare_marker sa st).0 in
      let same = prepare_marker_same sa cells laws st in
      let before : recover u.options (cells u.context) ≡ recover st.options (cells st.context) =
        ap (λ o. recover o (cells u.context)) same.0 ∙ prepare_marker-recover sa cells laws st v in
      let ready : Ready u = record {
        prepared = prepare_marker-Prepared sa cells laws st v prepared;
        fresh = ground arith;
      } in
      let slot : next_slot u ≡ next_slot st = ground arith in
      ground (arith, same, before, slot, write_slot-Outcome u ready)

  -- Wherever a commit stops, and whatever its calls of the storage answer, a boot finds the record
  -- that it would have found before the commit, or the new one whole; and the commit says that it
  -- is done only where a boot finds the new one, which is then the active one. Otherwise the store
  -- is faulted until it is cleared or created again, unless there was nothing to commit.
  pub commit-Atomic :
      (st : Store S) → Inv cells st → let (u, result) = commit sa st in Atomic st u result
  unfolding commit
  commit-Atomic st v =
      let u = (prepare_marker sa st).0 in
      let same = prepare_marker_same sa cells laws st in
      let found = prepare_marker-recover sa cells laws st v in
      let kept = ap (λ o. recover o (cells u.context)) same.0 ∙ found in
      elim (Bool-cases st.has_candidate) [
        | inr nothing ↦ inr (inr (ground arith, ground arith))
        | inl staged ↦ elim (Bool-cases (prepare_marker sa st).1) [
          | inr stuck ↦ ground (arith, kept)
          | inl prepared ↦ ground (arith, commit-tail st v staged prepared)
        ]
      ]
