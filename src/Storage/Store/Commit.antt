-- ===== src/Storage/Store/Commit.antt =====
-- `commit`, `clear` and what readers see: deck_transaction_store.cpp.
use s3_rlcd_deck.Base.{
  ℕ, ◌-◌, Bool, true, false, not, ◌&&◌, ◌||◌, Option, none, some, List, same_text, if◌then◌else◌,
}
use s3_rlcd_deck.Storage.Record.{OwnedRecord, DecodeResult, encode_record}
use s3_rlcd_deck.Storage.Marker.{DecodedMarker, marker_size, encode_marker}
use s3_rlcd_deck.Storage.Store.{
  candidate, slot_0, slot_1, active_marker, metadata, ReadResult, ok, StorageAdapter, RecordStatus,
  empty, io_error, UpdateResult, updated, storage_failure, no_candidate, Store, Fetched, fetched,
  blank_record, slot_key, records_equal, set_storage_failure, read_encoded_record,
}

pub record Snapshot : Type 0 where
  pub record_status : RecordStatus
  pub candidate_record_status : RecordStatus
  pub active : OwnedRecord
  pub candidate : OwnedRecord
  pub active_slot : ℕ
  pub has_active : Bool
  pub has_candidate : Bool
  pub storage_faulted : Bool

-- The marker that was read back is the one that was written.
abbrev pub reads_back : ReadResult → List ℕ → Bool
reads_back (ok bytes) marker = same_text bytes marker
reads_back _ marker = false

-- The record that was read back, if it is the one that was written.
abbrev pub record_back : Fetched → OwnedRecord → Option OwnedRecord
record_back (fetched (DecodeResult.valid r)) c = if records_equal r c then some r else none
record_back _ c = none

module _ {S : Type 0} where
  -- The marker of the active record alone.
  abbrev pub single_marker : Store S → DecodedMarker
  single_marker st = record {
    active_slot = st.active_slot;
    active_generation = st.active.generation;
    has_previous = false;
    previous_slot = 0;
    previous_generation = 0;
  }

  -- The marker of a new record, with the active one to fall back on.
  abbrev pub next_marker : Store S → ℕ → OwnedRecord → DecodedMarker
  next_marker st next_slot r = record {
    active_slot = next_slot;
    active_generation = r.generation;
    has_previous = st.has_active;
    previous_slot = st.active_slot;
    previous_generation = if st.has_active then st.active.generation else 0;
  }

  -- The slot that the active record does not stand in.
  abbrev pub next_slot : Store S → ℕ
  next_slot st = if st.has_active then 1 - st.active_slot else 0

  unfoldable pub snapshot : Store S → Snapshot
  snapshot st = record {
    record_status = st.record_status;
    candidate_record_status = st.candidate_record_status;
    active = st.active;
    candidate = st.candidate;
    active_slot = st.active_slot;
    has_active = st.has_active;
    has_candidate = st.has_candidate;
    storage_faulted = st.storage_faulted;
  }

  -- The storage is left alone.
  unfoldable pub destroy : Store S → S
  destroy st = st.context

module _ {S : Type 0} (sa : StorageAdapter S) where
  unfoldable pub write_and_verify_marker : S → List ℕ → S × Bool
  write_and_verify_marker c marker =
      let (d, written) = sa.write c active_marker marker in
      let (e, result) = sa.read d active_marker marker_size in
      if written then (e, reads_back result marker) else (d, false)

  unfoldable pub rollback_marker : Store S → S
  rollback_marker st =
      if st.has_active
      then (sa.write st.context active_marker (encode_marker st.options (single_marker st))).0
      else (sa.erase st.context active_marker).0

  -- The marker names the active record, or is gone, before a slot is overwritten.
  unfoldable pub prepare_marker : Store S → Store S × Bool
  unfolding write_and_verify_marker
  prepare_marker st =
      let (c, written) =
        write_and_verify_marker st.context (encode_marker st.options (single_marker st)) in
      let (d, erased) = sa.erase st.context active_marker in
      if st.has_active
      then if st.marker_matches_active then (st, true) else (
        record st {
          context = c;
          marker_present = written || st.marker_present;
          marker_matches_active = written;
        },
        written,
      )
      else if st.marker_present
      then (record st { context = d; marker_present = not erased }, erased)
      else (st, true)

  -- The new record is active; the candidate goes.
  unfoldable pub finish_commit : Store S → ℕ → OwnedRecord → Store S × UpdateResult
  finish_commit st slot r =
      let (c, erased) = sa.erase st.context candidate in
      let done = record st {
        context = c;
        active = r;
        active_slot = slot;
        has_active = true;
        record_status = RecordStatus.valid;
        marker_present = true;
        marker_matches_active = true;
      } in
      if erased
      then (
        record done {
          candidate = blank_record;
          has_candidate = false;
          candidate_record_status = empty;
        },
        updated,
      )
      else (record done { candidate_record_status = io_error }, updated)

  unfoldable pub switch_marker : Store S → ℕ → OwnedRecord → Store S × UpdateResult
  switch_marker st slot r =
      let (c, switched) =
        write_and_verify_marker st.context (encode_marker st.options (next_marker st slot r)) in
      let left = record st { context = c } in
      if switched
      then finish_commit left slot r
      else (set_storage_failure (record left { context = rollback_marker left }), storage_failure)

  unfoldable pub slot_written : Store S → ℕ → Fetched → Store S × UpdateResult
  slot_written st slot f = elim (record_back f st.candidate) [
    | none ↦ (set_storage_failure st, storage_failure)
    | some r ↦ switch_marker st slot r
  ]

  unfoldable pub write_slot : Store S → Store S × UpdateResult
  write_slot st = elim (encode_record st.options st.candidate.payload st.candidate.generation) [
    | none ↦ (set_storage_failure st, storage_failure)
    | some bytes ↦
        let (c, written) = sa.write st.context (slot_key (next_slot st)) bytes in
        let (d, f) = read_encoded_record sa st.options c (slot_key (next_slot st)) in
        if written
        then slot_written (record st { context = d }) (next_slot st) f
        else (set_storage_failure (record st { context = c }), storage_failure)
  ]

  unfoldable pub commit : Store S → Store S × UpdateResult
  commit st =
      let (u, ready) = prepare_marker st in
      if not st.has_candidate
      then (st, no_candidate)
      else if st.storage_faulted
      then (st, storage_failure)
      else if ready
      then write_slot u
      else (set_storage_failure u, storage_failure)

  -- All five keys are erased, whatever the answers.
  unfoldable pub erase_all : S → S × Bool
  erase_all c =
      let (c1, marker) = sa.erase c active_marker in
      let (c2, staged) = sa.erase c1 candidate in
      let (c3, first) = sa.erase c2 slot_0 in
      let (c4, second) = sa.erase c3 slot_1 in
      let (c5, more) = sa.erase c4 metadata in (c5, marker && staged && first && second && more)

  unfoldable pub clear : Store S → Store S × Bool
  clear st =
      let (c, erased) = erase_all st.context in
      if erased
      then (
        record st {
          context = c;
          record_status = empty;
          candidate_record_status = empty;
          active = blank_record;
          candidate = blank_record;
          active_slot = 0;
          has_active = false;
          has_candidate = false;
          storage_faulted = false;
          marker_present = false;
          marker_matches_active = false;
        },
        true,
      )
      else (set_storage_failure (record st { context = c }), false)
