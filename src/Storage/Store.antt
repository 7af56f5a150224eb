-- ===== src/Storage/Store.antt =====
-- The store itself: firmware/components/transaction_store/deck_transaction_store.cpp.
-- Pointers are references, and memory that cannot be allocated is not modelled.
pub mod Commit
pub mod Laws
pub mod Invariant
pub mod Safety
pub mod Load
pub mod Faults
pub mod Calls
pub mod Clear
pub mod Fixed
pub mod Memory
mod Examples
use s3_rlcd_deck.Base.{
  ℕ, ◌+◌, ◌-◌, ◌*◌, ◌%◌, ◌^◌, Bool, true, false, not, ◌&&◌, ◌||◌, Option, none, some, List, [], ◌∷◌,
  ltb, ◌==◌, ◌!=◌, if◌then◌else◌, length, same_text,
}
use s3_rlcd_deck.Storage.Record.{
  Options, OwnedRecord, DecodeResult, record_header_size, checksum_size, encode_record,
  decode_record,
}
use s3_rlcd_deck.Storage.Marker.{DecodedMarker, marker_size, encode_marker, decode_marker}

pub data StorageKey : Type 0 where
  candidate slot_0 slot_1 active_marker metadata : StorageKey

pub data ReadResult : Type 0 where
  ok : List ℕ → ReadResult
  not_found error : ReadResult

-- The storage adapter: each call maps the context to a new one, with the call's answer; a read
-- names the room that it has.
pub record StorageAdapter (S : Type 0) : Type 0 where
  pub read : S → StorageKey → ℕ → S × ReadResult
  pub write : S → StorageKey → List ℕ → S × Bool
  pub erase : S → StorageKey → S × Bool

pub data RecordStatus : Type 0 where
  empty valid recovered_previous corrupt unsupported_schema migration_failed io_error : RecordStatus

pub data UpdateResult : Type 0 where
  updated invalid_payload storage_failure no_candidate : UpdateResult

pub record Store (S : Type 0) : Type 0 where
  pub context : S
  pub options : Options
  pub record_status : RecordStatus
  pub candidate_record_status : RecordStatus
  pub active : OwnedRecord
  pub candidate : OwnedRecord
  pub active_slot : ℕ
  pub has_active : Bool
  pub has_candidate : Bool
  pub storage_faulted : Bool
  pub marker_present : Bool
  pub marker_matches_active : Bool

-- What a read of a record gives: its bytes, decoded, or that there are none.
pub data Fetched : Type 0 where
  fetched : DecodeResult OwnedRecord → Fetched
  absent failed : Fetched

abbrev pub max_payload_capacity : ℕ
max_payload_capacity = 16 * 1024

abbrev pub default_payload_capacity : ℕ
default_payload_capacity = 128

abbrev pub blank_record : OwnedRecord
blank_record = record { payload = []; generation = 0 }

abbrev pub status_for_decode {ℓ} : {A : Type ℓ} → DecodeResult A → RecordStatus
status_for_decode DecodeResult.unsupported = unsupported_schema
status_for_decode DecodeResult.migration_failed = RecordStatus.migration_failed
status_for_decode _ = RecordStatus.corrupt

abbrev pub slot_key : ℕ → StorageKey
slot_key slot = if slot == 0 then slot_0 else slot_1

-- `memcmp` on two payloads of one length, where there is one.
abbrev pub records_equal : OwnedRecord → OwnedRecord → Bool
records_equal left right =
    left.generation == right.generation
    && length left.payload != 0
    && same_text left.payload right.payload

abbrev pub fetch : Options → ReadResult → Fetched
fetch o (ok bytes) = fetched (decode_record o bytes)
fetch o not_found = absent
fetch o error = failed

-- The record that was read, if it has the generation that the marker names.
abbrev pub of_generation : Fetched → ℕ → Option OwnedRecord
of_generation (fetched (DecodeResult.valid r)) g = if r.generation == g then some r else none
of_generation _ g = none

abbrev pub is_failed : Fetched → Bool
is_failed failed = true
is_failed _ = false

-- The status where neither slot can be used.
abbrev pub lost_status : Fetched → Fetched → RecordStatus
lost_status selected previous =
    if is_failed selected || is_failed previous then io_error else elim selected [
      | fetched (DecodeResult.valid r) ↦ RecordStatus.corrupt
      | fetched d ↦ status_for_decode d
      | _ ↦ RecordStatus.corrupt
    ]

abbrev pub capacity_of : Options → ℕ
capacity_of options =
    if options.payload_capacity == 0 then default_payload_capacity else options.payload_capacity

-- A store that has read nothing yet.
unfoldable pub blank_store : {S : Type 0} → S → Options → Store S
blank_store c options = record {
  context = c;
  options = record options { payload_capacity = capacity_of options };
  record_status = empty;
  candidate_record_status = empty;
  active = blank_record;
  candidate = blank_record;
  active_slot = 0;
  has_active = false;
  has_candidate = false;
  storage_faulted = false;
  marker_present = false;
  marker_matches_active = false;
}

module _ {S : Type 0} where
  abbrev pub set_storage_failure : Store S → Store S
  set_storage_failure st = record st { storage_faulted = true }

  unfoldable pub candidate_loaded : Store S → Fetched → Store S
  candidate_loaded st absent = st
  candidate_loaded st failed = record st {
    candidate_record_status = io_error;
    storage_faulted = true;
  }
  candidate_loaded st (fetched (DecodeResult.valid r)) = record st {
    candidate = r;
    candidate_record_status = RecordStatus.valid;
    has_candidate = true;
  }
  candidate_loaded st (fetched d) = record st { candidate_record_status = status_for_decode d }

  unfoldable pub previous_loaded : Store S → DecodedMarker → Fetched → Fetched → Store S
  previous_loaded st m selected previous = elim (of_generation previous m.previous_generation) [
    | some r ↦ record st {
      active = r;
      active_slot = m.previous_slot;
      has_active = true;
      record_status = recovered_previous;
      storage_faulted = is_failed selected || st.storage_faulted;
    }
    | none ↦ record st {
      record_status = lost_status selected previous;
      storage_faulted = is_failed selected || is_failed previous || st.storage_faulted;
    }
  ]

  -- The generation of the next record; 0 is skipped.
  abbrev pub next_generation : Store S → ℕ
  next_generation st =
      let next = if st.has_active then (st.active.generation + 1) % 2 ^ 32 else 1 in
      if next == 0 then 1 else next

  -- `stage` once the written candidate is read back.
  unfoldable pub staged : Store S → List ℕ → ℕ → Fetched → Store S × UpdateResult
  staged st payload generation (fetched (DecodeResult.valid r)) =
      if r.generation == generation && same_text r.payload payload
      then (
        record st {
          candidate = r;
          has_candidate = true;
          candidate_record_status = RecordStatus.valid;
        },
        updated,
      )
      else (set_storage_failure st, storage_failure)
  staged st payload generation _ = (set_storage_failure st, storage_failure)

module _ {S : Type 0} (sa : StorageAdapter S) where
  unfoldable pub read_encoded_record : Options → S → StorageKey → S × Fetched
  read_encoded_record o c key =
      let (d, result) = sa.read c key (record_header_size + o.payload_capacity + checksum_size) in
      (d, fetch o result)

  unfoldable pub load_candidate : Store S → Store S
  load_candidate st =
      let (c, f) = read_encoded_record st.options st.context candidate in
      candidate_loaded (record st { context = c }) f

  -- The previous slot is read only where the marker names one.
  abbrev pub read_previous : Options → S → DecodedMarker → S × Fetched
  read_previous o c m =
      if m.has_previous then read_encoded_record o c (slot_key m.previous_slot) else (c, absent)

  unfoldable pub selected_loaded : Store S → DecodedMarker → Fetched → Store S
  selected_loaded st m selected = elim (of_generation selected m.active_generation) [
    | some r ↦ record st {
      active = r;
      active_slot = m.active_slot;
      has_active = true;
      record_status = RecordStatus.valid;
      marker_matches_active = true;
    }
    | none ↦
        let (c, previous) = read_previous st.options st.context m in
        previous_loaded (record st { context = c }) m selected previous
  ]

  unfoldable pub marker_decoded : Store S → DecodeResult DecodedMarker → Store S
  marker_decoded st (DecodeResult.valid m) =
      let (c, selected) = read_encoded_record st.options st.context (slot_key m.active_slot) in
      selected_loaded (record st { context = c }) m selected
  marker_decoded st d = record st { record_status = status_for_decode d }

  unfoldable pub marker_loaded : Store S → ReadResult → Store S
  marker_loaded st not_found = st
  marker_loaded st error = record st { record_status = io_error; storage_faulted = true }
  marker_loaded st (ok bytes) =
      marker_decoded (record st { marker_present = true }) (decode_marker st.options bytes)

  unfoldable pub load_active : Store S → Store S
  load_active st =
      let (c, result) = sa.read st.context active_marker marker_size in
      marker_loaded (record st { context = c }) result

  -- Every function of the adapter is there; a capacity of 0 stands for the default.
  unfoldable pub create : S → Options → Option (Store S)
  create c options =
      if options.schema_version == 0
      then none
      else if ltb max_payload_capacity (capacity_of options)
          || ltb (capacity_of options) options.payload_length_excluded_prefix
      then none
      else some (load_active (load_candidate (blank_store c options)))

  -- `stage` from the write of the candidate.
  unfoldable pub write_candidate : Store S → List ℕ → ℕ → List ℕ → Store S × UpdateResult
  write_candidate st payload generation bytes =
      let (c, written) = sa.write st.context candidate bytes in
      let (d, f) = read_encoded_record st.options c candidate in
      if not written
      then (set_storage_failure (record st { context = c }), storage_failure)
      else staged (record st { context = d }) payload generation f

  unfoldable pub stage : Store S → List ℕ → Store S × UpdateResult
  stage st payload =
      if length payload == 0
        || ltb (length payload) st.options.payload_length_excluded_prefix
        || ltb st.options.payload_capacity (length payload)
        || not (st.options.validate_payload payload)
      then (st, invalid_payload)
      else if st.storage_faulted
      then (st, storage_failure)
      else elim (encode_record st.options payload (next_generation st)) [
        | none ↦ (set_storage_failure st, storage_failure)
        | some bytes ↦ write_candidate st payload (next_generation st) bytes
      ]
