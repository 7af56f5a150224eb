-- ===== src/Storage/Store/Examples.antt =====
-- The theorems about deck_transaction_store.cpp at concrete inputs: a storage in memory that loses
-- power after a number of calls.
use s3_rlcd_deck.Base.{ℕ, ◌≡◌, ◌⊎◌, inl, inr, refl, true, false, none, some, List, [], ◌∷◌, arith}
use s3_rlcd_deck.Base.{same_text}
use s3_rlcd_deck.Storage.Bytes.{crc32}
use s3_rlcd_deck.Storage.Record.{Options, valid, encode_record, decode_record}
use s3_rlcd_deck.Storage.Marker.{
  DecodedMarker, encode_marker, decode_marker, decode_marker-encode_marker,
}
use s3_rlcd_deck.Storage.Store
use s3_rlcd_deck.Storage.Store.{
  StorageKey, candidate, slot_0, slot_1, active_marker, metadata, ReadResult, ok, not_found, error,
  StorageAdapter, Store, UpdateResult, updated, invalid_payload, storage_failure, no_candidate,
  create, stage,
}
use s3_rlcd_deck.Storage.Store.Commit.{commit, clear}
use s3_rlcd_deck.Storage.Store.Laws.{recover}
use s3_rlcd_deck.Storage.Store.Invariant.{Inv}
use s3_rlcd_deck.Storage.Store.Safety.{Atomic, commit-Atomic}
use s3_rlcd_deck.Storage.Store.Faults.{FailedRead}
use s3_rlcd_deck.Storage.Store.Load.{Sound, create_recovers}
use s3_rlcd_deck.Storage.Store.Calls.{stage_keeps, stages, commits, Call, New, run, run_recovers}
use s3_rlcd_deck.Storage.Store.Memory.{Memory, cells_of, memory, memory-StorageLaws}
use s3_rlcd_deck.Storage.Store.Clear.{no_cells, clear_forgets}

abbrev options : Options
options = record {
  record_magic = record { byte_0 = 82; byte_1 = 69; byte_2 = 67; byte_3 = 49 };
  marker_magic = record { byte_0 = 77; byte_1 = 65; byte_2 = 82; byte_3 = 49 };
  schema_version = 1;
  payload_capacity = 0;
  payload_length_excluded_prefix = 0;
  validate_payload = λ payload. true;
}

abbrev used_options : Options
used_options = record options { payload_capacity = 128 }

abbrev payload : List ℕ
payload = 7 ∷ 8 ∷ 9 ∷ []

abbrev two_slots : DecodedMarker
two_slots = record {
  active_slot = 1;
  active_generation = 6;
  has_previous = true;
  previous_slot = 0;
  previous_generation = 5;
}

decode_marker-encode_marker_example :
    decode_marker used_options (encode_marker used_options two_slots) ≡ valid two_slots
decode_marker-encode_marker_example =
    decode_marker-encode_marker used_options two_slots (ground arith)

-- Power for two reads at the start, two calls to stage, and a part of the commit.
abbrev empty_memory : Memory
empty_memory = record { held = no_cells; power = 7 }

abbrev fresh : Store Memory
fresh =
    Store.load_active memory (Store.load_candidate memory (Store.blank_store empty_memory options))

made : create memory empty_memory options ≡ some fresh
unfolding create
made = refl

create_recovers_example :
    (cells_of fresh.context ≡ no_cells)
    × (((fresh.storage_faulted ≡ true) × FailedRead memory empty_memory)
        ⊎ ((fresh.has_active ≡ true)
            × (recover fresh.options no_cells ≡ some (fresh.active_slot, fresh.active)))
        ⊎ ((fresh.has_active ≡ false) × (recover fresh.options no_cells ≡ none)))
    × Sound memory cells_of memory-StorageLaws fresh
create_recovers_example =
    create_recovers memory cells_of memory-StorageLaws empty_memory options fresh made

sane : fresh.storage_faulted ≡ false
unfolding Store.load_active Store.load_candidate Store.blank_store Store.candidate_loaded
    Store.marker_loaded Store.read_encoded_record
sane = refl

fresh-Inv : Inv cells_of fresh
fresh-Inv =
    elim ((create_recovers memory cells_of memory-StorageLaws empty_memory options fresh made).2) [
      | inl broken ↦ cc (broken, sane)
      | inr i ↦ i
    ]

abbrev ready : Store Memory
ready = (stage memory fresh payload).0

ready_result : (stage memory fresh payload).1 ≡ updated
unfolding stage Store.load_active Store.load_candidate Store.blank_store Store.candidate_loaded
    Store.marker_loaded Store.read_encoded_record Store.write_candidate Store.staged encode_record
    decode_record crc32 same_text
ready_result = refl

ready-Inv : Inv cells_of ready
ready-Inv = elim ((stage_keeps memory cells_of memory-StorageLaws fresh payload fresh-Inv).1) [
  | inl done ↦ done.4
  | inr (inl failed) ↦ cc (failed.0, ready_result)
  | inr (inr refused) ↦ cc (refused.0, ready_result)
]

commit-Atomic_example :
    let (u, result) = commit memory ready in
    Atomic memory cells_of memory-StorageLaws ready u result
commit-Atomic_example = commit-Atomic memory cells_of memory-StorageLaws ready ready-Inv

abbrev calls : List Call
calls = stages payload ∷ commits ∷ stages (1 ∷ []) ∷ commits ∷ []

run_recovers_example :
    let found =
      recover (run memory fresh calls).options (cells_of (run memory fresh calls).context) in
    (found ≡ recover fresh.options (cells_of fresh.context))
    ⊎ New memory cells_of memory-StorageLaws fresh calls found
run_recovers_example = run_recovers memory cells_of memory-StorageLaws fresh calls fresh-Inv

clear_forgets_example :
    let (u, done) = clear memory ready in
    ((done ≡ true)
      × (cells_of u.context ≡ no_cells)
      × (u.storage_faulted ≡ false)
      × (u.has_active ≡ false)
      × (u.has_candidate ≡ false)
      × Inv cells_of u)
    ⊎ ((done ≡ false) × (u.storage_faulted ≡ true))
clear_forgets_example = clear_forgets memory cells_of memory-StorageLaws ready
