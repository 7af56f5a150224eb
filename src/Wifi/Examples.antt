-- ===== src/Wifi/Examples.antt =====
-- The theorems about deck_wifi_config.cpp at concrete inputs.
use s3_rlcd_deck.Base.{ℕ, ◌+◌, ◌≡◌, inl, inr, refl, true, false, some, List, [], ◌∷◌, same_text}
use s3_rlcd_deck.Setup.Confirmation.{strnlen}
use s3_rlcd_deck.Storage.Bytes.{crc32}
use s3_rlcd_deck.Storage.Record.{encode_record, decode_record}
use s3_rlcd_deck.Storage.Marker.{encode_marker, decode_marker}
use s3_rlcd_deck.Storage.Store
use s3_rlcd_deck.Storage.Store.Invariant.{Inv}
use s3_rlcd_deck.Storage.Store.Load.{create_recovers}
use s3_rlcd_deck.Storage.Store.Memory.{Memory, cells_of, memory, memory-StorageLaws}
use s3_rlcd_deck.Storage.Store.Clear.{no_cells}
use s3_rlcd_deck.Wifi.Credentials.{
  Credentials, all_printable, valid_text, valid_password, valid_credentials, encode_credentials,
  decode_credentials, validate_payload,
}
use s3_rlcd_deck.Wifi.Config.{
  ValidationAdapter, Config, connected, authentication_refused, accepted, refresh_store_state,
  begin_validation, submit_valid, submit, commit_candidate, validation_result, opened, create,
  store_options,
}
use s3_rlcd_deck.Wifi.Safety.{Call, submits, results, ticks, run, found_by, run-create_keeps}
use s3_rlcd_deck.Wifi.Adoption.{trimmed, credentials_of, submit_adopts}

abbrev network : Credentials
network = record {
  ssid = b'h' ∷ b'o' ∷ b'm' ∷ b'e' ∷ 0 ∷ b'x' ∷ [];
  password = b's' ∷ b'e' ∷ b'c' ∷ b'r' ∷ b'e' ∷ b't' ∷ b'!' ∷ b'!' ∷ [];
}

abbrev kept_network : Credentials
kept_network = record { ssid = b'h' ∷ b'o' ∷ b'm' ∷ b'e' ∷ []; password = network.password }

network_valid : valid_credentials network ≡ some (4, 8)
unfolding valid_credentials valid_text valid_password all_printable strnlen
network_valid = refl

-- A radio that begins every attempt.
abbrev radio : ValidationAdapter ℕ
radio = record { begin = λ v c. (v + 1, true); cancel = λ v. v }

abbrev start : Memory
start = record { held = no_cells; power = 100 }

abbrev new_store : Store.Store Memory
new_store =
    Store.load_active memory (Store.load_candidate memory (Store.blank_store start store_options))

abbrev fresh : Config Memory ℕ
fresh = opened memory radio new_store 0 30_000

made : create memory radio start 0 30_000 ≡ some fresh
unfolding create Store.create
made = refl

abbrev refused : List Call
refused = submits network 10 ∷ results authentication_refused ∷ ticks 20 ∷ []

run-create_keeps_example :
    found_by memory radio cells_of memory-StorageLaws (run memory radio fresh refused)
    ≡ found_by memory radio cells_of memory-StorageLaws fresh
run-create_keeps_example =
    run-create_keeps memory radio cells_of memory-StorageLaws start 0 30_000 fresh refused made tt

store_made : Store.create memory start store_options ≡ some new_store
unfolding Store.create
store_made = refl

sane : new_store.storage_faulted ≡ false
unfolding Store.load_active Store.load_candidate Store.blank_store Store.candidate_loaded
    Store.marker_loaded Store.read_encoded_record
sane = refl

fresh-Inv : Inv cells_of fresh.store
unfolding opened refresh_store_state
fresh-Inv =
    elim ((create_recovers memory cells_of memory-StorageLaws start store_options new_store
      store_made).2) [ inl broken ↦ cc (broken, sane) | inr i ↦ i ]

taken : (submit memory radio fresh network 10).1 ≡ accepted
unfolding submit submit_valid begin_validation validation_result commit_candidate opened
    refresh_store_state encode_credentials decode_credentials valid_credentials valid_text
    valid_password all_printable validate_payload strnlen Store.stage Store.write_candidate
    Store.staged Store.load_active Store.load_candidate Store.blank_store Store.candidate_loaded
    Store.marker_loaded Store.marker_decoded Store.selected_loaded Store.read_encoded_record
    Store.Commit.commit Store.Commit.prepare_marker Store.Commit.snapshot Store.Commit.write_slot
    Store.Commit.slot_written Store.Commit.switch_marker Store.Commit.finish_commit encode_record
    decode_record encode_marker decode_marker crc32 same_text
taken = refl

joined :
    (validation_result memory radio (submit memory radio fresh network 10).0 connected).1 ≡ true
unfolding submit submit_valid begin_validation validation_result commit_candidate opened
    refresh_store_state encode_credentials decode_credentials valid_credentials valid_text
    valid_password all_printable validate_payload strnlen Store.stage Store.write_candidate
    Store.staged Store.load_active Store.load_candidate Store.blank_store Store.candidate_loaded
    Store.marker_loaded Store.marker_decoded Store.selected_loaded Store.read_encoded_record
    Store.Commit.commit Store.Commit.prepare_marker Store.Commit.snapshot Store.Commit.write_slot
    Store.Commit.slot_written Store.Commit.switch_marker Store.Commit.finish_commit encode_record
    decode_record encode_marker decode_marker crc32 same_text
joined = refl

submit_adopts_example :
    credentials_of (
      found_by memory radio cells_of memory-StorageLaws
        (validation_result memory radio (submit memory radio fresh network 10).0 connected).0)
    ≡ some (trimmed network)
submit_adopts_example =
    submit_adopts memory radio cells_of memory-StorageLaws fresh network 10 fresh-Inv taken joined
