-- ===== src/Settings/Examples.antt =====
-- The theorems about deck_device_settings.cpp at concrete inputs.
use s3_rlcd_deck.Base.{◌≡◌, refl, false, some, same_text}
use s3_rlcd_deck.Base.Int.{pos}
use s3_rlcd_deck.Storage.Bytes.{crc32}
use s3_rlcd_deck.Storage.Record.{encode_record, decode_record}
use s3_rlcd_deck.Storage.Marker.{encode_marker, decode_marker}
use s3_rlcd_deck.Storage.Store
use s3_rlcd_deck.Storage.Store.{Store}
use s3_rlcd_deck.Storage.Store.Memory.{Memory, cells_of, memory, memory-StorageLaws}
use s3_rlcd_deck.Storage.Store.Clear.{no_cells}
use s3_rlcd_deck.Settings
use s3_rlcd_deck.Settings.{
  validate_payload, decode_offset, encode_offset, submit_temperature_offset, snapshot, updated,
  store_options,
}
use s3_rlcd_deck.Settings.Laws.{IsSettings, create-IsSettings, submit_temperature_offset_survives}

abbrev start : Memory
start = record { held = no_cells; power = 100 }

abbrev opened : Memory → Store Memory
opened m =
    Store.load_active memory (Store.load_candidate memory (Store.blank_store m store_options))

abbrev fresh : Store Memory
fresh = opened start

made : Settings.create memory start ≡ some fresh
unfolding Settings.create Store.create
made = refl

fresh-IsSettings : IsSettings memory cells_of memory-StorageLaws fresh
unfolding Store.load_active Store.load_candidate Store.blank_store Store.candidate_loaded
    Store.marker_loaded Store.read_encoded_record
fresh-IsSettings = create-IsSettings memory cells_of memory-StorageLaws start fresh made refl

abbrev submitted : Store Memory
submitted = (submit_temperature_offset memory fresh (pos 25)).0

done : (submit_temperature_offset memory fresh (pos 25)).1 ≡ updated
unfolding submit_temperature_offset encode_offset decode_offset validate_payload Store.stage
    Store.write_candidate Store.staged Store.load_active Store.load_candidate Store.blank_store
    Store.candidate_loaded Store.marker_loaded Store.marker_decoded Store.selected_loaded
    Store.read_encoded_record Store.Commit.commit Store.Commit.prepare_marker
    Store.Commit.write_slot Store.Commit.slot_written Store.Commit.switch_marker
    Store.Commit.finish_commit encode_record decode_record encode_marker decode_marker crc32
    same_text
done = refl

abbrev reopened : Store Memory
reopened = opened submitted.context

remade : Settings.create memory submitted.context ≡ some reopened
unfolding Settings.create Store.create
remade = refl

sane : reopened.storage_faulted ≡ false
unfolding submit_temperature_offset encode_offset decode_offset validate_payload Store.stage
    Store.write_candidate Store.staged Store.load_active Store.load_candidate Store.blank_store
    Store.candidate_loaded Store.marker_loaded Store.marker_decoded Store.selected_loaded
    Store.read_encoded_record Store.Commit.commit Store.Commit.prepare_marker
    Store.Commit.write_slot Store.Commit.slot_written Store.Commit.switch_marker
    Store.Commit.finish_commit encode_record decode_record encode_marker decode_marker crc32
    same_text
sane = refl

submit_temperature_offset_survives_example :
    ((snapshot submitted).temperature_offset_tenths_c ≡ pos 25)
    × ((snapshot reopened).temperature_offset_tenths_c ≡ pos 25)
submit_temperature_offset_survives_example =
    submit_temperature_offset_survives memory cells_of memory-StorageLaws fresh reopened (pos 25)
      fresh-IsSettings done remade sane
