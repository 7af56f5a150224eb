-- ===== src/Settings.antt =====
-- The temperature offset that the device keeps: firmware/components/device_settings/
-- deck_device_settings.cpp, over the transaction store. An int16_t is an integer, and two bytes in
-- the store; the shifted byte does not overlap the other, so `|` is written as a sum.
pub mod Laws
mod Examples
use s3_rlcd_deck.Base.{
  ℕ, ◌+◌, ◌-◌, ◌*◌, ◌/◌, ◌%◌, ◌^◌, Bool, true, false, not, ◌&&◌, Option, none, some, List, [], ◌∷◌,
  ltb, ◌==◌, if◌then◌else◌, length, get_or,
}
use s3_rlcd_deck.Base.Int.{ℤ, pos, negsuc, ltb_ℤ}
use s3_rlcd_deck.Storage.Record.{Magic, Options}
use s3_rlcd_deck.Storage.Store
use s3_rlcd_deck.Storage.Store.{StorageAdapter, Store, stage}
use s3_rlcd_deck.Storage.Store.Commit.{commit, destroy}

abbrev pub default_offset : ℤ
default_offset = negsuc 39

abbrev pub minimum_offset : ℤ
minimum_offset = negsuc 149

abbrev pub maximum_offset : ℤ
maximum_offset = pos 150

abbrev pub payload_size : ℕ
payload_size = 2

-- `static_cast<int16_t>(value)`.
abbrev pub to_signed : ℕ → ℤ
to_signed value = if ltb value (2 ^ 15) then pos value else negsuc (2 ^ 16 - 1 - value)

-- `static_cast<uint16_t>(offset)`.
abbrev pub to_unsigned : ℤ → ℕ
to_unsigned (pos n) = n % 2 ^ 16
to_unsigned (negsuc n) = 2 ^ 16 - 1 - n % 2 ^ 16

unfoldable pub decode_offset : List ℕ → ℤ
decode_offset payload = to_signed ((get_or payload 0 0 + get_or payload 1 0 * 2 ^ 8) % 2 ^ 16)

unfoldable pub encode_offset : ℤ → List ℕ
encode_offset offset =
    let value = to_unsigned offset in (value % 2 ^ 8) ∷ (value / 2 ^ 8 % 2 ^ 8) ∷ []

abbrev pub valid_offset : ℤ → Bool
valid_offset offset = not (ltb_ℤ offset minimum_offset) && not (ltb_ℤ maximum_offset offset)

unfoldable pub validate_payload : List ℕ → Bool
validate_payload payload = length payload == payload_size && valid_offset (decode_offset payload)

pub data RecordStatus : Type 0 where
  empty valid recovered_previous corrupt unsupported_schema migration_failed io_error : RecordStatus

abbrev pub map_status : Store.RecordStatus → RecordStatus
map_status Store.RecordStatus.valid = valid
map_status Store.RecordStatus.recovered_previous = recovered_previous
map_status Store.RecordStatus.corrupt = corrupt
map_status Store.RecordStatus.unsupported_schema = unsupported_schema
map_status Store.RecordStatus.migration_failed = migration_failed
map_status Store.RecordStatus.io_error = io_error
map_status Store.RecordStatus.empty = empty

pub data State : Type 0 where
  default active storage_error : State

pub data UpdateResult : Type 0 where
  updated invalid_offset storage_failure : UpdateResult

pub record Snapshot : Type 0 where
  pub state : State
  pub record_status : RecordStatus
  pub candidate_record_status : RecordStatus
  pub has_active : Bool
  pub has_candidate : Bool
  pub generation : ℕ
  pub temperature_offset_tenths_c : ℤ

-- The magics are "DST1" and "DSM1".
abbrev pub store_options : Options
store_options = record {
  record_magic = record { byte_0 = b'D'; byte_1 = b'S'; byte_2 = b'T'; byte_3 = b'1' };
  marker_magic = record { byte_0 = b'D'; byte_1 = b'S'; byte_2 = b'M'; byte_3 = b'1' };
  schema_version = 1;
  payload_capacity = 0;
  payload_length_excluded_prefix = 0;
  validate_payload = validate_payload;
}

abbrev pub is_updated : Store.UpdateResult → Bool
is_updated Store.UpdateResult.updated = true
is_updated _ = false

-- A settings object is its store.
module _ {S : Type 0} (sa : StorageAdapter S) where
  unfoldable pub create : S → Option (Store.Store S)
  create c = Store.create sa c store_options

  -- The store is staged and committed.
  unfoldable pub submit_temperature_offset : Store.Store S → ℤ → Store.Store S × UpdateResult
  submit_temperature_offset st offset =
      let (u, written) = stage sa st (encode_offset offset) in
      let (v, committed) = commit sa u in
      if not (valid_offset offset)
      then (st, invalid_offset)
      else if not (is_updated written)
      then (u, storage_failure)
      else (v, if is_updated committed then updated else storage_failure)

abbrev pub close : {S : Type 0} → Store.Store S → S
close st = Store.Commit.destroy st

unfoldable pub snapshot : {S : Type 0} → Store.Store S → Snapshot
snapshot st =
    let stored = Store.Commit.snapshot st in
    record {
      state =
          if stored.storage_faulted
          then storage_error
          else if stored.has_active
          then active
          else default;
      record_status = map_status stored.record_status;
      candidate_record_status = map_status stored.candidate_record_status;
      has_active = stored.has_active;
      has_candidate = stored.has_candidate;
      generation = if stored.has_active then stored.active.generation else 0;
      temperature_offset_tenths_c =
          if stored.has_active then decode_offset stored.active.payload else default_offset;
    }
