-- ===== src/Wifi/Config.antt =====
-- The life of Wi-Fi credentials, from a submit over their validation to the store:
-- deck_wifi_config.cpp.
use s3_rlcd_deck.Base.{
  ℕ, ◌+◌, ◌-◌, ◌%◌, ◌^◌, Bool, true, false, not, ◌||◌, Option, none, some, List, [], ltb, ◌==◌,
  if◌then◌else◌,
}
use s3_rlcd_deck.Storage.Record.{Options}
use s3_rlcd_deck.Storage.Store.{StorageAdapter, Store, stage}
use s3_rlcd_deck.Storage.Store
use s3_rlcd_deck.Storage.Store.Commit.{commit, clear}
use s3_rlcd_deck.Wifi.Credentials.{
  Credentials, cleared, valid_text, valid_credentials, encode_credentials, decode_credentials,
  validate_payload, ssid_capacity, payload_header_size,
}

-- The adapter that tries credentials: each call maps its context to a new one.
pub record ValidationAdapter (V : Type 0) : Type 0 where
  pub begin : V → Credentials → V × Bool
  pub cancel : V → V

pub data State : Type 0 where
  no_active active validating auth_failed timed_out connection_failed storage_error : State

pub data RecordStatus : Type 0 where
  empty valid recovered_previous corrupt unsupported_schema migration_failed io_error : RecordStatus

pub data SubmitResult : Type 0 where
  accepted invalid_ssid invalid_password busy storage_refused wifi_error : SubmitResult

pub data ValidationResult : Type 0 where
  connected authentication_refused no_connection : ValidationResult

pub data ClearResult : Type 0 where
  all_cleared not_cleared : ClearResult

pub record Config (S V : Type 0) : Type 0 where
  pub store : Store S
  pub validation : V
  pub validation_timeout_ms : ℕ
  pub state : State
  pub record_status : RecordStatus
  pub candidate_record_status : RecordStatus
  pub active : Credentials
  pub candidate : Credentials
  pub generation : ℕ
  pub validation_started_ms : ℕ
  pub has_active : Bool
  pub has_candidate : Bool
  pub storage_faulted : Bool

pub record Snapshot : Type 0 where
  pub state : State
  pub record_status : RecordStatus
  pub candidate_record_status : RecordStatus
  pub has_active : Bool
  pub has_candidate : Bool
  pub generation : ℕ
  pub active_ssid : List ℕ
  pub candidate_ssid : List ℕ

abbrev pub map_status : Store.RecordStatus → RecordStatus
map_status Store.RecordStatus.valid = valid
map_status Store.RecordStatus.recovered_previous = recovered_previous
map_status Store.RecordStatus.corrupt = corrupt
map_status Store.RecordStatus.unsupported_schema = unsupported_schema
map_status Store.RecordStatus.migration_failed = migration_failed
map_status Store.RecordStatus.io_error = io_error
map_status Store.RecordStatus.empty = empty

-- The magics are "DWF1" and "DWM1".
abbrev pub store_options : Options
store_options = record {
  record_magic = record { byte_0 = b'D'; byte_1 = b'W'; byte_2 = b'F'; byte_3 = b'1' };
  marker_magic = record { byte_0 = b'D'; byte_1 = b'W'; byte_2 = b'M'; byte_3 = b'1' };
  schema_version = 1;
  payload_capacity = 0;
  payload_length_excluded_prefix = payload_header_size;
  validate_payload = validate_payload;
}

-- What is shown of a record: the status, that it is there, and its credentials. The store keeps only
-- payloads that decode, so what the code leaves of one that does not is not modelled.
abbrev pub shown : RecordStatus → Bool → Option Credentials → RecordStatus × Bool × Credentials
shown status false c = (status, false, cleared)
shown status true (some c) = (status, true, c)
shown status true none = (corrupt, false, cleared)

abbrev pub is_updated : Store.UpdateResult → Bool
is_updated Store.UpdateResult.updated = true
is_updated _ = false

abbrev pub is_validating : State → Bool
is_validating validating = true
is_validating _ = false

abbrev pub payload_of : Option (List ℕ) → List ℕ
payload_of none = []
payload_of (some payload) = payload

module _ {S V : Type 0} where
  unfoldable pub refresh_store_state : Config S V → Config S V
  refresh_store_state config =
      let stored = Store.Commit.snapshot config.store in
      let (status, on, mine) =
        shown (map_status stored.record_status) stored.has_active
          (decode_credentials stored.active.payload) in
      let (next_status, next, theirs) =
        shown (map_status stored.candidate_record_status) stored.has_candidate
          (decode_credentials stored.candidate.payload) in
      record config {
        record_status = status;
        candidate_record_status = next_status;
        active = mine;
        candidate = theirs;
        generation = if stored.has_active then stored.active.generation else 0;
        has_active = on;
        has_candidate = next;
        storage_faulted = stored.storage_faulted;
      }

  unfoldable pub set_storage_failure : Config S V → Config S V
  unfolding refresh_store_state
  set_storage_failure config = record (refresh_store_state config) {
    storage_faulted = true;
    state = storage_error;
  }

  -- The storage is left alone.
  abbrev pub destroy : Config S V → S
  destroy config = Store.Commit.destroy config.store

  unfoldable pub active_connection : Config S V → Bool → Config S V × Bool
  active_connection config online =
      if not config.has_active || is_validating config.state || config.storage_faulted
      then (config, false)
      else (record config { state = if online then active else connection_failed }, true)

  unfoldable pub snapshot : Config S V → Snapshot
  snapshot config = record {
    state = config.state;
    record_status = config.record_status;
    candidate_record_status = config.candidate_record_status;
    has_active = config.has_active;
    has_candidate = config.has_candidate;
    generation = config.generation;
    active_ssid = config.active.ssid;
    candidate_ssid = config.candidate.ssid;
  }

  unfoldable pub active_credentials : Config S V → Option Credentials
  active_credentials config = if config.has_active then some config.active else none

abbrev pub is_active : State → Bool
is_active active = true
is_active _ = false

abbrev pub is_valid : RecordStatus → Bool
is_valid valid = true
is_valid _ = false

abbrev pub is_empty : RecordStatus → Bool
is_empty empty = true
is_empty _ = false

unfoldable pub recovery_required : Snapshot → Bool
recovery_required s =
    not s.has_active
    || not (is_active s.state)
    || not (is_valid s.record_status)
    || s.has_candidate
    || not (is_empty s.candidate_record_status)

module _ {S V : Type 0} (sa : StorageAdapter S) (va : ValidationAdapter V) where
  unfoldable pub opened : Store S → V → ℕ → Config S V
  opened store v validation_timeout_ms =
      let blank : Config S V = record {
        store = store;
        validation = v;
        validation_timeout_ms = validation_timeout_ms;
        state = no_active;
        record_status = empty;
        candidate_record_status = empty;
        active = cleared;
        candidate = cleared;
        generation = 0;
        validation_started_ms = 0;
        has_active = false;
        has_candidate = false;
        storage_faulted = false;
      } in
      let read = refresh_store_state blank in
      record read {
        state =
            if read.storage_faulted
            then storage_error
            else if read.has_active
            then active
            else no_active;
      }

  unfoldable pub create : S → V → ℕ → Option (Config S V)
  create c v validation_timeout_ms =
      if validation_timeout_ms == 0 then none else elim (Store.create sa c store_options) [
        | none ↦ none
        | some store ↦ some (opened store v validation_timeout_ms)
      ]

  unfoldable pub commit_candidate : Config S V → Config S V × Bool
  commit_candidate config =
      let (store, result) = commit sa config.store in
      let left = record config { store = store } in
      if is_updated result
      then (record (refresh_store_state left) { state = active }, true)
      else (set_storage_failure left, false)

  -- `submit` once the payload is staged.
  unfoldable pub begin_validation : Config S V → Credentials → ℕ → Config S V × SubmitResult
  begin_validation config credentials now_ms =
      let read = refresh_store_state config in
      let (v, begun) = va.begin read.validation credentials in
      if begun
      then (
        record read { validation = v; validation_started_ms = now_ms; state = validating },
        accepted,
      )
      else (record read { validation = v; state = connection_failed }, wifi_error)

  unfoldable pub submit_valid : Config S V → Credentials → ℕ → Config S V × SubmitResult
  submit_valid config credentials now_ms =
      let (store, result) = stage sa config.store (payload_of (encode_credentials credentials)) in
      let left = record config { store = store } in
      if is_updated result
      then begin_validation left credentials now_ms
      else (set_storage_failure left, storage_refused)

  unfoldable pub submit : Config S V → Credentials → ℕ → Config S V × SubmitResult
  submit config credentials now_ms =
      let valid' = submit_valid config credentials now_ms in
      if config.storage_faulted
      then (config, storage_refused)
      else if is_validating config.state
      then (config, busy)
      else elim (valid_text credentials.ssid ssid_capacity 1 (ssid_capacity - 1)) [
        | none ↦ (config, invalid_ssid)
        | some size ↦ elim (valid_credentials credentials) [
          | none ↦ (config, invalid_password)
          | some sizes ↦ valid'
        ]
      ]

  unfoldable pub validation_result : Config S V → ValidationResult → Config S V × Bool
  validation_result config connected =
      if is_validating config.state then commit_candidate config else (config, false)
  validation_result config authentication_refused =
      if is_validating config.state
      then (record config { state = auth_failed }, true)
      else (config, false)
  validation_result config no_connection =
      if is_validating config.state
      then (record config { state = connection_failed }, true)
      else (config, false)

  unfoldable pub tick : Config S V → ℕ → Config S V × Bool
  tick config now_ms =
      let elapsed = (now_ms + 2 ^ 64 - config.validation_started_ms) % 2 ^ 64 in
      if not (is_validating config.state) || ltb elapsed config.validation_timeout_ms
      then (config, false)
      else (record config { validation = va.cancel config.validation; state = timed_out }, true)

  unfoldable pub clear_config : Config S V → Config S V × ClearResult
  clear_config config =
      let v =
        if is_validating config.state then va.cancel config.validation else config.validation in
      let (store, done) = clear sa config.store in
      let left = record config { store = store; validation = v } in
      if done
      then (
        record (refresh_store_state left) { state = no_active; validation_started_ms = 0 },
        all_cleared,
      )
      else (set_storage_failure left, not_cleared)
