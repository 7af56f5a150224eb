-- ===== src/Ota/Types.antt =====
-- The data of an update: firmware/components/ota_service/include/deck_ota_transaction.h.
-- The flash partition and the hash are reached through adapters: a call maps the adapter's context
-- to a new one, with its answer. `data` with its `size` is a list of bytes.
use s3_rlcd_deck.Base.{ℕ, Bool, true, false, Option, List, []}

pub record Manifest : Type 0 where
  pub version : List ℕ
  pub board : List ℕ
  pub image_length : ℕ
  pub image_sha256 : List ℕ
  pub signature : List ℕ
  pub signing_key_id : ℕ
  pub minimum_protocol_version : ℕ

pub data State : Type 0 where
  idle receiving ready_to_reboot failed : State

pub data OtaResult : Type 0 where
  ok invalid_manifest wrong_board incompatible_protocol downgrade_rejected : OtaResult
  image_too_large signature_rejected busy stale_offset flash_failure : OtaResult
  hash_mismatch image_invalid timed_out : OtaResult

pub record FlashAdapter (F : Type 0) : Type 0 where
  pub begin : F → ℕ → F × Bool
  pub write : F → List ℕ → F × Bool
  pub finish : F → F × Bool
  pub abort : F → F
  pub select_boot : F → F × Bool

-- `hash_finish` answers with the digest, or fails.
pub record CryptoAdapter (K : Type 0) : Type 0 where
  pub hash_begin : K → K × Bool
  pub hash_update : K → List ℕ → K × Bool
  pub hash_finish : K → K × Option (List ℕ)
  pub hash_abort : K → K
  pub verify_manifest : K → Manifest → K × Bool

pub record Options : Type 0 where
  pub running_version : List ℕ
  pub board : List ℕ
  pub protocol_version : ℕ
  pub partition_capacity : ℕ
  pub inactivity_timeout_ms : ℕ
  pub maximum_duration_ms : ℕ

pub record Snapshot : Type 0 where
  pub state : State
  pub result : OtaResult
  pub received_bytes : ℕ
  pub image_length : ℕ

abbrev pub is_idle : State → Bool
is_idle idle = true
is_idle _ = false

abbrev pub is_receiving : State → Bool
is_receiving receiving = true
is_receiving _ = false

abbrev pub blank_manifest : Manifest
blank_manifest = record {
  version = [];
  board = [];
  image_length = 0;
  image_sha256 = [];
  signature = [];
  signing_key_id = 0;
  minimum_protocol_version = 0;
}
