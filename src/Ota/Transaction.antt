-- ===== src/Ota/Transaction.antt =====
-- An update as it is received: firmware/components/ota_service/deck_ota_transaction.cpp.
-- Pointers are references, so the tests for a null pointer are gone.
pub mod Laws
pub mod Integrity
pub mod History
pub mod Delivery
use s3_rlcd_deck.Base.{
  ℕ, ◌+◌, ◌-◌, ◌%◌, ◌^◌, Bool, true, false, not, ◌&&◌, ◌||◌, Option, none, some, List, [], ◌∷◌, ltb,
  leb, ◌==◌, ◌!=◌, if◌then◌else◌, u32_max, length, same_text,
}
use s3_rlcd_deck.Ota.Types.{
  Manifest, State, idle, receiving, ready_to_reboot, OtaResult, ok, invalid_manifest, wrong_board,
  incompatible_protocol, downgrade_rejected, image_too_large, signature_rejected, busy,
  stale_offset, flash_failure, hash_mismatch, image_invalid, timed_out, FlashAdapter, CryptoAdapter,
  Options, Snapshot, is_idle, is_receiving, blank_manifest,
}
use s3_rlcd_deck.Ota.Version.{safe_version, safe_board, c_str, strictly_newer}
use s3_rlcd_deck.Ota.Digest.{digest_equal}

pub record Transaction (F K : Type 0) : Type 0 where
  pub options : Options
  pub flash : F
  pub crypto : K
  pub manifest : Manifest
  pub snapshot : Snapshot
  pub started_ms : ℕ
  pub last_activity_ms : ℕ
  pub flash_open : Bool
  pub hash_open : Bool

abbrev pub max_chunk_bytes : ℕ
max_chunk_bytes = 3072

-- Why a manifest is refused before its signature is looked at.
unfoldable pub refusal : Options → Manifest → Option OtaResult
refusal options manifest =
    if not (safe_version manifest.version)
      || not (safe_board manifest.board)
      || manifest.image_length == 0
      || manifest.signing_key_id == 0
      || manifest.minimum_protocol_version == 0
    then some invalid_manifest
    else if not (same_text (c_str manifest.board) (c_str options.board))
    then some wrong_board
    else if ltb options.protocol_version manifest.minimum_protocol_version
    then some incompatible_protocol
    else if not (strictly_newer manifest.version options.running_version)
    then some downgrade_rejected
    else if ltb options.partition_capacity manifest.image_length
    then some image_too_large
    else none

unfoldable pub create : {F K : Type 0} → Options → F → K → Option (Transaction F K)
create options flash crypto =
    if not (safe_version options.running_version)
      || not (safe_board options.board)
      || options.protocol_version == 0
      || options.partition_capacity == 0
      || ltb u32_max options.partition_capacity
      || options.inactivity_timeout_ms == 0
      || options.maximum_duration_ms == 0
    then none
    else some (record {
      options = options;
      flash = flash;
      crypto = crypto;
      manifest = blank_manifest;
      snapshot = record { state = idle; result = ok; received_bytes = 0; image_length = 0 };
      started_ms = 0;
      last_activity_ms = 0;
      flash_open = false;
      hash_open = false;
    })

module _ {F K : Type 0} where
  -- `image_length - received_bytes`, on uint32_t.
  abbrev pub remaining : Transaction F K → ℕ
  remaining t = (t.snapshot.image_length + 2 ^ 32 - t.snapshot.received_bytes) % 2 ^ 32

  -- The time-out test of `write` and `tick`.
  unfoldable pub is_overdue : Transaction F K → ℕ → Bool
  is_overdue t now_ms =
      ltb now_ms t.started_ms
      || leb t.options.maximum_duration_ms (now_ms - t.started_ms)
      || ltb now_ms t.last_activity_ms
      || leb t.options.inactivity_timeout_ms (now_ms - t.last_activity_ms)

  -- The chunk does not continue the image, or is not the last where it must be.
  unfoldable pub is_misplaced : Transaction F K → ℕ → ℕ → Bool → Bool
  is_misplaced t offset size final =
      offset != t.snapshot.received_bytes
      || ltb (remaining t) size
      || final && size != remaining t
      || not final && size == remaining t

  -- `deck_ota_transaction_snapshot`.
  abbrev snapshot_of : Transaction F K → Snapshot
  snapshot_of t = t.snapshot

  abbrev pub set_state : Transaction F K → State → OtaResult → Transaction F K
  set_state t state result = record t {
    snapshot = record (t.snapshot) { state = state; result = result };
  }

module _ {F K : Type 0} (fl : FlashAdapter F) (cr : CryptoAdapter K) where
  unfoldable pub close_open_resources : Transaction F K → Transaction F K
  close_open_resources t = record t {
    flash = if t.flash_open then fl.abort t.flash else t.flash;
    flash_open = false;
    crypto = if t.hash_open then cr.hash_abort t.crypto else t.crypto;
    hash_open = false;
  }

  -- The contexts that a destroyed transaction leaves behind.
  unfoldable pub destroy : Transaction F K → F × K
  unfolding close_open_resources
  destroy t = ((close_open_resources t).flash, (close_open_resources t).crypto)

  unfoldable pub fail : Transaction F K → OtaResult → Transaction F K × OtaResult
  unfolding close_open_resources
  fail t result = (set_state (close_open_resources t) State.failed result, result)

  -- `offer` once the manifest is verified: open the hash and the partition.
  unfoldable pub open_resources : Transaction F K → Manifest → ℕ → Transaction F K × OtaResult
  unfolding fail
  open_resources t manifest now_ms =
      let (k, hashing) = cr.hash_begin t.crypto in
      let (f, writable) = fl.begin t.flash manifest.image_length in
      let hashed = record t { crypto = k; hash_open = true } in
      if not hashing
      then fail (record t { crypto = k }) flash_failure
      else if not writable
      then fail (record hashed { flash = f }) flash_failure
      else (
        record hashed {
          flash = f;
          flash_open = true;
          manifest = manifest;
          snapshot = record {
            state = receiving;
            result = ok;
            received_bytes = 0;
            image_length = manifest.image_length;
          };
          last_activity_ms = now_ms;
          started_ms = now_ms;
        },
        ok,
      )

  unfoldable pub offer : Transaction F K → Manifest → ℕ → Transaction F K × OtaResult
  unfolding refusal open_resources
  offer t manifest now_ms =
      let (k, verified) = cr.verify_manifest t.crypto manifest in
      if not (is_idle t.snapshot.state) then (t, busy) else elim (refusal t.options manifest) [
        | some result ↦ fail t result
        | none ↦
            if verified
            then open_resources (record t { crypto = k }) manifest now_ms
            else fail (record t { crypto = k }) signature_rejected
      ]

  -- `write` from the check of the digest: close the partition, and select it for the next boot.
  unfoldable pub select_image : Transaction F K → Transaction F K × OtaResult
  select_image t =
      let (f, image_valid) = fl.finish t.flash in
      let (f', selected) = fl.select_boot f in
      let closed = record t { flash = f; flash_open = false } in
      if not image_valid
      then (set_state closed State.failed image_invalid, image_invalid)
      else if selected
      then (set_state (record closed { flash = f' }) ready_to_reboot ok, ok)
      else (set_state (record closed { flash = f' }) State.failed flash_failure, flash_failure)

  -- `write` after the last chunk: compare the digest with the manifest's.
  unfoldable pub finish_image : Transaction F K → Transaction F K × OtaResult
  unfolding fail select_image
  finish_image t =
      let (k, digest) = cr.hash_finish t.crypto in
      let finished = record t { crypto = k; hash_open = false } in
      elim digest [
        | none ↦ fail (record t { crypto = k }) flash_failure
        | some d ↦
            if digest_equal d t.manifest.image_sha256
            then select_image finished
            else fail finished hash_mismatch
      ]

  -- `write` from the call of `hash_update` on.
  unfoldable pub store_chunk : Transaction F K → List ℕ → Bool → ℕ → Transaction F K × OtaResult
  unfolding fail finish_image
  store_chunk t chunk final now_ms =
      let (k, hashed) = cr.hash_update t.crypto chunk in
      let (f, written) = fl.write t.flash chunk in
      let stored = record t {
        crypto = k;
        flash = f;
        snapshot = record (t.snapshot) {
          received_bytes = (t.snapshot.received_bytes + length chunk) % 2 ^ 32;
        };
        last_activity_ms = now_ms;
      } in
      if not hashed
      then fail (record t { crypto = k }) flash_failure
      else if not written
      then fail (record t { crypto = k; flash = f }) flash_failure
      else if final
      then finish_image stored
      else (stored, ok)

  unfoldable pub write : Transaction F K → ℕ → List ℕ → Bool → ℕ → Transaction F K × OtaResult
  unfolding is_overdue is_misplaced fail store_chunk
  write t offset chunk final now_ms =
      if length chunk == 0
        || ltb max_chunk_bytes (length chunk)
        || not (is_receiving t.snapshot.state)
      then (t, invalid_manifest)
      else if is_overdue t now_ms
      then fail t timed_out
      else if is_misplaced t offset (length chunk) final
      then fail t stale_offset
      else store_chunk t chunk final now_ms

  unfoldable pub tick : Transaction F K → ℕ → Transaction F K × OtaResult
  unfolding is_overdue fail
  tick t now_ms =
      if is_receiving t.snapshot.state && is_overdue t now_ms
      then fail t timed_out
      else (t, t.snapshot.result)
