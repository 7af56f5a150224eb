-- ===== src/Profiles/Calls.antt =====
-- The calls of deck_companion_profiles.cpp over the transaction store. The profiles are their store
-- and the context of the pairing adapter.
use s3_rlcd_deck.Base.{
  ℕ, Bool, true, false, not, ◌&&◌, ◌||◌, Option, none, some, List, leb, ◌==◌, ◌!=◌, if◌then◌else◌,
  length,
}
use s3_rlcd_deck.Base.Int.{ℤ, pos}
use s3_rlcd_deck.Storage.Record.{Options}
use s3_rlcd_deck.Storage.Store
use s3_rlcd_deck.Storage.Store.{StorageAdapter, Store, stage}
use s3_rlcd_deck.Storage.Store.Commit.{commit}
use s3_rlcd_deck.Profiles.Text.{c_text, valid_code, valid_profile_id_argument, PeerScan}
use s3_rlcd_deck.Profiles.Codec.{StoredSet, max_profiles, encode_set, decode_set, validate_payload}
use s3_rlcd_deck.Profiles.Sets.{
  Credential, PairRequest, find_profile, empty_set, field_set, selected_set, activated_set,
  revoked_set, paired_set, credential_valid, copied, is_some, addresses_valid,
}

-- The call that redeems a pairing code maps its context to a new one; `none` where it answers false.
pub record PairingAdapter (P : Type 0) : Type 0 where
  pub redeem : P → List ℕ → List ℕ → List ℕ → P × Option Credential

pub data PairResult : Type 0 where
  paired invalid_address invalid_code redeem_failed invalid_credential capacity_reached : PairResult
  pair_storage_failure : PairResult

pub data UpdateResult : Type 0 where
  updated not_found invalid_argument stale_generation storage_failure : UpdateResult

-- The magics are "DCP2" and "DCM2".
abbrev pub store_options : Options
store_options = record {
  record_magic = record { byte_0 = b'D'; byte_1 = b'C'; byte_2 = b'P'; byte_3 = b'2' };
  marker_magic = record { byte_0 = b'D'; byte_1 = b'C'; byte_2 = b'M'; byte_3 = b'2' };
  schema_version = 2;
  payload_capacity = Store.max_payload_capacity;
  payload_length_excluded_prefix = 0;
  validate_payload = validate_payload;
}

-- The storage is left alone.
abbrev pub destroy : {S : Type 0} → Store S → S
destroy st = Store.Commit.destroy st

unfoldable pub load_set : {S : Type 0} → Store S → Option StoredSet
unfolding Store.Commit.snapshot
load_set st =
    let stored = Store.Commit.snapshot st in
    if stored.has_active then decode_set stored.active.payload else some empty_set

abbrev pub is_updated : Store.UpdateResult → Bool
is_updated Store.UpdateResult.updated = true
is_updated _ = false

abbrev pub answered {ℓ} : {S : Type ℓ} → S × Bool → S × UpdateResult
answered (st, committed) = (st, if committed then updated else storage_failure)

abbrev pub pair_answered {ℓ} : {S : Type ℓ} → S × Bool → S × PairResult
pair_answered (st, committed) = (st, if committed then paired else pair_storage_failure)

module _ {S : Type 0} (sa : StorageAdapter S) where
  unfoldable pub create : S → Option (Store S)
  create c = Store.create sa c store_options

  unfoldable pub commit_set : Store S → StoredSet → Store S × Bool
  commit_set st set = elim (encode_set set Store.max_payload_capacity) [
    | none ↦ (st, false)
    | some payload ↦
        let (u, written) = stage sa st payload in
        let (v, committed) = commit sa u in
        if is_updated written then (v, is_updated committed) else (u, false)
  ]

  unfoldable pub update_field : Store S → List ℕ → ℤ → ℕ → Bool → Store S × UpdateResult
  update_field st profile_id priority unix_ms update_priority =
      if not (valid_profile_id_argument profile_id)
      then (st, invalid_argument)
      else elim (load_set st) [
        | none ↦ (st, storage_failure)
        | some set ↦ elim (find_profile set.profiles profile_id) [
          | none ↦ (st, not_found)
          | some found ↦
              answered (commit_set st (field_set set found priority unix_ms update_priority))
        ]
      ]

  abbrev pub set_priority : Store S → List ℕ → ℤ → Store S × UpdateResult
  set_priority st profile_id priority = update_field st profile_id priority 0 true

  unfoldable pub record_success : Store S → List ℕ → ℕ → Store S × UpdateResult
  unfolding update_field
  record_success st profile_id unix_ms =
      if unix_ms == 0
      then (st, invalid_argument)
      else update_field st profile_id (pos 0) unix_ms false

  unfoldable pub select_active : Store S → List ℕ → Store S × UpdateResult
  select_active st profile_id =
      if not (valid_profile_id_argument profile_id)
      then (st, invalid_argument)
      else elim (load_set st) [
        | none ↦ (st, storage_failure)
        | some set ↦ elim (find_profile set.profiles profile_id) [
          | none ↦ (st, not_found)
          | some found ↦ answered (commit_set st (selected_set set found))
        ]
      ]

  unfoldable pub revoke : Store S → List ℕ → Store S × UpdateResult
  revoke st profile_id =
      if not (valid_profile_id_argument profile_id)
      then (st, invalid_argument)
      else elim (load_set st) [
        | none ↦ (st, storage_failure)
        | some set ↦ elim (find_profile set.profiles profile_id) [
          | none ↦ (st, not_found)
          | some found ↦ answered (commit_set st (revoked_set set found))
        ]
      ]

  unfoldable pub activate_on_success : Store S → List ℕ → ℕ → ℕ → Store S × UpdateResult
  activate_on_success st profile_id expected_generation unix_ms =
      if not (valid_profile_id_argument profile_id) || unix_ms == 0
      then (st, invalid_argument)
      else elim (load_set st) [
        | none ↦ (st, storage_failure)
        | some set ↦
            let stored = Store.Commit.snapshot st in
            if not stored.has_active || stored.active.generation != expected_generation
            then (st, stale_generation)
            else elim (find_profile set.profiles profile_id) [
              | none ↦ (st, not_found)
              | some found ↦ answered (commit_set st (activated_set set found unix_ms))
            ]
      ]

  -- The end of a pairing, with its credential.
  unfoldable pub pair_credential :
      Store S → StoredSet → PairRequest → Credential → Store S × PairResult
  pair_credential st set request credential =
      let found = find_profile set.profiles (c_text credential.certificate_fingerprint) in
      if not (credential_valid credential)
      then (st, invalid_credential)
      else if not (is_some found) && leb max_profiles (length set.profiles)
      then (st, capacity_reached)
      else if copied request credential
      then pair_answered (commit_set st (paired_set set found request credential))
      else (st, pair_storage_failure)

  module _ {P : Type 0} (pa : PairingAdapter P) (scan : PeerScan) where
    unfoldable pub pair : Store S → P → PairRequest → (Store S × P) × PairResult
    pair st pairing request =
        if not (addresses_valid scan request)
        then ((st, pairing), invalid_address)
        else if not (valid_code (c_text request.code))
        then ((st, pairing), invalid_code)
        else elim (load_set st) [
          | none ↦ ((st, pairing), pair_storage_failure)
          | some set ↦
              if (Store.Commit.snapshot st).storage_faulted
              then ((st, pairing), pair_storage_failure)
              else let hub = c_text request.hub_address in
                let peer = c_text request.pairing_address in
                let code = c_text request.code in
                let (next, redeemed) = pa.redeem pairing hub peer code in
                elim redeemed [
                  | none ↦ ((st, next), redeem_failed)
                  | some credential ↦
                      let (u, result) = pair_credential st set request credential in
                      ((u, next), result)
                ]
        ]
