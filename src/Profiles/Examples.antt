-- ===== src/Profiles/Examples.antt =====
-- The theorems about deck_companion_profiles.cpp at concrete inputs.
use s3_rlcd_deck.Base.{
  ℕ, ◌≤◌, ◌≡◌, ◌⊎◌, ◌↔◌, refl, true, false, none, some, List, [], ◌∷◌, ◌++◌, length, replicate,
  same_text, if◌then◌else◌, arith,
}
use s3_rlcd_deck.Base.Int.{pos}
use s3_rlcd_deck.Storage.Bytes.{crc32}
use s3_rlcd_deck.Storage.Record.{encode_record, decode_record}
use s3_rlcd_deck.Storage.Marker.{encode_marker, decode_marker}
use s3_rlcd_deck.Storage.Store
use s3_rlcd_deck.Storage.Store.{Store}
use s3_rlcd_deck.Storage.Store.Memory.{Memory, cells_of, memory, memory-StorageLaws}
use s3_rlcd_deck.Storage.Store.Clear.{no_cells}
use s3_rlcd_deck.Profiles.Text
use s3_rlcd_deck.Profiles.Text.{PeerScan, c_text, fingerprint_prefix, address_port}
use s3_rlcd_deck.Profiles.Codec
use s3_rlcd_deck.Profiles.Codec.{StoredProfile, StoredSet, encode_set, decode_set, validate_payload}
use s3_rlcd_deck.Profiles.Sets
use s3_rlcd_deck.Profiles.Sets.{
  Credential, PairRequest, blank_profile, paired_profile, credential_valid,
}
use s3_rlcd_deck.Profiles.Calls
use s3_rlcd_deck.Profiles.Calls.{
  PairingAdapter, paired, updated, load_set, store_options, pair, revoke, activate_on_success,
}
use s3_rlcd_deck.Profiles.Secrets.{secret_for}
use s3_rlcd_deck.Profiles.RoundTrip.{decode_set-encode_set}
use s3_rlcd_deck.Profiles.Lookup.{profile_of}
use s3_rlcd_deck.Profiles.Revocation.{active_of, first_of, is_id}
use s3_rlcd_deck.Profiles.Directory.{latest, previous_of, renewed}
use s3_rlcd_deck.Profiles.Laws.{IsProfiles, create-IsProfiles}
use s3_rlcd_deck.Profiles.Survival.{revoke_survives, activate_on_success_survives, pair_survives}
use s3_rlcd_deck.Profiles.Made.{Made, pairs}
use s3_rlcd_deck.Profiles.Atomicity.{step, step_whole}
use s3_rlcd_deck.Profiles.Address.{IsAddress, address_port_iff}

abbrev fingerprint : List ℕ
fingerprint = fingerprint_prefix ++ replicate 64 b'a'

-- "hub:80" and "192.168.4.2:80"
abbrev hub : List ℕ
hub = b'h' ∷ b'u' ∷ b'b' ∷ b':' ∷ b'8' ∷ b'0' ∷ []

abbrev peer : List ℕ
peer =
    b'1' ∷ b'9' ∷ b'2' ∷ b'.' ∷ b'1' ∷ b'6' ∷ b'8' ∷ b'.' ∷ b'4' ∷ b'.' ∷ b'2' ∷ b':' ∷ b'8' ∷ b'0'
    ∷ []

abbrev credential : Credential
credential = record {
  token = replicate 43 b'A';
  certificate_fingerprint = fingerprint;
  certificate_der = 7 ∷ 8 ∷ 9 ∷ [];
  certificate_der_size = 3;
  protocol_version = 1;
}

abbrev profile : StoredProfile
profile = record {
  version = 1;
  profile_id = fingerprint;
  display_name = hub;
  hub_address = hub;
  token = replicate 43 b'A';
  certificate_fingerprint = fingerprint;
  certificate_der = 7 ∷ 8 ∷ 9 ∷ [];
  priority = pos 0;
  last_success_unix_ms = 5;
}

abbrev one_profile : StoredSet
one_profile = record { active_index = 0; profiles = profile ∷ [] }

one_profile_valid : Codec.valid_set one_profile ≡ true
unfolding Codec.valid_set Codec.valid_profiles Codec.valid_profile Codec.has_id
    Text.valid_fingerprint Text.safe_ascii Text.valid_address Text.valid_base64url Text.every
    Text.is_visible Text.is_hex Text.is_base64url Text.address_parts Text.strchr Text.strrchr
    Text.valid_host_character Text.read_port Text.is_digit same_text
one_profile_valid = refl

decode_set-encode_set_example :
    (payload : List ℕ) × (encode_set one_profile 7097 ≡ some payload)
    × (length payload ≤ 7097)
    × (decode_set payload ≡ some one_profile)
    × (validate_payload payload ≡ true)
decode_set-encode_set_example =
    decode_set-encode_set one_profile 7097 one_profile_valid
      (record { priority = omega arith; success = omega arith }, tt) (omega arith)

address_port_iff_example : (address_port hub ≡ some 80) ↔ IsAddress hub 80
address_port_iff_example = address_port_iff hub 80

abbrev code : List ℕ
code = b'1' ∷ b'2' ∷ b'3' ∷ b'4' ∷ b'5' ∷ b'6' ∷ []

abbrev request : PairRequest
request = record { hub_address = hub; pairing_address = peer; code = code }

abbrev redeemer : PairingAdapter (Unit {0})
redeemer = record { redeem = λ c h p k. (tt, some credential) }

abbrev scan : PeerScan
scan address = some (2, length address)

abbrev opened : Memory → Store Memory
opened m =
    Store.load_active memory (Store.load_candidate memory (Store.blank_store m store_options))

abbrev fresh : Store Memory
fresh = opened (record { held = no_cells; power = 100 })

made : Calls.create memory (record { held = no_cells; power = 100 }) ≡ some fresh
unfolding Calls.create Store.create
made = refl

fresh-IsProfiles : IsProfiles memory cells_of memory-StorageLaws fresh
unfolding Store.load_active Store.load_candidate Store.blank_store Store.candidate_loaded
    Store.marker_loaded Store.read_encoded_record
fresh-IsProfiles =
    create-IsProfiles memory cells_of memory-StorageLaws (record { held = no_cells; power = 100 })
      fresh made refl

abbrev after_pair : Store Memory
after_pair = (pair memory redeemer scan fresh tt request).0.0

abbrev booted : Store Memory
booted = opened after_pair.context

abbrev after_revoke : Store Memory
after_revoke = (revoke memory booted fingerprint).0

abbrev after_activate : Store Memory
after_activate = (activate_on_success memory booted fingerprint 1 9).0

-- A pairing, a boot, and a revocation or an activation.
runs :
    ((pair memory redeemer scan fresh tt request).1 ≡ paired)
    × (booted.storage_faulted ≡ false)
    × ((revoke memory booted fingerprint).1 ≡ updated)
    × ((opened after_revoke.context).storage_faulted ≡ false)
    × ((activate_on_success memory booted fingerprint 1 9).1 ≡ updated)
    × ((opened after_activate.context).storage_faulted ≡ false)
unfolding Text.valid_profile_id_argument pair revoke activate_on_success Sets.revoked_set
    Sets.remove_at Sets.activated_set Calls.pair_credential Calls.commit_set load_set
    Sets.addresses_valid Sets.credential_valid Sets.copied Sets.paired_set Sets.paired_profile
    Sets.find_profile c_text address_port Text.port_value Text.valid_pairing_address Text.valid_code
    Codec.encode_set Codec.encode_profiles Codec.encode_profile Codec.profile_head Codec.to_unsigned
    Codec.append_string Codec.append_bytes Codec.decode_set Codec.decode_profiles
    Codec.decode_profile Codec.read_string Codec.read_bytes Codec.to_signed Codec.validate_payload
    Codec.valid_set Codec.valid_profiles Codec.valid_profile Codec.has_id Text.valid_fingerprint
    Text.safe_ascii Text.valid_address Text.valid_base64url Text.every Text.is_visible Text.is_hex
    Text.is_base64url Text.address_parts Text.strchr Text.strrchr Text.valid_host_character
    Text.read_port Text.is_digit same_text Store.stage Store.write_candidate Store.staged
    Store.load_active Store.load_candidate Store.blank_store Store.candidate_loaded
    Store.marker_loaded Store.marker_decoded Store.selected_loaded Store.read_encoded_record
    Store.Commit.snapshot Store.Commit.commit Store.Commit.prepare_marker Store.Commit.write_slot
    Store.Commit.slot_written Store.Commit.switch_marker Store.Commit.finish_commit encode_record
    decode_record encode_marker decode_marker crc32
runs = (refl, refl, refl, refl, refl, refl)

boots : (m : Memory) → Calls.create memory m ≡ some (opened m)
unfolding Calls.create Store.create
boots m = refl

booted-IsProfiles : IsProfiles memory cells_of memory-StorageLaws booted
booted-IsProfiles =
    create-IsProfiles memory cells_of memory-StorageLaws after_pair.context booted
      (boots after_pair.context) runs.1

revoke_survives_example :
    (old : StoredSet) × (new : StoredSet) × (load_set booted ≡ some old)
    × (load_set (opened after_revoke.context) ≡ some new)
    × (profile_of new.profiles fingerprint
        ≡ (if same_text fingerprint fingerprint then none else profile_of old.profiles fingerprint))
    × (active_of new ≡ (if is_id (active_of old) fingerprint then first_of new else active_of old))
    × (secret_for (opened after_revoke.context) fingerprint 2 ≡ none)
revoke_survives_example =
    revoke_survives memory cells_of memory-StorageLaws booted (opened after_revoke.context)
      fingerprint fingerprint 2 booted-IsProfiles runs.2 (boots after_revoke.context) runs.3

activate_on_success_survives_example :
    (old : StoredSet) × (new : StoredSet) × (load_set booted ≡ some old)
    × (load_set (opened after_activate.context) ≡ some new)
    × (active_of new ≡ some fingerprint)
    × (profile_of new.profiles fingerprint ≡ (
        if same_text fingerprint fingerprint
        then some (latest 9 (previous_of (profile_of old.profiles fingerprint)))
        else profile_of old.profiles fingerprint))
    × (booted.active.generation ≡ 1)
activate_on_success_survives_example =
    activate_on_success_survives memory cells_of memory-StorageLaws booted
      (opened after_activate.context) fingerprint fingerprint 1 9 (omega arith) booted-IsProfiles
      runs.4 (boots after_activate.context) runs.5

pair_survives_example :
    (old : StoredSet) × (new : StoredSet) × (known : Credential) × (load_set fresh ≡ some old)
    × (load_set booted ≡ some new)
    × ((redeemer.redeem tt (c_text hub) (c_text peer) (c_text code)).1 ≡ some known)
    × (credential_valid known ≡ true)
    × (active_of new ≡ some (c_text known.certificate_fingerprint))
    × (profile_of new.profiles fingerprint ≡ (
        if same_text (c_text known.certificate_fingerprint) fingerprint
        then some (
            renewed
              (previous_of (profile_of old.profiles (c_text known.certificate_fingerprint)))
              request
              known)
        else profile_of old.profiles fingerprint))
pair_survives_example =
    pair_survives memory cells_of memory-StorageLaws redeemer scan fresh booted tt request
      fingerprint fresh-IsProfiles runs.0 (boots after_pair.context) runs.1

step_whole_example :
    let after = opened (step memory redeemer scan (fresh, tt) (pairs request)).0.context in
    (load_set after ≡ load_set fresh)
    ⊎ ((old : StoredSet) × (new : StoredSet) × (load_set fresh ≡ some old)
        × (load_set after ≡ some new)
        × Made redeemer tt (pairs request) fingerprint old new)
unfolding step
step_whole_example =
    step_whole memory cells_of memory-StorageLaws redeemer scan fresh booted tt (pairs request)
      fingerprint tt fresh-IsProfiles (boots after_pair.context) runs.1
