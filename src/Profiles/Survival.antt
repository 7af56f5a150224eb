-- ===== src/Profiles/Survival.antt =====
-- What the calls of deck_companion_profiles.cpp leave to the next boot.
use s3_rlcd_deck.Base.{
  ℕ, ◌^◌, ◌<◌, ◌≡◌, ◌∙◌, inl, inr, sym, ap, refl, true, false, none, some, List, same_text,
  if◌then◌else◌, arith,
}
use s3_rlcd_deck.Storage.Store.{StorageAdapter, Store}
use s3_rlcd_deck.Storage.Store.Laws.{Cells, StorageLaws}
use s3_rlcd_deck.Profiles.Text.{c_text, PeerScan}
use s3_rlcd_deck.Profiles.Codec.{StoredSet}
use s3_rlcd_deck.Profiles.Encoding.{AllTyped}
use s3_rlcd_deck.Profiles.Sets.{
  Credential, PairRequest, find_profile, activated_set, revoked_set, paired_set, credential_valid,
}
use s3_rlcd_deck.Profiles.Calls.{
  PairingAdapter, paired, updated, load_set, create, commit_set, revoke, activate_on_success, pair,
}
use s3_rlcd_deck.Profiles.Secrets.{secret_for}
use s3_rlcd_deck.Profiles.Lookup.{find_profile_of_none, same_text_refl, profile_of, same_text_refl}
use s3_rlcd_deck.Profiles.Revocation.{
  active_of, first_of, is_id, active_of-revoked_set, valid_set-Distinct,
}
use s3_rlcd_deck.Profiles.Typed.{revoked_set-AllTyped, activated_set-AllTyped, paired_set-AllTyped}
use s3_rlcd_deck.Profiles.Directory.{
  latest, previous_of, renewed, paired_set-lookup, activated_set-lookup,
}
use s3_rlcd_deck.Profiles.Made.{revoked_set-lookup}
use s3_rlcd_deck.Profiles.Laws.{
  IsProfiles, found_by, set_of, load_set-valid, create-load_set, commit_set-Committed,
}
use s3_rlcd_deck.Profiles.Outcomes.{
  revoke-HasCommitted, activate_on_success-HasCommitted, pair-HasPaired,
}

secret_for-none :
    {S : Type 0} (v : Store S) (set : StoredSet) (id : List ℕ) (generation : ℕ)
    → load_set v ≡ some set
    → profile_of set.profiles id ≡ none
    → secret_for v id generation ≡ none
unfolding secret_for
secret_for-none v set id generation e gone =
    ground (arith, e, find_profile_of_none set.profiles id gone)

module _ {S : Type 0} (sa : StorageAdapter S) (cells : S → Cells)
    (laws : StorageLaws sa cells) where
  -- A set that was committed is loaded by a later boot that reads the storage without a failure.
  committed-load_set :
      (st u v : Store S) (set : StoredSet)
      → IsProfiles sa cells laws st
      → AllTyped set.profiles
      → commit_set sa st set ≡ (u, true)
      → create sa u.context ≡ some v
      → v.storage_faulted ≡ false
      → load_set v ≡ some set
  committed-load_set st u v set i typed done boot sane =
      let now = create-load_set sa cells laws u.context v boot sane in
      let same : (commit_set sa st set).0 ≡ u = ap (λ x. x.0) done in
      elim (commit_set-Committed sa cells laws st set i typed) [
        | inl (yes_done, at, kept) ↦
            now ∙ ap (λ x. set_of (found_by sa cells laws x)) (sym same) ∙ at
        | inr (not_done, left) ↦ absurd (ground (arith, not_done, done))
      ]

  -- After a revocation that says that it is done, a later boot that reads the storage without a
  -- failure no longer knows the profile, gives out its secret at no generation, and knows every other
  -- profile as before. The active profile is the same unless it was the one revoked, and then it is
  -- the first that is left.
  pub revoke_survives :
      (st v : Store S) (id j : List ℕ) (generation : ℕ)
      → IsProfiles sa cells laws st
      → (revoke sa st id).1 ≡ updated
      → create sa (revoke sa st id).0.context ≡ some v
      → v.storage_faulted ≡ false
      → (old : StoredSet) × (new : StoredSet) × (load_set st ≡ some old)
        × (load_set v ≡ some new)
        × (profile_of new.profiles j ≡ (if same_text id j then none else profile_of old.profiles j))
        × (active_of new ≡ (if is_id (active_of old) id then first_of new else active_of old))
        × (secret_for v id generation ≡ none)
  revoke_survives st v id j generation i e boot sane =
      let h = revoke-HasCommitted sa st id e in
      let (ok, typed) = load_set-valid st h.old h.loaded in
      let new = revoked_set h.old h.place in
      let fits = revoked_set-AllTyped h.old h.place typed in
      let there = committed-load_set st (revoke sa st id).0 v new i fits h.done boot sane in
      let left = λ (x : List ℕ).
        revoked_set-lookup h.old id x h.place h.found (valid_set-Distinct h.old ok) in
      let gone = left id ∙ rw (same_text_refl id) refl in
      (
        h.old,
        new,
        h.loaded,
        there,
        left j,
        active_of-revoked_set h.old id h.place ok h.found,
        secret_for-none v new id generation there gone,
      )

  -- After an activation that says that it is done, a later boot that reads the storage without a
  -- failure finds this profile active, with the later one of its last success and this one, and every
  -- other profile as before; and the set was of the expected generation.
  pub activate_on_success_survives :
      (st v : Store S) (id j : List ℕ) (generation unix_ms : ℕ)
      → unix_ms < 2 ^ 64
      → IsProfiles sa cells laws st
      → (activate_on_success sa st id generation unix_ms).1 ≡ updated
      → create sa (activate_on_success sa st id generation unix_ms).0.context ≡ some v
      → v.storage_faulted ≡ false
      → (old : StoredSet) × (new : StoredSet) × (load_set st ≡ some old)
        × (load_set v ≡ some new)
        × (active_of new ≡ some id)
        × (profile_of new.profiles j ≡ (
            if same_text id j
            then some (latest unix_ms (previous_of (profile_of old.profiles id)))
            else profile_of old.profiles j))
        × (st.active.generation ≡ generation)
  activate_on_success_survives st v id j generation unix_ms time i e boot sane =
      let u = (activate_on_success sa st id generation unix_ms).0 in
      let (h, on, now) = activate_on_success-HasCommitted sa st id generation unix_ms e in
      let (ok, typed) = load_set-valid st h.old h.loaded in
      let new = activated_set h.old h.place unix_ms in
      let fits = activated_set-AllTyped h.old h.place typed unix_ms time in
      let there = committed-load_set st u v new i fits h.done boot sane in
      let (active, at) = activated_set-lookup h.old id j h.place unix_ms h.found in
      (h.old, new, h.loaded, there, active, at, now)

  -- After a pairing that says that it is done, a later boot that reads the storage without a failure
  -- finds the profile of the credential that the code was redeemed for active, with the priority and
  -- the last success of the one that it replaces, and every other profile as before.
  pub pair_survives :
      {P : Type 0} (pa : PairingAdapter P) (scan : PeerScan) (st v : Store S) (pairing : P)
      (request : PairRequest) (j : List ℕ)
      → IsProfiles sa cells laws st
      → (pair sa pa scan st pairing request).1 ≡ paired
      → create sa (pair sa pa scan st pairing request).0.0.context ≡ some v
      → v.storage_faulted ≡ false
      → (old : StoredSet) × (new : StoredSet) × (credential : Credential) × (load_set st ≡ some old)
        × (load_set v ≡ some new)
        × ((pa.redeem pairing
              (c_text request.hub_address)
              (c_text request.pairing_address)
              (c_text request.code)).1
            ≡ some credential)
        × (credential_valid credential ≡ true)
        × (active_of new ≡ some (c_text credential.certificate_fingerprint))
        × (profile_of new.profiles j ≡ (
            if same_text (c_text credential.certificate_fingerprint) j
            then some (
                renewed
                  (previous_of
                    (profile_of old.profiles (c_text credential.certificate_fingerprint)))
                  request
                  credential)
            else profile_of old.profiles j))
  pair_survives pa scan st v pairing request j i e boot sane =
      let u = (pair sa pa scan st pairing request).0.0 in
      let h = pair-HasPaired sa pa scan st pairing request e in
      let (ok, typed) = load_set-valid st h.old h.loaded in
      let found = find_profile h.old.profiles (c_text h.credential.certificate_fingerprint) in
      let new = paired_set h.old found request h.credential in
      let fits = paired_set-AllTyped h.old found request h.credential typed in
      let there = committed-load_set st u v new i fits h.done boot sane in
      let (active, at) = paired_set-lookup h.old request h.credential j in
      (h.old, new, h.credential, h.loaded, there, h.redeemed, h.valid, active, at)
