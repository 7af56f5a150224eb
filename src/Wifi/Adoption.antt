-- ===== src/Wifi/Adoption.antt =====
-- Credentials that are submitted and then connect are those that a boot finds (deck_wifi_config.cpp).
use mathlib.Core.Path.{subst}
use s3_rlcd_deck.Base.{
  ℕ, ◌≡◌, ◌∙◌, sym, ap, inl, inr, true, Option, none, some, arith, Option-cases, take,
}
use s3_rlcd_deck.Setup.Confirmation.{strnlen}
use s3_rlcd_deck.Storage.Record.{OwnedRecord}
use s3_rlcd_deck.Storage.Store.{StorageAdapter, Store, stage}
use s3_rlcd_deck.Storage.Store.Commit.{commit, next_slot}
use s3_rlcd_deck.Storage.Store.Laws.{Cells, StorageLaws, recover}
use s3_rlcd_deck.Storage.Store.Invariant.{Inv}
use s3_rlcd_deck.Storage.Store.Safety.{commit-Atomic}
use s3_rlcd_deck.Storage.Store.Calls.{stage_keeps}
use s3_rlcd_deck.Wifi.Credentials.{
  Credentials, encode_credentials, decode_credentials, valid_credentials,
}
use s3_rlcd_deck.Wifi.Encoding.{decode_credentials-encode_credentials, valid_credentials-sizes}
use s3_rlcd_deck.Wifi.Config.{
  ValidationAdapter, Config, connected, accepted, refresh_store_state, begin_validation,
  submit_valid, submit, commit_candidate, validation_result, payload_of, is_updated,
}
use s3_rlcd_deck.Wifi.Safety.{found_by}

-- The credentials up to the end of their two texts.
abbrev pub trimmed : Credentials → Credentials
trimmed c = record {
  ssid = take (strnlen c.ssid 33) c.ssid;
  password = take (strnlen c.password 64) c.password;
}

-- The credentials of what a boot finds.
abbrev pub credentials_of : Option (ℕ × OwnedRecord) → Option Credentials
credentials_of none = none
credentials_of (some (slot, r)) = decode_credentials r.payload

module _ {S V : Type 0} (sa : StorageAdapter S) (va : ValidationAdapter V) where
  begin_validation-store :
      (config : Config S V) (c : Credentials) (now_ms : ℕ)
      → (begin_validation sa va config c now_ms).0.store ≡ config.store
  unfolding begin_validation refresh_store_state
  begin_validation-store config c now_ms = ground arith

  submit_valid-accepted :
      (config : Config S V) (c : Credentials) (now_ms : ℕ)
      → (submit_valid sa va config c now_ms).1 ≡ accepted
      → let (store, result) = stage sa config.store (payload_of (encode_credentials c)) in
        (is_updated result ≡ true) × ((submit_valid sa va config c now_ms).0.store ≡ store)
  unfolding submit_valid
  submit_valid-accepted config c now_ms e =
      let store = (stage sa config.store (payload_of (encode_credentials c))).0 in
      ground (arith, begin_validation-store (record config { store = store }) c now_ms)

  submit-accepted :
      (config : Config S V) (c : Credentials) (now_ms : ℕ)
      → (submit sa va config c now_ms).1 ≡ accepted
      → ((sizes : ℕ × ℕ) × (valid_credentials c ≡ some sizes))
        × ((submit sa va config c now_ms).0 ≡ (submit_valid sa va config c now_ms).0)
        × ((submit_valid sa va config c now_ms).1 ≡ accepted)
  unfolding submit
  submit-accepted config c now_ms e = elim (Option-cases (valid_credentials c)) [
    | inl invalid ↦ ground arith
    | inr (sizes, valid) ↦ ((sizes, valid), ground arith, ground arith)
  ]

  commit_candidate-done :
      (config : Config S V)
      → (commit_candidate sa va config).1 ≡ true
      → let (store, result) = commit sa config.store in
        (is_updated result ≡ true) × ((commit_candidate sa va config).0.store ≡ store)
  unfolding commit_candidate refresh_store_state
  commit_candidate-done config e = ground arith

  validation_result-done :
      (config : Config S V)
      → (validation_result sa va config connected).1 ≡ true
      → ((validation_result sa va config connected).0 ≡ (commit_candidate sa va config).0)
        × ((commit_candidate sa va config).1 ≡ true)
  unfolding validation_result
  validation_result-done config e = ground arith

module _ {S V : Type 0} (sa : StorageAdapter S) (va : ValidationAdapter V) (cells : S → Cells)
    (laws : StorageLaws sa cells) where
  -- The store of an accepted submit holds its payload.
  submit_valid-staged :
      (config : Config S V) (c : Credentials) (now_ms : ℕ)
      → Inv cells config.store
      → (submit_valid sa va config c now_ms).1 ≡ accepted
      → let store = (submit_valid sa va config c now_ms).0.store in
        Inv cells store × (store.candidate.payload ≡ payload_of (encode_credentials c))
  submit_valid-staged config c now_ms i e =
      let payload = payload_of (encode_credentials c) in
      let (up, there) = submit_valid-accepted sa va config c now_ms e in
      elim ((stage_keeps sa cells laws config.store payload i).1) [
        | inl (done, on, pay, next, sound) ↦
            (subst (λ x. Inv cells x) (sym there) sound, ap (λ x. x.candidate.payload) there ∙ pay)
        | inr (inl (failed, broken, same, h)) ↦ absurd (ground (arith, failed, up))
        | inr (inr (refused, back)) ↦ absurd (ground (arith, refused, up))
      ]

  commit-found :
      (st : Store S)
      → Inv cells st
      → is_updated (commit sa st).1 ≡ true
      → let u = (commit sa st).0 in
        recover u.options (cells u.context) ≡ some (next_slot st, st.candidate)
  commit-found st i e = elim (commit-Atomic sa cells laws st i) [
    | inl (done, at, act, kept) ↦ at
    | inr (inl (failed, broken, left)) ↦ absurd (ground (arith, failed, e))
    | inr (inr (nothing, back)) ↦ absurd (ground (arith, nothing, e))
  ]

  -- Where a submit is accepted and the attempt to connect with it is then reported to succeed, a
  -- result that is taken leaves the submitted credentials, up to the ends of their texts, to the next
  -- boot.
  pub submit_adopts :
      (config : Config S V) (c : Credentials) (now_ms : ℕ)
      → Inv cells config.store
      → (submit sa va config c now_ms).1 ≡ accepted
      → (validation_result sa va (submit sa va config c now_ms).0 connected).1 ≡ true
      → credentials_of (
          found_by sa va cells laws
            (validation_result sa va (submit sa va config c now_ms).0 connected).0)
        ≡ some (trimmed c)
  submit_adopts config c now_ms i taken joined =
      let d = (submit sa va config c now_ms).0 in
      let (((m, n), valid), through, begun) = submit-accepted sa va config c now_ms taken in
      let (sound, staged) = submit_valid-staged config c now_ms i begun in
      let sound_d = subst (λ x. Inv cells x.store) (sym through) sound in
      let staged_d : d.store.candidate.payload ≡ payload_of (encode_credentials c) =
        ap (λ x. x.store.candidate.payload) through ∙ staged in
      let (same, done) = validation_result-done sa va d joined in
      let (up, there) = commit_candidate-done sa va d done in
      let found = commit-found d.store sound_d up in
      let (payload, encoded, decoded, ok) = decode_credentials-encode_credentials c m n valid in
      let (ssid, password) = valid_credentials-sizes c m n valid in
      let stored : d.store.candidate.payload ≡ payload =
        staged_d ∙ ap (λ o. payload_of o) encoded in
      let whole : found_by sa va cells laws (validation_result sa va d connected).0
          ≡ some (next_slot d.store, d.store.candidate) =
        ap (λ x. found_by sa va cells laws x) same
        ∙ ap (λ x. recover x.options (cells x.context)) there
        ∙ found in
      ap (λ o. credentials_of o) whole
      ∙ ap (λ p. decode_credentials p) stored
      ∙ decoded
      ∙ ap (λ k. some (record { ssid = take k c.ssid; password = take n c.password })) (sym ssid)
      ∙ ap
          (λ k.
            some (record { ssid = take (strnlen c.ssid 33) c.ssid; password = take k c.password }))
          (sym password)
