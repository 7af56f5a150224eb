-- ===== src/Profiles/Outcomes.antt =====
-- Which set a call of deck_companion_profiles.cpp commits, where it answers that it did.
use s3_rlcd_deck.Base.{
  ℕ, ◌≡◌, ◌⊎◌, ◌∙◌, inl, inr, Bool, true, none, some, List, arith, Option-cases,
}
use s3_rlcd_deck.Base.Int.{ℤ}
use s3_rlcd_deck.Storage.Store
use s3_rlcd_deck.Storage.Store.{StorageAdapter, Store}
use s3_rlcd_deck.Profiles.Text.{c_text, PeerScan}
use s3_rlcd_deck.Profiles.Codec.{StoredSet}
use s3_rlcd_deck.Profiles.Sets.{
  Credential, PairRequest, find_profile, field_set, selected_set, activated_set, revoked_set,
  paired_set, credential_valid,
}
use s3_rlcd_deck.Profiles.Calls.{
  PairingAdapter, paired, UpdateResult, updated, not_found, storage_failure, answered, load_set,
  commit_set, update_field, select_active, revoke, activate_on_success, pair_credential, pair,
}

-- A call has loaded a set, found the profile, and committed the set that it makes of them.
pub record HasCommitted {S : Type 0} (sa : StorageAdapter S) (st v : Store S) (id : List ℕ)
    (edit : StoredSet → ℕ → StoredSet) : Type 0 where
  pub old : StoredSet
  pub place : ℕ
  pub loaded : load_set st ≡ some old
  pub found : find_profile old.profiles id ≡ some place
  pub done : commit_set sa st (edit old place) ≡ (v, true)

module _ {S : Type 0} (sa : StorageAdapter S) (st : Store S) where
  -- What the calls share behind their guards.
  abbrev edited : List ℕ → (StoredSet → ℕ → StoredSet) → Store S × UpdateResult
  edited id edit = elim (load_set st) [
    | none ↦ (st, storage_failure)
    | some set ↦ elim (find_profile set.profiles id) [
      | none ↦ (st, not_found)
      | some found ↦ answered (commit_set sa st (edit set found))
    ]
  ]

  edited-HasCommitted :
      (id : List ℕ) (edit : StoredSet → ℕ → StoredSet) (u : Store S × UpdateResult)
      → u ≡ edited id edit
      → u.1 ≡ updated
      → HasCommitted sa st u.0 id edit
  edited-HasCommitted id edit u is e = elim (Option-cases (load_set st)) [
    | inl e1 ↦ absurd (ground arith)
    | inr (set, e1) ↦ elim (Option-cases (find_profile set.profiles id)) [
      | inl e2 ↦ absurd (ground arith)
      | inr (k, e2) ↦ record { old = set; place = k; loaded = e1; found = e2; done = ground arith }
    ]
  ]

  -- Whatever it answers, such a call leaves the state as it is, or as its commit leaves it.
  abbrev pub Tried : List ℕ → (StoredSet → ℕ → StoredSet) → Store S → Type 0
  Tried id edit v =
      (v ≡ st)
      ⊎ ((set : StoredSet) × (k : ℕ) × (load_set st ≡ some set)
          × (find_profile set.profiles id ≡ some k)
          × (v ≡ (commit_set sa st (edit set k)).0))

  guarded-Tried :
      (id : List ℕ) (edit : StoredSet → ℕ → StoredSet) (u : Store S × UpdateResult)
      → (u.0 ≡ st) ⊎ (u ≡ edited id edit)
      → Tried id edit u.0
  guarded-Tried id edit u (inl same) = inl same
  guarded-Tried id edit u (inr is) = elim (Option-cases (load_set st)) [
    | inl e1 ↦ inl (ground arith)
    | inr (set, e1) ↦ elim (Option-cases (find_profile set.profiles id)) [
      | inl e2 ↦ inl (ground arith)
      | inr (k, e2) ↦ inr (set, k, e1, e2, ground arith)
    ]
  ]

  pub select_active-Tried : (id : List ℕ) → Tried id selected_set (select_active sa st id).0
  unfolding select_active
  select_active-Tried id = guarded-Tried id selected_set (select_active sa st id) (ground arith)

  pub revoke-Tried : (id : List ℕ) → Tried id revoked_set (revoke sa st id).0
  unfolding revoke
  revoke-Tried id = guarded-Tried id revoked_set (revoke sa st id) (ground arith)

  pub update_field-Tried :
      (id : List ℕ) (priority : ℤ) (unix_ms : ℕ) (which : Bool)
      → Tried id
          (λ set k. field_set set k priority unix_ms which)
          (update_field sa st id priority unix_ms which).0
  unfolding update_field
  update_field-Tried id priority unix_ms which =
      guarded-Tried id (λ set k. field_set set k priority unix_ms which)
        (update_field sa st id priority unix_ms which) (ground arith)

  pub activate_on_success-Tried :
      (id : List ℕ) (generation unix_ms : ℕ)
      → Tried id
          (λ set k. activated_set set k unix_ms)
          (activate_on_success sa st id generation unix_ms).0
  unfolding activate_on_success Store.Commit.snapshot
  activate_on_success-Tried id generation unix_ms =
      guarded-Tried id (λ set k. activated_set set k unix_ms)
        (activate_on_success sa st id generation unix_ms) (ground arith)

  pub select_active-HasCommitted :
      (id : List ℕ)
      → (select_active sa st id).1 ≡ updated
      → HasCommitted sa st (select_active sa st id).0 id selected_set
  unfolding select_active
  select_active-HasCommitted id e =
      edited-HasCommitted id selected_set (select_active sa st id) (ground arith) e

  pub revoke-HasCommitted :
      (id : List ℕ)
      → (revoke sa st id).1 ≡ updated
      → HasCommitted sa st (revoke sa st id).0 id revoked_set
  unfolding revoke
  revoke-HasCommitted id e = edited-HasCommitted id revoked_set (revoke sa st id) (ground arith) e

  pub update_field-HasCommitted :
      (id : List ℕ) (priority : ℤ) (unix_ms : ℕ) (which : Bool)
      → (update_field sa st id priority unix_ms which).1 ≡ updated
      → HasCommitted sa st
          (update_field sa st id priority unix_ms which).0
          id
          (λ set k. field_set set k priority unix_ms which)
  unfolding update_field
  update_field-HasCommitted id priority unix_ms which e =
      edited-HasCommitted id (λ set k. field_set set k priority unix_ms which)
        (update_field sa st id priority unix_ms which) (ground arith) e

  pub activate_on_success-HasCommitted :
      (id : List ℕ) (generation unix_ms : ℕ)
      → (activate_on_success sa st id generation unix_ms).1 ≡ updated
      → HasCommitted sa st
          (activate_on_success sa st id generation unix_ms).0
          id
          (λ set k. activated_set set k unix_ms)
        × (st.has_active ≡ true)
        × (st.active.generation ≡ generation)
  unfolding activate_on_success Store.Commit.snapshot
  activate_on_success-HasCommitted id generation unix_ms e = elim (Option-cases (load_set st)) [
    | inl e1 ↦ absurd (ground arith)
    | inr (set, e1) ↦
        let now : (st.has_active ≡ true) × (st.active.generation ≡ generation) = ground arith in
        (
          edited-HasCommitted id (λ old k. activated_set old k unix_ms)
              (activate_on_success sa st id generation unix_ms) (ground arith) e,
          now.0,
          now.1,
        )
  ]

-- A pairing has redeemed the code for a valid credential, and committed its profile.
pub record HasPaired {S P : Type 0} (sa : StorageAdapter S) (pa : PairingAdapter P) (st v : Store S)
    (pairing : P) (request : PairRequest) : Type 0 where
  pub old : StoredSet
  pub credential : Credential
  pub loaded : load_set st ≡ some old
  pub redeemed :
      (pa.redeem pairing
        (c_text request.hub_address)
        (c_text request.pairing_address)
        (c_text request.code)).1
      ≡ some credential
  pub valid : credential_valid credential ≡ true
  pub done :
      commit_set sa st (
        paired_set old
          (find_profile old.profiles (c_text credential.certificate_fingerprint))
          request
          credential)
      ≡ (v, true)

module _ {S P : Type 0} (sa : StorageAdapter S) (pa : PairingAdapter P) (scan : PeerScan) where
  pair_credential-paired :
      (st : Store S) (set : StoredSet) (request : PairRequest) (credential : Credential)
      → (pair_credential sa st set request credential).1 ≡ paired
      → (credential_valid credential ≡ true)
        × (commit_set sa st (
              paired_set set
                (find_profile set.profiles (c_text credential.certificate_fingerprint))
                request
                credential)
            ≡ ((pair_credential sa st set request credential).0, true))
  unfolding pair_credential
  pair_credential-paired st set request credential e = ground arith

  pub pair-HasPaired :
      (st : Store S) (pairing : P) (request : PairRequest)
      → (pair sa pa scan st pairing request).1 ≡ paired
      → HasPaired sa pa st (pair sa pa scan st pairing request).0.0 pairing request
  unfolding pair
  pair-HasPaired st pairing request e =
      let hub = c_text request.hub_address in
      let peer = c_text request.pairing_address in
      let redeemed = (pa.redeem pairing hub peer (c_text request.code)).1 in
      elim (Option-cases (load_set st)) [
        | inl e1 ↦ absurd (ground arith)
        | inr (set, e1) ↦ elim (Option-cases redeemed) [
          | inl e2 ↦ absurd (ground arith)
          | inr (credential, e2) ↦
              let (ok, done) = pair_credential-paired st set request credential (ground arith) in
              record {
                old = set;
                credential = credential;
                loaded = e1;
                redeemed = e2;
                valid = ok;
                done = done ∙ ground arith;
              }
        ]
      ]

  pair_credential-Tried :
      (st : Store S) (set : StoredSet) (request : PairRequest) (credential : Credential)
      → let u = (pair_credential sa st set request credential).0 in
        (u ≡ st)
        ⊎ ((credential_valid credential ≡ true)
            × (u
                ≡ (commit_set sa st (
                    paired_set set
                      (find_profile set.profiles (c_text credential.certificate_fingerprint))
                      request
                      credential)).0))
  unfolding pair_credential
  pair_credential-Tried st set request credential = ground arith

  pub pair-Tried :
      (st : Store S) (pairing : P) (request : PairRequest)
      → let u = (pair sa pa scan st pairing request).0.0 in
        (u ≡ st)
        ⊎ ((set : StoredSet) × (credential : Credential) × (load_set st ≡ some set)
            × ((pa.redeem pairing
                  (c_text request.hub_address)
                  (c_text request.pairing_address)
                  (c_text request.code)).1
                ≡ some credential)
            × (credential_valid credential ≡ true)
            × (u
                ≡ (commit_set sa st (
                    paired_set set
                      (find_profile set.profiles (c_text credential.certificate_fingerprint))
                      request
                      credential)).0))
  unfolding pair
  pair-Tried st pairing request =
      let hub = c_text request.hub_address in
      let peer = c_text request.pairing_address in
      let redeemed = (pa.redeem pairing hub peer (c_text request.code)).1 in
      elim (Option-cases (load_set st)) [
        | inl e1 ↦ inl (ground arith)
        | inr (set, e1) ↦ elim (Option-cases redeemed) [
          | inl e2 ↦ inl (ground arith)
          | inr (credential, e2) ↦
              let found = find_profile set.profiles (c_text credential.certificate_fingerprint) in
              let tried = pair_credential-Tried st set request credential in
              let u = (pair sa pa scan st pairing request).0.0 in
              let outcome : (u ≡ st)
                  ⊎ ((credential_valid credential ≡ true)
                      × (u ≡ (commit_set sa st (paired_set set found request credential)).0)) =
                ground (arith, tried) in
              elim outcome [
                | inl same ↦ inl same
                | inr (ok, to) ↦ inr (set, credential, e1, e2, ok, to)
              ]
        ]
      ]
