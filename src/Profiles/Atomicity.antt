-- ===== src/Profiles/Atomicity.antt =====
-- Wherever a call of deck_companion_profiles.cpp stops, the stored set is whole.
use s3_rlcd_deck.Base.{
  ℕ, ◌==◌, ◌≡◌, ◌⊎◌, ◌∙◌, inl, inr, sym, ap, true, false, some, List, arith, Bool-cases,
}
use s3_rlcd_deck.Base.Int.{pos}
use s3_rlcd_deck.Storage.Store.{StorageAdapter, Store}
use s3_rlcd_deck.Storage.Store.Laws.{Cells, StorageLaws}
use s3_rlcd_deck.Profiles.Text.{PeerScan, c_text}
use s3_rlcd_deck.Profiles.Codec.{StoredSet, valid_set}
use s3_rlcd_deck.Profiles.Encoding.{AllTyped}
use s3_rlcd_deck.Profiles.Sets.{
  find_profile, field_set, selected_set, activated_set, revoked_set, paired_set,
}
use s3_rlcd_deck.Profiles.Calls.{
  PairingAdapter, load_set, create, commit_set, update_field, select_active, revoke,
  activate_on_success, record_success, pair,
}
use s3_rlcd_deck.Profiles.Directory.{paired_set-lookup}
use s3_rlcd_deck.Profiles.Made.{
  Call, selects, revokes, activates, succeeds, prioritizes, pairs, IsTypedCall, Made,
  selected_set-Made, revoked_set-Made, activated_set-Made, succeeded-Made, prioritized-Made,
}
use s3_rlcd_deck.Profiles.Typed.{
  selected_set-AllTyped, revoked_set-AllTyped, activated_set-AllTyped, field_set-AllTyped,
  paired_set-AllTyped,
}
use s3_rlcd_deck.Profiles.Laws.{
  IsProfiles, found_by, set_of, load_set-found, load_set-valid, create-load_set,
  commit_set-Committed,
}
use s3_rlcd_deck.Profiles.Outcomes.{
  select_active-Tried, revoke-Tried, update_field-Tried, activate_on_success-Tried, pair-Tried,
  Tried,
}

module _ {S P : Type 0} (sa : StorageAdapter S) (pa : PairingAdapter P) (scan : PeerScan) where
  unfoldable pub step : Store S × P → Call → Store S × P
  unfolding record_success
  step (st, pairing) (selects id) = ((select_active sa st id).0, pairing)
  step (st, pairing) (revokes id) = ((revoke sa st id).0, pairing)
  step (st, pairing) (activates id generation unix_ms) =
      ((activate_on_success sa st id generation unix_ms).0, pairing)
  step (st, pairing) (succeeds id unix_ms) = ((record_success sa st id unix_ms).0, pairing)
  step (st, pairing) (prioritizes id priority) =
      ((update_field sa st id priority 0 true).0, pairing)
  step (st, pairing) (pairs request) = (pair sa pa scan st pairing request).0

module _ {S : Type 0} (sa : StorageAdapter S) (cells : S → Cells)
    (laws : StorageLaws sa cells) where
  tried-load_set :
      (st u v : Store S) (set : StoredSet)
      → IsProfiles sa cells laws st
      → AllTyped set.profiles
      → u ≡ (commit_set sa st set).0
      → create sa u.context ≡ some v
      → v.storage_faulted ≡ false
      → (load_set v ≡ load_set st) ⊎ (load_set v ≡ some set)
  tried-load_set st u v set i typed is boot sane =
      let now = create-load_set sa cells laws u.context v boot sane in
      let before = load_set-found sa cells laws st i in
      let moved = ap (λ x. set_of (found_by sa cells laws x)) is in
      elim (commit_set-Committed sa cells laws st set i typed) [
        | inl (yes_done, at, kept) ↦ inr (now ∙ moved ∙ at)
        | inr (not_done, inl old) ↦ inl (now ∙ moved ∙ ap (λ o. set_of o) old ∙ sym before)
        | inr (not_done, inr at) ↦ inr (now ∙ moved ∙ at)
      ]

  unchanged-load_set :
      (st u v : Store S)
      → IsProfiles sa cells laws st
      → u ≡ st
      → create sa u.context ≡ some v
      → v.storage_faulted ≡ false
      → load_set v ≡ load_set st
  unchanged-load_set st u v i same boot sane =
      create-load_set sa cells laws u.context v boot sane
      ∙ ap (λ x. set_of (found_by sa cells laws x)) same
      ∙ sym (load_set-found sa cells laws st i)

  -- A boot loads the set of before, or one that the call makes of it.
  abbrev Whole : (StoredSet → StoredSet → Type 0) → Store S → Store S → Type 0
  Whole M st v =
      (load_set v ≡ load_set st)
      ⊎ ((old : StoredSet) × (new : StoredSet) × (load_set st ≡ some old)
          × (load_set v ≡ some new)
          × M old new)

  edited-Whole :
      (M : StoredSet → StoredSet → Type 0) (id : List ℕ) (edit : StoredSet → ℕ → StoredSet)
      (st u v : Store S)
      → IsProfiles sa cells laws st
      → Tried sa st id edit u
      → ((set : StoredSet) (k : ℕ) → AllTyped set.profiles → AllTyped (edit set k).profiles)
      → ((set : StoredSet) (k : ℕ)
          → valid_set set ≡ true
          → find_profile set.profiles id ≡ some k
          → M set (edit set k))
      → create sa u.context ≡ some v
      → v.storage_faulted ≡ false
      → Whole M st v
  edited-Whole M id edit st u v i (inl same) keeps makes boot sane =
      inl (unchanged-load_set st u v i same boot sane)
  edited-Whole M id edit st u v i (inr (set, k, loaded, found, is)) keeps makes boot sane =
      let (ok, typed) = load_set-valid st set loaded in
      let new = edit set k in
      elim (tried-load_set st u v new i (keeps set k typed) is boot sane) [
        | inl old ↦ inl old
        | inr there ↦ inr (set, new, loaded, there, makes set k ok found)
      ]

  -- Whatever a call of the profiles answers, and wherever the storage fails or loses power in it, a
  -- later boot that reads the storage without a failure loads the set of before, or wholly the set
  -- that the call makes of it, as a directory: which profile is active, and what any identifier
  -- leads to, which for a pairing is what its code was redeemed for.
  pub step_whole :
      {P : Type 0} (pa : PairingAdapter P) (scan : PeerScan) (st v : Store S) (pairing : P)
      (c : Call) (j : List ℕ)
      → IsTypedCall c
      → IsProfiles sa cells laws st
      → create sa (step sa pa scan (st, pairing) c).0.context ≡ some v
      → v.storage_faulted ≡ false
      → (load_set v ≡ load_set st)
        ⊎ ((old : StoredSet) × (new : StoredSet) × (load_set st ≡ some old)
            × (load_set v ≡ some new)
            × Made pa pairing c j old new)
  unfolding step record_success
  step_whole pa scan st v pairing (selects id) j small i boot sane =
      edited-Whole (Made pa pairing (selects id) j) id selected_set st (select_active sa st id).0 v
        i (select_active-Tried sa st id) (λ set k t. selected_set-AllTyped set k t)
        (λ set k ok e. selected_set-Made pa pairing set j id k e) boot sane
  step_whole pa scan st v pairing (revokes id) j small i boot sane =
      edited-Whole (Made pa pairing (revokes id) j) id revoked_set st (revoke sa st id).0 v i
        (revoke-Tried sa st id) (λ set k t. revoked_set-AllTyped set k t)
        (λ set k ok e. revoked_set-Made pa pairing set j id k ok e) boot sane
  step_whole pa scan st v pairing (activates id generation unix_ms) j small i boot sane =
      edited-Whole (Made pa pairing (activates id generation unix_ms) j) id
        (λ set k. activated_set set k unix_ms) st
        (activate_on_success sa st id generation unix_ms).0 v i
        (activate_on_success-Tried sa st id generation unix_ms)
        (λ set k t. activated_set-AllTyped set k t unix_ms small)
        (λ set k ok e. activated_set-Made pa pairing set j id generation unix_ms k e) boot sane
  step_whole pa scan st v pairing (prioritizes id priority) j small i boot sane =
      edited-Whole (Made pa pairing (prioritizes id priority) j) id
        (λ set k. field_set set k priority 0 true) st (update_field sa st id priority 0 true).0 v i
        (update_field-Tried sa st id priority 0 true)
        (λ set k t. field_set-AllTyped set k t priority 0 true small (omega arith))
        (λ set k ok e. prioritized-Made pa pairing set j id priority k e) boot sane
  step_whole pa scan st v pairing (succeeds id unix_ms) j small i boot sane =
      elim (Bool-cases (unix_ms == 0)) [
        | inl never ↦
            let same : (record_success sa st id unix_ms).0 ≡ st = ground arith in
            inl (unchanged-load_set st (record_success sa st id unix_ms).0 v i same boot sane)
        | inr at ↦
            let is : (record_success sa st id unix_ms).0
                ≡ (update_field sa st id (pos 0) unix_ms false).0 =
              ground arith in
            let u = (update_field sa st id (pos 0) unix_ms false).0 in
            edited-Whole (Made pa pairing (succeeds id unix_ms) j) id
              (λ set k. field_set set k (pos 0) unix_ms false) st u v i
              (update_field-Tried sa st id (pos 0) unix_ms false)
              (λ set k t. field_set-AllTyped set k t (pos 0) unix_ms false (omega arith) small)
              (λ set k ok e. succeeded-Made pa pairing set j id unix_ms k e)
              (ap (λ x. create sa x.context) (sym is) ∙ boot) sane
      ]
  step_whole pa scan st v pairing (pairs request) j small i boot sane =
      let u = (pair sa pa scan st pairing request).0.0 in
      elim (pair-Tried sa pa scan st pairing request) [
        | inl same ↦ inl (unchanged-load_set st u v i same boot sane)
        | inr (set, credential, loaded, redeemed, good, is) ↦
            let (ok, typed) = load_set-valid st set loaded in
            let found = find_profile set.profiles (c_text credential.certificate_fingerprint) in
            let new = paired_set set found request credential in
            let fits = paired_set-AllTyped set found request credential typed in
            elim (tried-load_set st u v new i fits is boot sane) [
              | inl old ↦ inl old
              | inr there ↦
                  let made = paired_set-lookup set request credential j in
                  inr (set, new, loaded, there, (credential, redeemed, good, made))
            ]
      ]
