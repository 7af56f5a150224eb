-- ===== src/Profiles/Made.antt =====
-- What the calls of deck_companion_profiles.cpp make of a set, as a directory of profiles.
use s3_rlcd_deck.Base.{
  ℕ, ◌^◌, ◌<◌, ◌≡◌, ◌≢◌, ◌∙◌, inl, inr, sym, ap, refl, true, false, Option, none, some, List, [],
  ◌∷◌, zero, suc, get_elem?, get_or, set_elem, same_text, ◌==◌, ==_iff, if◌then◌else◌, arith,
  Bool-cases,
}
use s3_rlcd_deck.Base.Int.{ℤ, pos}
use s3_rlcd_deck.Profiles.Text.{c_text}
use s3_rlcd_deck.Profiles.Codec.{StoredProfile, StoredSet, valid_set}
use s3_rlcd_deck.Profiles.Encoding.{IsInt32}
use s3_rlcd_deck.Profiles.Sets.{
  Credential, PairRequest, blank_profile, newer, find_profile, field_set, selected_set,
  activated_set, revoked_set, credential_valid,
}
use s3_rlcd_deck.Profiles.Calls.{PairingAdapter}
use s3_rlcd_deck.Profiles.Lookup.{
  Distinct, profile_of, find_profile-IsAt, profile_of-set_elem, profile_of-remove_at,
}
use s3_rlcd_deck.Profiles.Revocation.{
  active_of, first_of, id_of, is_id, active_of-revoked_set, valid_set-Distinct, get_elem?-set_elem,
}
use s3_rlcd_deck.Profiles.Directory.{
  latest, previous_of, renewed, newer-latest, activated_set-lookup,
}

pub data Call : Type 0 where
  selects revokes : List ℕ → Call
  activates : List ℕ → ℕ → ℕ → Call
  succeeds : List ℕ → ℕ → Call
  prioritizes : List ℕ → ℤ → Call
  pairs : PairRequest → Call

-- The numbers of a call fit their C types.
abbrev pub IsTypedCall : Call → Type 0
IsTypedCall (activates id generation unix_ms) = unix_ms < 2 ^ 64
IsTypedCall (succeeds id unix_ms) = unix_ms < 2 ^ 64
IsTypedCall (prioritizes id priority) = IsInt32 priority
IsTypedCall _ = Unit {0}

-- What an identifier leads to, where only one identifier has a new entry.
abbrev Becomes : List ℕ → Option StoredProfile → List ℕ → StoredSet → StoredSet → Type 0
Becomes id entry j old new =
    profile_of new.profiles j ≡ (if same_text id j then entry else profile_of old.profiles j)

-- The profile of an identifier had an entry.
abbrev Knows : StoredSet → List ℕ → StoredProfile → Type 0
Knows old id p = profile_of old.profiles id ≡ some p

-- What a call makes of a set: which profile is active, and what an identifier leads to.
abbrev pub Made :
    {P : Type 0} → PairingAdapter P → P → Call → List ℕ → StoredSet → StoredSet → Type 0
Made pa pairing (selects id) j old new =
    (p : StoredProfile) × Knows old id p
    × (active_of new ≡ some id)
    × (profile_of new.profiles j ≡ profile_of old.profiles j)
Made pa pairing (revokes id) j old new =
    (p : StoredProfile) × Knows old id p
    × (active_of new ≡ (if is_id (active_of old) id then first_of new else active_of old))
    × Becomes id none j old new
Made pa pairing (activates id generation unix_ms) j old new =
    (p : StoredProfile) × Knows old id p
    × (active_of new ≡ some id)
    × Becomes id (some (latest unix_ms p)) j old new
Made pa pairing (succeeds id unix_ms) j old new =
    (p : StoredProfile) × Knows old id p
    × (active_of new ≡ active_of old)
    × Becomes id (some (latest unix_ms p)) j old new
Made pa pairing (prioritizes id priority) j old new =
    (p : StoredProfile) × Knows old id p
    × (active_of new ≡ active_of old)
    × Becomes id (some (record p { priority = priority })) j old new
Made pa pairing (pairs request) j old new =
    (credential : Credential) × ((pa.redeem pairing (c_text request.hub_address)
        (c_text request.pairing_address) (c_text request.code)).1
      ≡ some credential)
    × (credential_valid credential ≡ true)
    × (let fingerprint = c_text credential.certificate_fingerprint in
        (active_of new ≡ some fingerprint)
        × Becomes fingerprint
            (some (renewed (previous_of (profile_of old.profiles fingerprint)) request credential))
            j old new)

pub revoked_set-lookup :
    (old : StoredSet) (id j : List ℕ) (k : ℕ)
    → find_profile old.profiles id ≡ some k
    → Distinct old.profiles
    → profile_of (revoked_set old k).profiles j
      ≡ (if same_text id j then none else profile_of old.profiles j)
unfolding revoked_set
revoked_set-lookup old id j k e d = profile_of-remove_at old.profiles id j k e d

get_elem?-set_elem_other :
    (ps : List StoredProfile) (k i : ℕ) (q : StoredProfile)
    → i ≢ k
    → get_elem? (set_elem ps k q) i ≡ get_elem? ps i
get_elem?-set_elem_other [] k i q h = refl
get_elem?-set_elem_other (p ∷ ps) zero zero q h = absurd (h refl)
get_elem?-set_elem_other (p ∷ ps) zero (suc i) q h = refl
get_elem?-set_elem_other (p ∷ ps) (suc k) zero q h = refl
get_elem?-set_elem_other (p ∷ ps) (suc k) (suc i) q h =
    get_elem?-set_elem_other ps k i q (λ e. h (ap (λ n. suc n) e))

-- A profile that is replaced by one with its identifier leaves the active one as it is.
active_of-set_elem :
    (old : StoredSet) (id : List ℕ) (k : ℕ) (q : StoredProfile)
    → find_profile old.profiles id ≡ some k
    → q.profile_id ≡ id
    → active_of (record old { profiles = set_elem old.profiles k q }) ≡ active_of old
unfolding active_of
active_of-set_elem old id k q e same =
    let i = find_profile-IsAt old.profiles id k e in
    elim (Bool-cases (old.active_index == k)) [
      | inl here ↦
          let at : old.active_index ≡ k = (==_iff old.active_index k).0 here in
          rw (at, get_elem?-set_elem old.profiles k q i.bound, i.here)
            (ap (λ x. some x) (same ∙ sym i.has))
      | inr other ↦
          ap (λ o. id_of o)
            (get_elem?-set_elem_other old.profiles k old.active_index q
              (λ d. ground (arith, other, d)))
    ]

module _ {P : Type 0} (pa : PairingAdapter P) (pairing : P) (old : StoredSet) (j : List ℕ) where
  pub selected_set-Made :
      (id : List ℕ) (k : ℕ)
      → find_profile old.profiles id ≡ some k
      → Made pa pairing (selects id) j old (selected_set old k)
  unfolding selected_set active_of
  selected_set-Made id k e =
      let i = find_profile-IsAt old.profiles id k e in
      (
        get_or old.profiles k blank_profile,
        i.at,
        ap (λ o. id_of o) i.here ∙ ap (λ x. some x) i.has,
        refl,
      )

  pub revoked_set-Made :
      (id : List ℕ) (k : ℕ)
      → valid_set old ≡ true
      → find_profile old.profiles id ≡ some k
      → Made pa pairing (revokes id) j old (revoked_set old k)
  revoked_set-Made id k ok e = (
    get_or old.profiles k blank_profile,
    (find_profile-IsAt old.profiles id k e).at,
    active_of-revoked_set old id k ok e,
    revoked_set-lookup old id j k e (valid_set-Distinct old ok),
  )

  pub activated_set-Made :
      (id : List ℕ) (generation unix_ms k : ℕ)
      → find_profile old.profiles id ≡ some k
      → Made pa pairing (activates id generation unix_ms) j old (activated_set old k unix_ms)
  activated_set-Made id generation unix_ms k e =
      let i = find_profile-IsAt old.profiles id k e in
      let (active, at) = activated_set-lookup old id j k unix_ms e in
      let p = get_or old.profiles k blank_profile in
      (
        p,
        i.at,
        active,
        at
            ∙ ap
                (λ o.
                  if same_text id j
                  then some (latest unix_ms (previous_of o))
                  else profile_of old.profiles j)
                i.at,
      )

  -- The field that changes is not the identifier.
  replaced-Made :
      (id : List ℕ) (k : ℕ) (q r : StoredProfile)
      → find_profile old.profiles id ≡ some k
      → q ≡ r
      → r.profile_id ≡ (get_or old.profiles k blank_profile).profile_id
      → let new = record old { profiles = set_elem old.profiles k q } in
        (active_of new ≡ active_of old) × Becomes id (some r) j old new
  replaced-Made id k q r e is same =
      let i = find_profile-IsAt old.profiles id k e in
      let mine : q.profile_id ≡ id = ap (λ x. x.profile_id) is ∙ same ∙ i.has in
      (
        active_of-set_elem old id k q e mine,
        profile_of-set_elem old.profiles id j k q e mine
            ∙ ap (λ x. if same_text id j then some x else profile_of old.profiles j) is,
      )

  pub succeeded-Made :
      (id : List ℕ) (unix_ms k : ℕ)
      → find_profile old.profiles id ≡ some k
      → Made pa pairing (succeeds id unix_ms) j old (field_set old k (pos 0) unix_ms false)
  unfolding field_set
  succeeded-Made id unix_ms k e =
      let p = get_or old.profiles k blank_profile in
      let r =
        replaced-Made id k (newer unix_ms p) (latest unix_ms p) e (newer-latest unix_ms p) refl in
      (p, (find_profile-IsAt old.profiles id k e).at, r.0, r.1)

  pub prioritized-Made :
      (id : List ℕ) (priority : ℤ) (k : ℕ)
      → find_profile old.profiles id ≡ some k
      → Made pa pairing (prioritizes id priority) j old (field_set old k priority 0 true)
  unfolding field_set
  prioritized-Made id priority k e =
      let p = get_or old.profiles k blank_profile in
      let q = record p { priority = priority } in
      let r = replaced-Made id k q q e refl refl in
      (p, (find_profile-IsAt old.profiles id k e).at, r.0, r.1)
