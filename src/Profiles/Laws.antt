-- ===== src/Profiles/Laws.antt =====
-- What a commit of deck_companion_profiles.cpp leaves in the storage, over the laws of the store.
use s3_rlcd_deck.Base.{
  ℕ, zero, suc, ◌^◌, ◌<◌, ◌≡◌, ◌⊎◌, ◌∙◌, sym, ap, inl, inr, refl, Bool, true, false, Option, none,
  some, List, ◌∷◌, get_or, drop, arith, Bool-cases, Option-cases,
}
use s3_rlcd_deck.Storage.Bytes.{read_u32_at}
use s3_rlcd_deck.Storage.Record.{OwnedRecord}
use s3_rlcd_deck.Storage.Store.{StorageAdapter, Store, stage}
use s3_rlcd_deck.Storage.Store
use s3_rlcd_deck.Storage.Store.Commit.{commit, next_slot}
use s3_rlcd_deck.Storage.Store.Laws.{Cells, StorageLaws, recover}
use s3_rlcd_deck.Storage.Store.Invariant.{Inv}
use s3_rlcd_deck.Storage.Store.Safety.{commit-Atomic}
use s3_rlcd_deck.Storage.Store.Load.{create_recovers}
use s3_rlcd_deck.Storage.Store.Calls.{stage_keeps}
use s3_rlcd_deck.Storage.Store.Fixed.{create-options, stage-options, commit-options}
use s3_rlcd_deck.Profiles.Codec.{
  StoredProfile, StoredSet, to_signed, valid_set, valid_profiles, decode_profile, decode_profiles,
  decode_set, encode_set,
}
use s3_rlcd_deck.Profiles.Encoding.{IsInt32, IsTyped, AllTyped}
use s3_rlcd_deck.Profiles.RoundTrip.{decode_set-encode_set}
use s3_rlcd_deck.Profiles.Sets.{empty_set}
use s3_rlcd_deck.Profiles.Calls.{store_options, load_set, create, commit_set, is_updated}

to_signed-IsInt32 : (n : ℕ) → n < 2 ^ 32 → IsInt32 (to_signed n)
unfolding to_signed
to_signed-IsInt32 n h = ground arith

-- The numbers of a profile that was read fit their C types.
decode_profile-IsTyped :
    (input rest : List ℕ) (p : StoredProfile) → decode_profile input ≡ some (p, rest) → IsTyped p
unfolding decode_profile
decode_profile-IsTyped input rest p e =
    let signed = to_signed-IsInt32 (read_u32_at input 1) (omega arith) in
    record { priority = ground (arith, signed); success = ground arith }

decode_profiles-AllTyped :
    (n : ℕ) (input rest : List ℕ) (ps : List StoredProfile)
    → decode_profiles n input ≡ some (ps, rest)
    → AllTyped ps
unfolding decode_profiles
decode_profiles-AllTyped zero input rest ps e = ground arith
decode_profiles-AllTyped (suc n) input rest ps e = elim (Option-cases (decode_profile input)) [
  | inl e1 ↦ absurd (ground arith)
  | inr ((p, behind), e1) ↦ elim (Option-cases (decode_profiles n behind)) [
    | inl e2 ↦ absurd (ground arith)
    | inr ((others, left), e2) ↦
        let first = decode_profile-IsTyped input behind p e1 in
        let rest_typed = decode_profiles-AllTyped n behind left others e2 in
        let is : ps ≡ p ∷ others = ground arith in rw is (first, rest_typed)
  ]
]

-- A set that was read is valid, and its numbers fit their C types.
pub decode_set-valid :
    (input : List ℕ) (set : StoredSet)
    → decode_set input ≡ some set
    → (valid_set set ≡ true) × AllTyped set.profiles
unfolding decode_set
decode_set-valid input set e =
    elim (Option-cases (decode_profiles (get_or input 0 0) (drop 2 input))) [
      | inl e1 ↦ absurd (ground arith)
      | inr ((ps, left), e1) ↦
          let typed = decode_profiles-AllTyped (get_or input 0 0) (drop 2 input) left ps e1 in
          let is : set ≡ record { active_index = get_or input 1 0; profiles = ps } = ground arith in
          (ground arith, rw is typed)
    ]

encode_set-valid :
    (set : StoredSet) (capacity : ℕ) (payload : List ℕ)
    → encode_set set capacity ≡ some payload
    → valid_set set ≡ true
unfolding encode_set
encode_set-valid set capacity payload e = ground arith

-- What is encoded reads back.
encode_set-decode :
    (set : StoredSet) (payload : List ℕ)
    → AllTyped set.profiles
    → encode_set set Store.max_payload_capacity ≡ some payload
    → decode_set payload ≡ some set
encode_set-decode set payload typed e =
    let ok = encode_set-valid set Store.max_payload_capacity payload e in
    let (bytes, encoded, small, decoded, accepted) =
      decode_set-encode_set set Store.max_payload_capacity ok typed (omega arith) in
    ground (arith, encoded, decoded, e)

-- The set of what a boot finds.
abbrev pub set_of : Option (ℕ × OwnedRecord) → Option StoredSet
set_of none = some empty_set
set_of (some (slot, r)) = decode_set r.payload

-- What is loaded is valid, and its numbers fit their C types.
pub load_set-valid :
    {S : Type 0} (st : Store S) (set : StoredSet)
    → load_set st ≡ some set
    → (valid_set set ≡ true) × AllTyped set.profiles
unfolding load_set valid_set valid_profiles
load_set-valid st set e = elim (Bool-cases st.has_active) [
  | inl on ↦ decode_set-valid st.active.payload set (ground arith)
  | inr off ↦ let is : set ≡ empty_set = ground arith in rw is (refl, tt)
]

module _ {S : Type 0} (sa : StorageAdapter S) (cells : S → Cells)
    (laws : StorageLaws sa cells) where
  -- Profiles whose storage has not failed.
  pub record IsProfiles (st : Store S) : Type 0 where
    pub sound : Inv cells st
    pub fixed : st.options ≡ store_options

  pub create-IsProfiles :
      (c : S) (st : Store S) → create sa c ≡ some st → st.storage_faulted ≡ false → IsProfiles st
  unfolding create
  create-IsProfiles c st e sane = record {
    sound = elim ((create_recovers sa cells laws c store_options st e).2) [
      | inl broken ↦ cc (broken, sane)
      | inr i ↦ i
    ];
    fixed = create-options sa c store_options st e;
  }

  abbrev pub found_by : Store S → Option (ℕ × OwnedRecord)
  found_by st = recover store_options (cells st.context)

  -- What is loaded is what a boot finds.
  pub load_set-found : (st : Store S) → IsProfiles st → load_set st ≡ set_of (found_by st)
  unfolding load_set Store.Commit.snapshot
  load_set-found st i =
      let known : found_by st ≡ recover st.options (cells st.context) =
        ap (λ o. recover o (cells st.context)) (sym i.fixed) in
      elim (Bool-cases st.has_active) [
        | inl on ↦ ground (arith, known, (i.sound.found on).1)
        | inr off ↦ ground (arith, known, (i.sound.home off).1)
      ]

  pub create-load_set :
      (c : S) (v : Store S)
      → create sa c ≡ some v
      → v.storage_faulted ≡ false
      → load_set v ≡ set_of (recover store_options (cells c))
  unfolding create
  create-load_set c v e sane =
      let same = (create_recovers sa cells laws c store_options v e).0 in
      load_set-found v (create-IsProfiles c v e sane)
      ∙ ap (λ cs. set_of (recover store_options cs)) same

  -- A commit's outcome: the set is there, or what was there before, or either of them.
  abbrev pub Committed : Store S → StoredSet → Store S → Bool → Type 0
  Committed st set v done =
      ((done ≡ true) × (set_of (found_by v) ≡ some set) × IsProfiles v)
      ⊎ ((done ≡ false) × ((found_by v ≡ found_by st) ⊎ (set_of (found_by v) ≡ some set)))

  commit-Committed :
      (u : Store S) (set : StoredSet)
      → IsProfiles u
      → decode_set u.candidate.payload ≡ some set
      → let (v, result) = commit sa u in Committed u set v (is_updated result)
  commit-Committed u set i staged =
      let (v, result) = commit sa u in
      let fixed : v.options ≡ store_options = commit-options sa u ∙ i.fixed in
      let after : recover v.options (cells v.context) ≡ found_by v =
        ap (λ o. recover o (cells v.context)) fixed in
      let before : recover u.options (cells u.context) ≡ found_by u =
        ap (λ o. recover o (cells u.context)) i.fixed in
      let new = λ (e : recover v.options (cells v.context) ≡ some (next_slot u, u.candidate)).
        ap (λ o. set_of o) (sym after ∙ e) ∙ staged in
      elim (commit-Atomic sa cells laws u i.sound) [
        | inl (done, at, act, kept) ↦
            inl (ground (arith, done), new at, record { sound = kept; fixed = fixed })
        | inr (inl (e, broken, inl old)) ↦ inr (ground arith, inl (sym after ∙ old ∙ before))
        | inr (inl (e, broken, inr at)) ↦ inr (ground arith, inr (new at))
        | inr (inr (e, back)) ↦ inr (ground arith, inl (ap (λ x. found_by x) back))
      ]

  -- Whatever the storage does in between, a commit of a set leaves that set or what was there.
  pub commit_set-Committed :
      (st : Store S) (set : StoredSet)
      → IsProfiles st
      → AllTyped set.profiles
      → let (v, done) = commit_set sa st set in Committed st set v done
  unfolding commit_set
  commit_set-Committed st set i typed =
      elim (Option-cases (encode_set set Store.max_payload_capacity)) [
        | inl refused ↦ ground arith
        | inr (payload, encoded) ↦
            let decoded = encode_set-decode set payload typed encoded in
            let (u, written) = stage sa st payload in
            let (same, left) = stage_keeps sa cells laws st payload i.sound in
            let fixed : u.options ≡ store_options = stage-options sa st payload ∙ i.fixed in
            let kept : found_by u ≡ found_by st =
              ap (λ o. recover o (cells u.context)) (sym fixed)
              ∙ same
              ∙ ap (λ o. recover o (cells st.context)) i.fixed in
            elim left [
              | inl (e, on, pay, next, sound) ↦
                  let committed =
                    commit-Committed u set (record { sound = sound; fixed = fixed })
                      (ap (λ p. decode_set p) pay ∙ decoded) in
                  ground (arith, kept, committed)
              | inr (inl (e, broken, c, h)) ↦ ground (arith, kept)
              | inr (inr (e, back)) ↦ ground (arith, kept)
            ]
      ]
