-- ===== src/Profiles/Typed.antt =====
-- The numbers of the sets that the calls of deck_companion_profiles.cpp make fit their C types.
use s3_rlcd_deck.Base.{
  ℕ, zero, suc, ◌^◌, ◌<◌, Bool, true, false, Option, none, some, List, [], ◌∷◌, ◌++◌, length,
  get_or, set_elem, arith,
}
use s3_rlcd_deck.Base.Int.{ℤ}
use s3_rlcd_deck.Profiles.Codec.{StoredProfile, StoredSet}
use s3_rlcd_deck.Profiles.Encoding.{IsInt32, IsTyped, AllTyped}
use s3_rlcd_deck.Profiles.Sets.{
  Credential, PairRequest, blank_profile, profile_at, newer, field_set, selected_set, activated_set,
  remove_at, revoked_set, paired_profile, paired_set,
}

AllTyped-get_or :
    (ps : List StoredProfile) (k : ℕ) → AllTyped ps → IsTyped (get_or ps k blank_profile)
AllTyped-get_or [] k t = record { priority = omega arith; success = omega arith }
AllTyped-get_or (p ∷ ps) zero (t, ts) = t
AllTyped-get_or (p ∷ ps) (suc k) (t, ts) = AllTyped-get_or ps k ts

AllTyped-set_elem :
    (ps : List StoredProfile) (k : ℕ) (q : StoredProfile)
    → AllTyped ps
    → IsTyped q
    → AllTyped (set_elem ps k q)
AllTyped-set_elem [] k q ts t = tt
AllTyped-set_elem (p ∷ ps) zero q (first, ts) t = (t, ts)
AllTyped-set_elem (p ∷ ps) (suc k) q (first, ts) t = (first, AllTyped-set_elem ps k q ts t)

AllTyped-append :
    (ps : List StoredProfile) (q : StoredProfile)
    → AllTyped ps
    → IsTyped q
    → AllTyped (ps ++ q ∷ [])
AllTyped-append [] q ts t = (t, tt)
AllTyped-append (p ∷ ps) q (first, ts) t = (first, AllTyped-append ps q ts t)

AllTyped-remove_at : (ps : List StoredProfile) (k : ℕ) → AllTyped ps → AllTyped (remove_at ps k)
unfolding remove_at
AllTyped-remove_at [] k ts = tt
AllTyped-remove_at (p ∷ ps) zero (t, ts) = ts
AllTyped-remove_at (p ∷ ps) (suc k) (t, ts) = (t, AllTyped-remove_at ps k ts)

pub newer-IsTyped :
    (unix_ms : ℕ) (p : StoredProfile) → unix_ms < 2 ^ 64 → IsTyped p → IsTyped (newer unix_ms p)
newer-IsTyped unix_ms p h t = record {
  priority = ground (arith, t.priority);
  success = ground (arith, t.success);
}

module _ (set : StoredSet) (k : ℕ) (ts : AllTyped set.profiles) where
  pub selected_set-AllTyped : AllTyped (selected_set set k).profiles
  unfolding selected_set
  selected_set-AllTyped = ts

  pub revoked_set-AllTyped : AllTyped (revoked_set set k).profiles
  unfolding revoked_set
  revoked_set-AllTyped = AllTyped-remove_at set.profiles k ts

  pub activated_set-AllTyped :
      (unix_ms : ℕ) → unix_ms < 2 ^ 64 → AllTyped (activated_set set k unix_ms).profiles
  unfolding activated_set
  activated_set-AllTyped unix_ms h =
      let p = profile_at set k in
      AllTyped-set_elem set.profiles k (newer unix_ms p) ts
        (newer-IsTyped unix_ms p h (AllTyped-get_or set.profiles k ts))

  pub field_set-AllTyped :
      (priority : ℤ) (unix_ms : ℕ) (which : Bool)
      → IsInt32 priority
      → unix_ms < 2 ^ 64
      → AllTyped (field_set set k priority unix_ms which).profiles
  unfolding field_set
  field_set-AllTyped priority unix_ms true small h =
      let t = AllTyped-get_or set.profiles k ts in
      AllTyped-set_elem set.profiles k (record (profile_at set k) { priority = priority }) ts
        (record { priority = small; success = t.success })
  field_set-AllTyped priority unix_ms false small h =
      let p = profile_at set k in
      AllTyped-set_elem set.profiles k (newer unix_ms p) ts
        (newer-IsTyped unix_ms p h (AllTyped-get_or set.profiles k ts))

pub paired_set-AllTyped :
    (set : StoredSet) (found : Option ℕ) (request : PairRequest) (credential : Credential)
    → AllTyped set.profiles
    → AllTyped (paired_set set found request credential).profiles
unfolding paired_set paired_profile
paired_set-AllTyped set none request credential ts =
    let t = AllTyped-get_or set.profiles (length set.profiles) ts in
    AllTyped-append set.profiles
      (paired_profile (profile_at set (length set.profiles)) request credential) ts
      (record { priority = t.priority; success = t.success })
paired_set-AllTyped set (some k) request credential ts =
    let t = AllTyped-get_or set.profiles k ts in
    AllTyped-set_elem set.profiles k (paired_profile (profile_at set k) request credential) ts
      (record { priority = t.priority; success = t.success })
