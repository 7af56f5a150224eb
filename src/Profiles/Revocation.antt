-- ===== src/Profiles/Revocation.antt =====
-- What the set of a revocation keeps of the one before (deck_companion_profiles.cpp).
use s3_rlcd_deck.Base.{
  ℕ, zero, suc, ◌-◌, ◌≤◌, ◌<◌, ◌≡◌, inl, inr, ap, refl, Bool, true, false, Option, none, some, List,
  [], ◌∷◌, length, get_or, get_elem?, set_elem, ◌++◌, same_text, same_text_iff, ◌==◌, ==_iff,
  if◌then◌else◌, arith, Bool-cases,
}
use s3_rlcd_deck.Profiles.Codec.{StoredProfile, StoredSet, valid_set}
use s3_rlcd_deck.Profiles.Sets.{find_profile, remove_at, revoked_set, blank_profile}
use s3_rlcd_deck.Profiles.Lookup.{
  profile_of, Distinct, find_profile-IsAt, valid_profiles-Distinct, get_elem?-remove_at,
  length-remove_at, same_text_refl,
}

abbrev pub id_of : Option StoredProfile → Option (List ℕ)
id_of none = none
id_of (some p) = some p.profile_id

-- The identifier of the active profile, and of the first one.
unfoldable pub active_of : StoredSet → Option (List ℕ)
active_of set = id_of (get_elem? set.profiles set.active_index)

unfoldable pub first_of : StoredSet → Option (List ℕ)
first_of set = id_of (get_elem? set.profiles 0)

abbrev pub is_id : Option (List ℕ) → List ℕ → Bool
is_id none id = false
is_id (some other) id = same_text other id

profile_of-get_elem? :
    (ps : List StoredProfile) (i : ℕ) (p : StoredProfile) (id : List ℕ)
    → get_elem? ps i ≡ some p
    → profile_of ps id ≡ none
    → same_text p.profile_id id ≡ false
unfolding profile_of
profile_of-get_elem? [] i p id e free = absurd (ground arith)
profile_of-get_elem? (q ∷ ps) zero p id e free = ground arith
profile_of-get_elem? (q ∷ ps) (suc i) p id e free = ground (arith, profile_of-get_elem? ps i p id e)

-- Where identifiers are distinct, the profile at an index is found there.
pub find_profile-get_elem? :
    (ps : List StoredProfile) (i : ℕ) (p : StoredProfile)
    → Distinct ps
    → get_elem? ps i ≡ some p
    → find_profile ps p.profile_id ≡ some i
unfolding find_profile
find_profile-get_elem? [] i p d e = absurd (ground arith)
find_profile-get_elem? (q ∷ ps) zero p d e = ground (arith, same_text_refl p.profile_id)
find_profile-get_elem? (q ∷ ps) (suc i) p (free, d) e =
    let other : same_text p.profile_id q.profile_id ≡ false =
      profile_of-get_elem? ps i p q.profile_id e free in
    let apart : same_text q.profile_id p.profile_id ≡ false =
      ground
        (arith, same_text_iff p.profile_id q.profile_id, same_text_iff q.profile_id p.profile_id) in
    ground (arith, apart, find_profile-get_elem? ps i p d e)

pub valid_set-Distinct : (set : StoredSet) → valid_set set ≡ true → Distinct set.profiles
unfolding valid_set
valid_set-Distinct set ok = valid_profiles-Distinct [] set.profiles (ground arith)

-- A set with profiles has its active one among them.
pub valid_set-active :
    (set : StoredSet)
    → valid_set set ≡ true
    → 0 < length set.profiles
    → set.active_index < length set.profiles
unfolding valid_set
valid_set-active set ok some_there = ground arith

get_elem?-lt :
    (ps : List StoredProfile) (i : ℕ)
    → i < length ps
    → (p : StoredProfile) × (get_elem? ps i ≡ some p)
get_elem?-lt [] i h = absurd (omega arith)
get_elem?-lt (p ∷ ps) zero h = (p, refl)
get_elem?-lt (p ∷ ps) (suc i) h = get_elem?-lt ps i (omega arith)

get_elem?-out : (ps : List StoredProfile) (i : ℕ) → length ps ≤ i → get_elem? ps i ≡ none
get_elem?-out [] i h = refl
get_elem?-out (p ∷ ps) zero h = absurd (omega arith)
get_elem?-out (p ∷ ps) (suc i) h = get_elem?-out ps i (omega arith)

suc_pred_at :
    (ps : List StoredProfile) (i k : ℕ) → k < i → get_elem? ps (suc (i - 1)) ≡ get_elem? ps i
suc_pred_at ps i k h = let e : suc (i - 1) ≡ i = omega arith in ap (λ n. get_elem? ps n) e

-- The active profile is the one that is revoked exactly where their indexes are equal.
is_id-active_of :
    (set : StoredSet) (id : List ℕ) (k : ℕ)
    → valid_set set ≡ true
    → find_profile set.profiles id ≡ some k
    → is_id (active_of set) id ≡ (set.active_index == k)
unfolding active_of
is_id-active_of set id k ok e =
    let i = find_profile-IsAt set.profiles id k e in
    let active = valid_set-active set ok (omega (arith, i.bound)) in
    let (p, here) = get_elem?-lt set.profiles set.active_index active in
    let found =
      find_profile-get_elem? set.profiles set.active_index p (valid_set-Distinct set ok) here in
    let same = λ (h : p.profile_id ≡ id). ap (λ x. find_profile set.profiles x) h in
    rw here (ground (arith, found, e, i.here, i.has, here, same_text_iff p.profile_id id, same))

-- A revocation leaves the other profiles, and the active one if it is another; otherwise the first
-- profile that is left is active.
pub active_of-revoked_set :
    (set : StoredSet) (id : List ℕ) (k : ℕ)
    → valid_set set ≡ true
    → find_profile set.profiles id ≡ some k
    → active_of (revoked_set set k)
      ≡ (if is_id (active_of set) id then first_of (revoked_set set k) else active_of set)
unfolding revoked_set active_of first_of
active_of-revoked_set set id k ok e =
    let i = find_profile-IsAt set.profiles id k e in
    let mine = is_id-active_of set id k ok e in
    let active = valid_set-active set ok (omega (arith, i.bound)) in
    let count = length-remove_at set.profiles k i.bound in
    let (before, b) = get_elem?-remove_at set.profiles k set.active_index in
    let (c, behind) = get_elem?-remove_at set.profiles k (set.active_index - 1) in
    let left = remove_at set.profiles k in
    let again = λ (h : k < set.active_index). suc_pred_at set.profiles set.active_index k h in
    elim (Bool-cases (length left == 0)) [
      | inl empty ↦
          let zero_left : length left ≡ 0 = (==_iff (length left) 0).0 empty in
          let out = get_elem?-out left 255 (omega (arith, zero_left)) in
          let none_first = get_elem?-out left 0 (omega (arith, zero_left)) in
          let one : set.active_index ≡ k = ground (arith, i.bound) in
          rw (empty, mine) (ground (arith, out, none_first, one))
      | inr more ↦ rw (more, mine) (ground (arith, before, behind, again))
    ]

pub get_elem?-set_elem :
    (ps : List StoredProfile) (k : ℕ) (q : StoredProfile)
    → k < length ps
    → get_elem? (set_elem ps k q) k ≡ some q
get_elem?-set_elem [] k q h = absurd (omega arith)
get_elem?-set_elem (p ∷ ps) zero q h = refl
get_elem?-set_elem (p ∷ ps) (suc k) q h = get_elem?-set_elem ps k q (omega arith)

pub get_elem?-append :
    (ps : List StoredProfile) (q : StoredProfile) → get_elem? (ps ++ q ∷ []) (length ps) ≡ some q
get_elem?-append [] q = refl
get_elem?-append (p ∷ ps) q = get_elem?-append ps q

pub get_or-length : (ps : List StoredProfile) → get_or ps (length ps) blank_profile ≡ blank_profile
get_or-length [] = refl
get_or-length (p ∷ ps) = get_or-length ps
