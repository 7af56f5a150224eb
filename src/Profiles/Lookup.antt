-- ===== src/Profiles/Lookup.antt =====
-- A set of profiles as a directory: which profile an identifier leads to, before and after the list
-- of deck_companion_profiles.cpp is changed.
use s3_rlcd_deck.Base.{
  ℕ, zero, suc, ◌<◌, ◌≡◌, ◌∙◌, sym, ap, refl, true, false, Option, none, some, List, [], ◌∷◌, ◌++◌,
  length, get_or, get_elem?, set_elem, same_text, same_text_iff, if◌then◌else◌, arith,
}
use s3_rlcd_deck.Profiles.Codec.{StoredProfile, has_id, valid_profiles}
use s3_rlcd_deck.Profiles.Sets.{find_profile, remove_at, blank_profile}

-- The profile that an identifier leads to.
unfoldable pub profile_of : List StoredProfile → List ℕ → Option StoredProfile
profile_of [] profile_id = none
profile_of (p ∷ profiles) profile_id =
    if same_text p.profile_id profile_id then some p else profile_of profiles profile_id

pub same_text_refl : (text : List ℕ) → same_text text text ≡ true
same_text_refl text = (same_text_iff text text).1 refl

same_text-apart : (a b j : List ℕ) → same_text a b ≡ false → a ≡ j → b ≡ j → false ≡ true
same_text-apart a b j other first second = sym other ∙ (same_text_iff a b).1 (first ∙ sym second)

-- The profile at an index is the first one with this identifier.
pub record IsAt (ps : List StoredProfile) (id : List ℕ) (k : ℕ) : Type 0 where
  pub bound : k < length ps
  pub has : (get_or ps k blank_profile).profile_id ≡ id
  pub at : profile_of ps id ≡ some (get_or ps k blank_profile)
  pub here : get_elem? ps k ≡ some (get_or ps k blank_profile)

pub find_profile-IsAt :
    (ps : List StoredProfile) (id : List ℕ) (k : ℕ) → find_profile ps id ≡ some k → IsAt ps id k
unfolding find_profile profile_of
find_profile-IsAt [] id k e = absurd (ground arith)
find_profile-IsAt (p ∷ ps) id zero e =
    let same : same_text p.profile_id id ≡ true = ground arith in
    record {
      bound = omega arith;
      has = (same_text_iff p.profile_id id).0 same;
      at = ground arith;
      here = refl;
    }
find_profile-IsAt (p ∷ ps) id (suc k) e =
    let other : same_text p.profile_id id ≡ false = ground arith in
    let i = find_profile-IsAt ps id k (ground arith) in
    record { bound = omega (arith, i.bound); has = i.has; at = ground (arith, i.at); here = i.here }

pub find_profile-none :
    (ps : List StoredProfile) (id : List ℕ) → find_profile ps id ≡ none → profile_of ps id ≡ none
unfolding find_profile profile_of
find_profile-none [] id e = refl
find_profile-none (p ∷ ps) id e = ground (arith, find_profile-none ps id)

pub find_profile_of_none :
    (ps : List StoredProfile) (id : List ℕ) → profile_of ps id ≡ none → find_profile ps id ≡ none
unfolding find_profile profile_of
find_profile_of_none [] id e = refl
find_profile_of_none (p ∷ ps) id e = ground (arith, find_profile_of_none ps id)

-- A profile is replaced by one with its identifier.
pub profile_of-set_elem :
    (ps : List StoredProfile) (id j : List ℕ) (k : ℕ) (q : StoredProfile)
    → find_profile ps id ≡ some k
    → q.profile_id ≡ id
    → profile_of (set_elem ps k q) j ≡ (if same_text id j then some q else profile_of ps j)
unfolding find_profile profile_of
profile_of-set_elem [] id j k q e same = absurd (ground arith)
profile_of-set_elem (p ∷ ps) id j zero q e same =
    let mine : p.profile_id ≡ id = (same_text_iff p.profile_id id).0 (ground arith) in
    rw (same, mine) (ground arith)
profile_of-set_elem (p ∷ ps) id j (suc k) q e same =
    let ih = profile_of-set_elem ps id j k q (ground arith) same in
    let other : same_text p.profile_id id ≡ false = ground arith in
    let apart = same_text-apart p.profile_id id j other in
    ground (arith, ih, apart, same_text_iff p.profile_id j, same_text_iff id j)

pub profile_of-append :
    (ps : List StoredProfile) (j : List ℕ) (q : StoredProfile)
    → find_profile ps q.profile_id ≡ none
    → profile_of (ps ++ q ∷ []) j ≡ (if same_text q.profile_id j then some q else profile_of ps j)
unfolding find_profile profile_of
profile_of-append [] j q e = refl
profile_of-append (p ∷ ps) j q e =
    let ih = profile_of-append ps j q (ground arith) in
    let other : same_text p.profile_id q.profile_id ≡ false = ground arith in
    let apart = same_text-apart p.profile_id q.profile_id j other in
    ground (arith, ih, apart, same_text_iff p.profile_id j, same_text_iff q.profile_id j)

-- No identifier stands twice.
abbrev pub Distinct : List StoredProfile → Type 0
Distinct [] = Unit {0}
Distinct (p ∷ ps) = (profile_of ps p.profile_id ≡ none) × Distinct ps

profile_of-seen :
    (seen ps : List StoredProfile) (id : List ℕ)
    → valid_profiles seen ps ≡ true
    → has_id seen id ≡ true
    → profile_of ps id ≡ none
unfolding valid_profiles has_id profile_of
profile_of-seen seen [] id ok is = refl
profile_of-seen seen (p ∷ ps) id ok is =
    let ih = profile_of-seen (p ∷ seen) ps id (ground arith) (ground (arith, is)) in
    let fresh : has_id seen p.profile_id ≡ false = ground arith in
    let same = λ (e : p.profile_id ≡ id). sym fresh ∙ ap (λ x. has_id seen x) e ∙ is in
    ground (arith, ih, same, same_text_iff p.profile_id id)

pub valid_profiles-Distinct :
    (seen ps : List StoredProfile) → valid_profiles seen ps ≡ true → Distinct ps
unfolding valid_profiles has_id
valid_profiles-Distinct seen [] ok = tt
valid_profiles-Distinct seen (p ∷ ps) ok =
    let others : valid_profiles (p ∷ seen) ps ≡ true = ground arith in
    let here = same_text_refl p.profile_id in
    (
      profile_of-seen (p ∷ seen) ps p.profile_id others (ground (arith, here)),
      valid_profiles-Distinct (p ∷ seen) ps others,
    )

pub profile_of-remove_at :
    (ps : List StoredProfile) (id j : List ℕ) (k : ℕ)
    → find_profile ps id ≡ some k
    → Distinct ps
    → profile_of (remove_at ps k) j ≡ (if same_text id j then none else profile_of ps j)
unfolding find_profile profile_of remove_at
profile_of-remove_at [] id j k e d = absurd (ground arith)
profile_of-remove_at (p ∷ ps) id j zero e (fresh, d) =
    let mine : p.profile_id ≡ id = (same_text_iff p.profile_id id).0 (ground arith) in
    let none_left = λ (a : id ≡ j). ap (λ x. profile_of ps x) (sym (mine ∙ a)) ∙ fresh in
    rw mine (ground (arith, none_left, same_text_iff id j))
profile_of-remove_at (p ∷ ps) id j (suc k) e (fresh, d) =
    let ih = profile_of-remove_at ps id j k (ground arith) d in
    let other : same_text p.profile_id id ≡ false = ground arith in
    let apart = same_text-apart p.profile_id id j other in
    ground (arith, ih, apart, same_text_iff p.profile_id j, same_text_iff id j)

-- Where a profile is removed, those before it stay and those behind it move.
pub get_elem?-remove_at :
    (ps : List StoredProfile) (k i : ℕ)
    → (i < k → get_elem? (remove_at ps k) i ≡ get_elem? ps i)
      × (k < suc i → get_elem? (remove_at ps k) i ≡ get_elem? ps (suc i))
unfolding remove_at
get_elem?-remove_at [] k i = (λ h. refl, λ h. refl)
get_elem?-remove_at (p ∷ ps) zero i = (λ h. absurd (omega arith), λ h. refl)
get_elem?-remove_at (p ∷ ps) (suc k) zero = (λ h. refl, λ h. absurd (omega arith))
get_elem?-remove_at (p ∷ ps) (suc k) (suc i) =
    let (before, behind) = get_elem?-remove_at ps k i in
    (λ h. before (omega arith), λ h. behind (omega arith))

pub length-remove_at :
    (ps : List StoredProfile) (k : ℕ) → k < length ps → suc (length (remove_at ps k)) ≡ length ps
unfolding remove_at
length-remove_at [] k h = absurd (omega arith)
length-remove_at (p ∷ ps) zero h = refl
length-remove_at (p ∷ ps) (suc k) h = omega (arith, length-remove_at ps k)
