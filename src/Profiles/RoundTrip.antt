-- ===== src/Profiles/RoundTrip.antt =====
-- Every valid set of profiles is encoded, in bounded room, and reads back (deck_companion_profiles.cpp).
use mathlib.Core.List.{append_assoc, append-nil}
use s3_rlcd_deck.Base.{
  ℕ, ◌+◌, ◌*◌, ◌%◌, ◌^◌, ◌≤◌, ◌≡◌, ◌∙◌, ap, refl, true, some, List, [], ◌∷◌, ◌++◌, length,
  length-append, arith,
}
use s3_rlcd_deck.Profiles.Codec.{
  StoredProfile, StoredSet, valid_set, valid_profiles, encode_profiles, encode_set, decode_profiles,
  decode_set, max_profiles, validate_payload,
}
use s3_rlcd_deck.Profiles.Encoding.{
  AllTyped, IsProfile, valid_profile-IsProfile, profile_bytes, profile_room, length-profile_bytes,
  encode_profile_lem, decode_profile_lem,
}

-- The bytes of several profiles, before others.
unfoldable set_bytes : List StoredProfile → List ℕ → List ℕ
set_bytes [] rest = rest
set_bytes (p ∷ ps) rest = profile_bytes p (set_bytes ps rest)

abbrev AllProfiles : List StoredProfile → Type 0
AllProfiles [] = Unit {0}
AllProfiles (p ∷ ps) = IsProfile p × AllProfiles ps

profile_bytes-append :
    (p : StoredProfile) (rest : List ℕ) → profile_bytes p [] ++ rest ≡ profile_bytes p rest
unfolding profile_bytes
profile_bytes-append p rest = simp append_assoc

encode_profiles_lem :
    (capacity : ℕ) (output : List ℕ) (ps : List StoredProfile)
    → AllProfiles ps
    → length output + length ps * profile_room ≤ capacity
    → encode_profiles capacity output ps ≡ some (output ++ set_bytes ps [])
unfolding encode_profiles set_bytes
encode_profiles_lem capacity output [] i room = ap (λ l. some l) (simp append-nil)
encode_profiles_lem capacity output (p ∷ ps) (i, is) room =
    let longer = output ++ profile_bytes p [] in
    let size = length-profile_bytes p i [] in
    let count = length-append output (profile_bytes p []) in
    let first = encode_profile_lem p i capacity output (omega arith) in
    let others = encode_profiles_lem capacity longer ps is (omega arith) in
    rw (first, others)
      (ap (λ l. some l)
        (append_assoc output (profile_bytes p []) (set_bytes ps [])
          ∙ ap (λ l. output ++ l) (profile_bytes-append p (set_bytes ps []))))

length-set_bytes :
    (ps : List StoredProfile) → AllProfiles ps → length (set_bytes ps []) ≤ length ps * profile_room
unfolding set_bytes
length-set_bytes [] i = omega arith
length-set_bytes (p ∷ ps) (i, is) =
    omega (arith, length-profile_bytes p i (set_bytes ps []), length-set_bytes ps is)

decode_profiles_lem :
    (ps : List StoredProfile) (rest : List ℕ)
    → AllProfiles ps
    → AllTyped ps
    → decode_profiles (length ps) (set_bytes ps rest) ≡ some (ps, rest)
unfolding decode_profiles set_bytes
decode_profiles_lem [] rest i t = refl
decode_profiles_lem (p ∷ ps) rest (i, is) (t, ts) =
    rw (decode_profile_lem p i (set_bytes ps rest) t, decode_profiles_lem ps rest is ts) refl

valid_profiles-AllProfiles :
    (seen ps : List StoredProfile) → valid_profiles seen ps ≡ true → AllProfiles ps
unfolding valid_profiles
valid_profiles-AllProfiles seen [] h = tt
valid_profiles-AllProfiles seen (p ∷ ps) h = (
  valid_profile-IsProfile p (ground arith),
  valid_profiles-AllProfiles (p ∷ seen) ps (ground arith),
)

valid_set-parts :
    (set : StoredSet)
    → valid_set set ≡ true
    → (length set.profiles ≤ max_profiles) × (set.active_index ≤ 255) × AllProfiles set.profiles
unfolding valid_set
valid_set-parts set h =
    (ground arith, ground arith, valid_profiles-AllProfiles [] set.profiles (ground arith))

-- Every valid set whose numbers are those of their C types is encoded, in at most 7,097 bytes, where
-- there is room for those; the bytes read back as the same set, and the store accepts them.
pub decode_set-encode_set :
    (set : StoredSet) (capacity : ℕ)
    → valid_set set ≡ true
    → AllTyped set.profiles
    → 7097 ≤ capacity
    → (payload : List ℕ) × (encode_set set capacity ≡ some payload)
      × (length payload ≤ 7097)
      × (decode_set payload ≡ some set)
      × (validate_payload payload ≡ true)
unfolding encode_set decode_set validate_payload
decode_set-encode_set set capacity ok typed room =
    let ps = set.profiles in
    let (few, index, all) = valid_set-parts set ok in
    let head : List ℕ = (length ps % 2 ^ 8) ∷ (set.active_index % 2 ^ 8) ∷ [] in
    let payload = head ++ set_bytes ps [] in
    let size = length-set_bytes ps all in
    let encoded = encode_profiles_lem capacity head ps all (omega arith) in
    let count : length ps % 2 ^ 8 ≡ length ps = omega arith in
    let active : set.active_index % 2 ^ 8 ≡ set.active_index = omega arith in
    let profiles = decode_profiles_lem ps [] all typed in
    let same : decode_set payload ≡ some set = rw (count, active, profiles) (ground (arith, ok)) in
    (payload, ground (arith, encoded, ok), omega arith, same, ground (arith, same))
