-- ===== src/Profiles/Codec.antt =====
-- The stored set of profiles and its bytes (deck_companion_profiles.cpp). A char array of a stored
-- profile is its C string, and the arrays past `count` are zero, so the list holds `count` profiles.
-- The output is the list of the bytes written so far, and the input of those not yet read.
use s3_rlcd_deck.Base.{
  ℕ, zero, suc, ◌+◌, ◌-◌, ◌*◌, ◌/◌, ◌%◌, ◌^◌, Bool, true, false, not, ◌&&◌, ◌||◌, Option, none,
  some, List, [], ◌∷◌, ◌++◌, ltb, leb, ◌==◌, ◌!=◌, if◌then◌else◌, length, get_or, take, drop,
  same_text,
}
use s3_rlcd_deck.Base.Int.{ℤ, pos, negsuc}
use s3_rlcd_deck.Ota.Version.{◌>>=◌}
use s3_rlcd_deck.Storage.Bytes.{read_u32_at, write_u32}
use s3_rlcd_deck.Profiles.Text.{
  c_text, terminated, safe_ascii, valid_base64url, valid_fingerprint, valid_address,
  profile_id_capacity, display_name_capacity, hub_address_capacity, token_capacity,
  fingerprint_capacity,
}

abbrev pub profile_version : ℕ
profile_version = 1

abbrev pub max_profiles : ℕ
max_profiles = 5

abbrev pub no_active_profile : ℕ
no_active_profile = 255

abbrev pub certificate_der_capacity : ℕ
certificate_der_capacity = 1024

-- The size of the certificate is that of its list.
pub record StoredProfile : Type 0 where
  pub version : ℕ
  pub profile_id : List ℕ
  pub display_name : List ℕ
  pub hub_address : List ℕ
  pub token : List ℕ
  pub certificate_fingerprint : List ℕ
  pub certificate_der : List ℕ
  pub priority : ℤ
  pub last_success_unix_ms : ℕ

pub record StoredSet : Type 0 where
  pub active_index : ℕ
  pub profiles : List StoredProfile

-- `static_cast<int32_t>(value)`.
unfoldable pub to_signed : ℕ → ℤ
to_signed value = if ltb value (2 ^ 31) then pos value else negsuc (2 ^ 32 - 1 - value)

-- `static_cast<uint32_t>(value)`.
unfoldable pub to_unsigned : ℤ → ℕ
to_unsigned (pos n) = n % 2 ^ 32
to_unsigned (negsuc n) = 2 ^ 32 - 1 - n % 2 ^ 32

abbrev pub write_u16 : ℕ → List ℕ
write_u16 value = (value % 2 ^ 8) ∷ (value / 2 ^ 8 % 2 ^ 8) ∷ []

abbrev pub read_u16 : List ℕ → ℕ
read_u16 input = (get_or input 0 0 + get_or input 1 0 * 2 ^ 8) % 2 ^ 16

-- The loop, written out.
abbrev pub write_u64 : ℕ → List ℕ
write_u64 value = write_u32 (value % 2 ^ 32) ++ write_u32 (value / 2 ^ 32)

abbrev pub read_u64_at : List ℕ → ℕ → ℕ
read_u64_at input offset = read_u32_at input offset + read_u32_at input (offset + 4) * 2 ^ 32

unfoldable pub append_string : ℕ → List ℕ → List ℕ → ℕ → Option (List ℕ)
append_string capacity output value value_capacity =
    if not (terminated value value_capacity)
      || ltb 255 (length value)
      || ltb capacity (length output + 1 + length value)
    then none
    else some (output ++ length value ∷ value)

-- A text that was read, and the input behind it.
unfoldable pub read_string : List ℕ → ℕ → Option (List ℕ × List ℕ)
read_string [] capacity = none
read_string (value_size ∷ input) capacity =
    if leb capacity value_size || ltb (length input) value_size
    then none
    else some (c_text (take value_size input), drop value_size input)

unfoldable pub append_bytes : ℕ → List ℕ → List ℕ → Option (List ℕ)
append_bytes capacity output value =
    if length value == 0
      || ltb 65535 (length value)
      || ltb capacity (length output + 2 + length value)
    then none
    else some (output ++ write_u16 (length value) ++ value)

unfoldable pub read_bytes : List ℕ → ℕ → Option (List ℕ × List ℕ)
read_bytes input capacity =
    let decoded_size = read_u16 input in
    let behind = drop 2 input in
    if ltb (length input) 2
      || decoded_size == 0
      || ltb capacity decoded_size
      || ltb (length behind) decoded_size
    then none
    else some (take decoded_size behind, drop decoded_size behind)

unfoldable pub valid_profile : StoredProfile → Bool
valid_profile profile =
    profile.version == profile_version
    && valid_fingerprint profile.profile_id
    && safe_ascii profile.display_name display_name_capacity false
    && valid_address profile.hub_address
    && terminated profile.token token_capacity
    && valid_base64url profile.token 43
    && valid_fingerprint profile.certificate_fingerprint
    && length profile.certificate_der != 0
    && leb (length profile.certificate_der) certificate_der_capacity
    && same_text profile.profile_id profile.certificate_fingerprint

-- One of the profiles has this identifier.
unfoldable pub has_id : List StoredProfile → List ℕ → Bool
has_id [] profile_id = false
has_id (p ∷ profiles) profile_id = same_text profile_id p.profile_id || has_id profiles profile_id

-- The loop over the profiles, behind those in `seen`.
unfoldable pub valid_profiles : List StoredProfile → List StoredProfile → Bool
valid_profiles seen [] = true
valid_profiles seen (p ∷ profiles) =
    valid_profile p && not (has_id seen p.profile_id) && valid_profiles (p ∷ seen) profiles

unfoldable pub valid_set : StoredSet → Bool
valid_set set =
    let count = length set.profiles in
    if ltb max_profiles count
      || count == 0 && set.active_index != no_active_profile
      || count != 0 && leb count set.active_index
    then false
    else valid_profiles [] set.profiles

unfoldable pub profile_head : StoredProfile → List ℕ
profile_head p =
    (p.version % 2 ^ 8) ∷ (write_u32 (to_unsigned p.priority) ++ write_u64 p.last_success_unix_ms)

unfoldable pub encode_profile : ℕ → List ℕ → StoredProfile → Option (List ℕ)
encode_profile capacity output p = if ltb capacity (length output + 13) then none else do
  a ← append_string capacity (output ++ profile_head p) p.profile_id profile_id_capacity
  b ← append_string capacity a p.display_name display_name_capacity
  c ← append_string capacity b p.hub_address hub_address_capacity
  d ← append_string capacity c p.token token_capacity
  e ← append_string capacity d p.certificate_fingerprint fingerprint_capacity
  append_bytes capacity e p.certificate_der

unfoldable pub encode_profiles : ℕ → List ℕ → List StoredProfile → Option (List ℕ)
encode_profiles capacity output [] = some output
encode_profiles capacity output (p ∷ profiles) = do
  longer ← encode_profile capacity output p
  encode_profiles capacity longer profiles

-- `none` where the code answers 0.
unfoldable pub encode_set : StoredSet → ℕ → Option (List ℕ)
encode_set set capacity =
    if ltb capacity 2 || not (valid_set set)
    then none
    else encode_profiles capacity ((length set.profiles % 2 ^ 8) ∷ (set.active_index % 2 ^ 8) ∷ [])
        set.profiles

unfoldable pub decode_profile : List ℕ → Option (StoredProfile × List ℕ)
decode_profile input = if ltb (length input) 13 then none else do
  (profile_id, a) ← read_string (drop 13 input) profile_id_capacity
  (display_name, b) ← read_string a display_name_capacity
  (hub_address, c) ← read_string b hub_address_capacity
  (token, d) ← read_string c token_capacity
  (fingerprint, e) ← read_string d fingerprint_capacity
  (der, f) ← read_bytes e certificate_der_capacity
  let profile : StoredProfile = record {
    version = get_or input 0 0;
    profile_id = profile_id;
    display_name = display_name;
    hub_address = hub_address;
    token = token;
    certificate_fingerprint = fingerprint;
    certificate_der = der;
    priority = to_signed (read_u32_at input 1);
    last_success_unix_ms = read_u64_at input 5;
  }
  some (profile, f)

unfoldable pub decode_profiles : ℕ → List ℕ → Option (List StoredProfile × List ℕ)
decode_profiles zero input = some ([], input)
decode_profiles (suc count) input = do
  (p, behind) ← decode_profile input
  (profiles, left) ← decode_profiles count behind
  some (p ∷ profiles, left)

abbrev pub whole_set : StoredSet → List ℕ → Option StoredSet
whole_set set left = if length left == 0 && valid_set set then some set else none

unfoldable pub decode_set : List ℕ → Option StoredSet
decode_set input =
    let count = get_or input 0 0 in
    if ltb (length input) 2 || ltb max_profiles count then none else do
      (profiles, left) ← decode_profiles count (drop 2 input)
      whole_set (record { active_index = get_or input 1 0; profiles = profiles }) left

abbrev pub is_set : Option StoredSet → Bool
is_set none = false
is_set (some set) = true

unfoldable pub validate_payload : List ℕ → Bool
unfolding decode_set
validate_payload payload = is_set (decode_set payload)
