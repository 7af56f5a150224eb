-- ===== src/Profiles/Sets.antt =====
-- The sets that the calls of deck_companion_profiles.cpp make of the one that they load. A string is
-- a C string, and what a request or a credential holds are arrays.
use s3_rlcd_deck.Base.{
  ℕ, zero, suc, ◌-◌, Bool, true, false, ◌&&◌, Option, none, some, List, [], ◌∷◌, ◌++◌, ltb, leb,
  ◌==◌, ◌!=◌, if◌then◌else◌, length, get_or, take, set_elem, replicate, same_text,
}
use s3_rlcd_deck.Base.Int.{ℤ, pos}
use s3_rlcd_deck.Profiles.Text.{
  c_text, terminated, valid_base64url, valid_fingerprint, address_port, PeerScan,
  valid_pairing_address, profile_id_capacity, display_name_capacity, hub_address_capacity,
  token_capacity, fingerprint_capacity,
}
use s3_rlcd_deck.Profiles.Codec.{
  StoredProfile, StoredSet, profile_version, no_active_profile, certificate_der_capacity,
}

abbrev pub protocol_version : ℕ
protocol_version = 1

pub record Credential : Type 0 where
  pub token : List ℕ
  pub certificate_fingerprint : List ℕ
  pub certificate_der : List ℕ
  pub certificate_der_size : ℕ
  pub protocol_version : ℕ

pub record PairRequest : Type 0 where
  pub hub_address : List ℕ
  pub pairing_address : List ℕ
  pub code : List ℕ

-- The index of the first profile with this identifier; `none` for -1.
abbrev pub index_behind : Bool → Option ℕ → Option ℕ
index_behind true later = some 0
index_behind false none = none
index_behind false (some index) = some (suc index)

unfoldable pub find_profile : List StoredProfile → List ℕ → Option ℕ
find_profile [] profile_id = none
find_profile (p ∷ profiles) profile_id =
    index_behind (same_text p.profile_id profile_id) (find_profile profiles profile_id)

abbrev pub empty_set : StoredSet
empty_set = record { active_index = no_active_profile; profiles = [] }

abbrev pub blank_profile : StoredProfile
blank_profile = record {
  version = 0;
  profile_id = [];
  display_name = [];
  hub_address = [];
  token = [];
  certificate_fingerprint = [];
  certificate_der = [];
  priority = pos 0;
  last_success_unix_ms = 0;
}

abbrev pub profile_at : StoredSet → ℕ → StoredProfile
profile_at set found = get_or set.profiles found blank_profile

-- The sets that the calls commit, for the profile that was found.
abbrev pub newer : ℕ → StoredProfile → StoredProfile
newer unix_ms profile =
    if ltb profile.last_success_unix_ms unix_ms
    then record profile { last_success_unix_ms = unix_ms }
    else profile

unfoldable pub field_set : StoredSet → ℕ → ℤ → ℕ → Bool → StoredSet
field_set set found priority unix_ms update_priority =
    let profile = profile_at set found in
    let changed =
      if update_priority then record profile { priority = priority } else newer unix_ms profile in
    record set { profiles = set_elem set.profiles found changed }

unfoldable pub selected_set : StoredSet → ℕ → StoredSet
selected_set set found = record set { active_index = found }

unfoldable pub activated_set : StoredSet → ℕ → ℕ → StoredSet
activated_set set found unix_ms = record {
  active_index = found;
  profiles = set_elem set.profiles found (newer unix_ms (profile_at set found));
}

-- The later profiles move down by one.
unfoldable pub remove_at : List StoredProfile → ℕ → List StoredProfile
remove_at [] index = []
remove_at (p ∷ profiles) zero = profiles
remove_at (p ∷ profiles) (suc index) = p ∷ remove_at profiles index

unfoldable pub revoked_set : StoredSet → ℕ → StoredSet
revoked_set set removed =
    let profiles = remove_at set.profiles removed in
    record {
      active_index =
          if length profiles == 0
          then no_active_profile
          else if set.active_index == removed
          then 0
          else if ltb removed set.active_index
          then set.active_index - 1
          else set.active_index;
      profiles = profiles;
    }

-- The first bytes of an array.
abbrev pub array_prefix : ℕ → List ℕ → List ℕ
array_prefix size bytes = take size (bytes ++ replicate size 0)

-- The profile of a credential, over the one that was at its place: the array past `count` is zero.
unfoldable pub paired_profile : StoredProfile → PairRequest → Credential → StoredProfile
paired_profile previous request credential = record {
  version = profile_version;
  profile_id = c_text credential.certificate_fingerprint;
  display_name = c_text request.hub_address;
  hub_address = c_text request.hub_address;
  token = c_text credential.token;
  certificate_fingerprint = c_text credential.certificate_fingerprint;
  certificate_der = array_prefix credential.certificate_der_size credential.certificate_der;
  priority = previous.priority;
  last_success_unix_ms = previous.last_success_unix_ms;
}

abbrev pub place_of : StoredSet → Option ℕ → ℕ
place_of set none = length set.profiles
place_of set (some found) = found

abbrev pub with_profile : List StoredProfile → Option ℕ → StoredProfile → List StoredProfile
with_profile profiles none profile = profiles ++ profile ∷ []
with_profile profiles (some found) profile = set_elem profiles found profile

unfoldable pub paired_set : StoredSet → Option ℕ → PairRequest → Credential → StoredSet
paired_set set found request credential =
    let place = place_of set found in
    record {
      active_index = place;
      profiles =
          with_profile set.profiles found
            (paired_profile (profile_at set place) request credential);
    }

unfoldable pub credential_valid : Credential → Bool
credential_valid credential =
    let token = c_text credential.token in
    let fingerprint = c_text credential.certificate_fingerprint in
    terminated token token_capacity
    && terminated fingerprint fingerprint_capacity
    && valid_base64url token 43
    && valid_fingerprint fingerprint
    && credential.certificate_der_size != 0
    && leb credential.certificate_der_size certificate_der_capacity
    && credential.protocol_version == protocol_version

-- The strings of the request and the credential fit the profile's arrays.
unfoldable pub copied : PairRequest → Credential → Bool
copied request credential =
    ltb (length (c_text credential.certificate_fingerprint)) profile_id_capacity
    && ltb (length (c_text request.hub_address)) display_name_capacity
    && ltb (length (c_text request.hub_address)) hub_address_capacity
    && ltb (length (c_text credential.token)) token_capacity
    && ltb (length (c_text credential.certificate_fingerprint)) fingerprint_capacity

abbrev pub port_of : Option ℕ → ℕ
port_of none = 0
port_of (some port) = port

abbrev pub is_some : Option ℕ → Bool
is_some none = false
is_some (some port) = true

unfoldable pub addresses_valid : PeerScan → PairRequest → Bool
addresses_valid scan request =
    let hub_address = c_text request.hub_address in
    let pairing_address = c_text request.pairing_address in
    let hub_port = address_port hub_address in
    terminated hub_address hub_address_capacity
    && terminated pairing_address hub_address_capacity
    && is_some hub_port
    && valid_pairing_address scan pairing_address (port_of hub_port)
