-- ===== src/Wifi/Credentials.antt =====
-- The credentials of deck_wifi_config.cpp and their encoding. An array of char is the list of its
-- bytes, and those past the end of the list are zero; so a C string ends there at the latest.
use s3_rlcd_deck.Base.{
  ℕ, ◌+◌, ◌-◌, Bool, true, false, not, ◌&&◌, ◌||◌, Option, none, some, List, [], ◌∷◌, ◌++◌, ltb,
  leb, ◌==◌, ◌!=◌, if◌then◌else◌, length, get_or, take, drop,
}
use s3_rlcd_deck.Setup.Confirmation.{strnlen}

abbrev pub ssid_capacity : ℕ
ssid_capacity = 33

abbrev pub password_capacity : ℕ
password_capacity = 64

abbrev pub payload_header_size : ℕ
payload_header_size = 2

pub record Credentials : Type 0 where
  pub ssid : List ℕ
  pub password : List ℕ

abbrev pub cleared : Credentials
cleared = record { ssid = []; password = [] }

-- Printable bytes, and those of UTF-8 texts.
unfoldable pub all_printable : List ℕ → Bool
all_printable [] = true
all_printable (byte ∷ bytes) = not (ltb byte 0x20 || byte == 0x7f) && all_printable bytes

-- The size of a valid text.
unfoldable pub valid_text : List ℕ → ℕ → ℕ → ℕ → Option ℕ
valid_text value capacity minimum maximum =
    let length' = strnlen value capacity in
    if length' == capacity || ltb length' minimum || ltb maximum length'
    then none
    else if all_printable (take length' value)
    then some length'
    else none

-- The size of a valid password, which is empty on an open network.
unfoldable pub valid_password : List ℕ → Option ℕ
valid_password password =
    let length' = strnlen password password_capacity in
    if length' == password_capacity
      || length' != 0 && (ltb length' 8 || ltb (password_capacity - 1) length')
    then none
    else if all_printable (take length' password)
    then some length'
    else none

abbrev pub both : Option ℕ → Option ℕ → Option (ℕ × ℕ)
both (some m) (some n) = some (m, n)
both _ _ = none

unfoldable pub valid_credentials : Credentials → Option (ℕ × ℕ)
valid_credentials c =
    both (valid_text c.ssid ssid_capacity 1 (ssid_capacity - 1)) (valid_password c.password)

-- The bytes up to the encoded size; `none` where the code answers 0.
unfoldable pub encode_credentials : Credentials → Option (List ℕ)
encode_credentials c = elim (valid_credentials c) [
  | none ↦ none
  | some (ssid_size, password_size) ↦
      some (ssid_size ∷ password_size ∷ (take ssid_size c.ssid ++ take password_size c.password))
]

abbrev pub has_sizes : Option (ℕ × ℕ) → ℕ → ℕ → Bool
has_sizes none m n = false
has_sizes (some (a, b)) m n = a == m && b == n

unfoldable pub decode_credentials : List ℕ → Option Credentials
decode_credentials payload =
    let ssid_size = get_or payload 0 0 in
    let password_size = get_or payload 1 0 in
    let c : Credentials = record {
      ssid = take ssid_size (drop payload_header_size payload);
      password = drop (payload_header_size + ssid_size) payload;
    } in
    if ltb (length payload) payload_header_size
      || ssid_size == 0
      || leb ssid_capacity ssid_size
      || leb password_capacity password_size
      || password_size != 0 && ltb password_size 8
      || payload_header_size + ssid_size + password_size != length payload
    then none
    else if has_sizes (valid_credentials c) ssid_size password_size
    then some c
    else none

abbrev pub is_some : Option Credentials → Bool
is_some none = false
is_some (some c) = true

unfoldable pub validate_payload : List ℕ → Bool
validate_payload payload = is_some (decode_credentials payload)
