-- ===== src/Profiles/Text.antt =====
-- The texts of deck_companion_profiles.cpp: identifiers, tokens, addresses and pairing codes. A C
-- string is the list of its bytes before the NUL, and an array of char the list of all its bytes.
use s3_rlcd_deck.Base.{
  ℕ, suc, ◌+◌, ◌-◌, ◌*◌, ◌%◌, ◌^◌, Bool, true, false, not, ◌&&◌, ◌||◌, Option, none, some, List, [],
  ◌∷◌, ltb, leb, ◌==◌, ◌!=◌, if◌then◌else◌, length, get_or, take, drop, same_text,
}

abbrev pub profile_id_capacity : ℕ
profile_id_capacity = 72

abbrev pub display_name_capacity : ℕ
display_name_capacity = 96

abbrev pub hub_address_capacity : ℕ
hub_address_capacity = 96

abbrev pub token_capacity : ℕ
token_capacity = 44

abbrev pub fingerprint_capacity : ℕ
fingerprint_capacity = 72

abbrev pub pairing_code_capacity : ℕ
pairing_code_capacity = 7

-- The C string in an array: as long as the array where that has no NUL.
unfoldable pub c_text : List ℕ → List ℕ
c_text [] = []
c_text (byte ∷ bytes) = if byte == 0 then [] else byte ∷ c_text bytes

-- `memchr(value, '\0', capacity)` finds one.
abbrev pub terminated : List ℕ → ℕ → Bool
terminated text capacity = ltb (length text) capacity

-- The test passes at each byte.
unfoldable pub every : (ℕ → Bool) → List ℕ → Bool
every test [] = true
every test (byte ∷ bytes) = test byte && every test bytes

abbrev pub within : ℕ → ℕ → ℕ → Bool
within low high byte = leb low byte && leb byte high

unfoldable pub is_visible : ℕ → Bool
is_visible byte = not (ltb byte 0x21 || ltb 0x7e byte)

unfoldable pub safe_ascii : List ℕ → ℕ → Bool → Bool
safe_ascii value capacity allow_empty =
    terminated value capacity
    && not (not allow_empty && length value == 0)
    && every is_visible value

unfoldable pub is_base64url : ℕ → Bool
is_base64url byte =
    within b'A' b'Z' byte
    || within b'a' b'z' byte
    || within b'0' b'9' byte
    || byte == b'_'
    || byte == b'-'

unfoldable pub valid_base64url : List ℕ → ℕ → Bool
valid_base64url value expected_size = length value == expected_size && every is_base64url value

-- "sha256:"
abbrev pub fingerprint_prefix : List ℕ
fingerprint_prefix = b's' ∷ b'h' ∷ b'a' ∷ b'2' ∷ b'5' ∷ b'6' ∷ b':' ∷ []

unfoldable pub is_hex : ℕ → Bool
is_hex byte = within b'0' b'9' byte || within b'a' b'f' byte

unfoldable pub valid_fingerprint : List ℕ → Bool
valid_fingerprint value =
    length value == 71 && same_text (take 7 value) fingerprint_prefix && every is_hex (drop 7 value)

unfoldable pub is_digit : ℕ → Bool
is_digit byte = within b'0' b'9' byte

unfoldable pub valid_code : List ℕ → Bool
valid_code code =
    terminated code pairing_code_capacity
    && length code == pairing_code_capacity - 1
    && every is_digit code

unfoldable pub valid_profile_id_argument : List ℕ → Bool
valid_profile_id_argument profile_id =
    terminated profile_id profile_id_capacity && valid_fingerprint profile_id

unfoldable pub valid_host_character : Bool → ℕ → Bool
valid_host_character ipv6 byte =
    within b'a' b'z' byte
    || within b'A' b'Z' byte
    || within b'0' b'9' byte
    || byte == b'.'
    || byte == b'-'
    || ipv6 && (byte == b':' || byte == b'%' || byte == b'_')

abbrev pub next_index : Option ℕ → Option ℕ
next_index none = none
next_index (some index) = some (suc index)

-- `strchr(value, byte) - value`.
unfoldable pub strchr : List ℕ → ℕ → Option ℕ
strchr [] byte = none
strchr (b ∷ value) byte = if b == byte then some 0 else next_index (strchr value byte)

abbrev pub later_of : Bool → Option ℕ → Option ℕ
later_of here (some index) = some (suc index)
later_of here none = if here then some 0 else none

-- `strrchr(value, byte) - value`.
unfoldable pub strrchr : List ℕ → ℕ → Option ℕ
strrchr [] byte = none
strrchr (b ∷ value) byte = later_of (b == byte) (strrchr value byte)

-- The host and the port of an address, where it has the brackets and the colon that it needs; the
-- flag tells an IPv6 address.
pub record Parts : Type 0 where
  pub ipv6 : Bool
  pub host : List ℕ
  pub port : List ℕ

abbrev pub bracketed_parts : List ℕ → Option ℕ → Option Parts
bracketed_parts address none = none
bracketed_parts address (some closing) =
    if closing == 1 || get_or address (closing + 1) 0 != b':'
    then none
    else some (record {
      ipv6 = true;
      host = take (closing - 1) (drop 1 address);
      port = drop (closing + 2) address;
    })

abbrev pub plain_parts : List ℕ → Option ℕ → Option ℕ → Option Parts
plain_parts address (some colon) (some first) =
    if colon == 0 || first != colon
    then none
    else some (record { ipv6 = false; host = take colon address; port = drop (colon + 1) address })
plain_parts address _ _ = none

unfoldable pub address_parts : List ℕ → Option Parts
address_parts address =
    if get_or address 0 0 == b'['
    then bracketed_parts address (strchr address b']')
    else plain_parts address (strrchr address b':') (strchr address b':')

-- The port loop: the number so far, then the bytes left; `none` where the address is refused.
unfoldable pub read_port : ℕ → List ℕ → Option ℕ
read_port port [] = some port
read_port port (byte ∷ bytes) =
    let next = port * 10 + (byte - b'0') in
    if not (is_digit byte) || ltb 65535 next then none else read_port next bytes

abbrev pub is_port : Option ℕ → Bool
is_port none = false
is_port (some port) = port != 0

abbrev pub valid_parts : Option Parts → Bool
valid_parts none = false
valid_parts (some parts) =
    length parts.port != 0
    && every (valid_host_character parts.ipv6) parts.host
    && is_port (read_port 0 parts.port)

unfoldable pub valid_address : List ℕ → Bool
valid_address address =
    safe_ascii address hub_address_capacity false && valid_parts (address_parts address)

-- The loop of `address_port`: a uint32_t, which it makes of digits that were checked before.
unfoldable pub port_value : ℕ → List ℕ → ℕ
port_value port [] = port
port_value port (byte ∷ bytes) = port_value ((port * 10 + (byte - b'0')) % 2 ^ 32) bytes

abbrev pub port_behind : List ℕ → Option ℕ → Option ℕ
port_behind address none = none
port_behind address (some separator) = some (port_value 0 (drop (separator + 1) address) % 2 ^ 16)

-- `none` where the code answers false. An address that is valid has a colon.
unfoldable pub address_port : List ℕ → Option ℕ
address_port address =
    if valid_address address then port_behind address (strrchr address b':') else none

-- `sscanf(address, "192.168.4.%u:%*u%n", &octet, &consumed)` of the C library, where it answers 1:
-- the octet, and how many bytes it has read.
abbrev pub PeerScan : Type 0
PeerScan = List ℕ → Option (ℕ × ℕ)

abbrev pub is_peer : List ℕ → Option (ℕ × ℕ) → Bool
is_peer address none = false
is_peer address (some (octet, consumed)) =
    ltb 0 consumed && consumed == length address && leb 2 octet && leb octet 254

abbrev pub is_same_port : Option ℕ → ℕ → Bool
is_same_port none expected_port = false
is_same_port (some port) expected_port = port == expected_port

unfoldable pub valid_pairing_address : PeerScan → List ℕ → ℕ → Bool
valid_pairing_address scan address expected_port =
    is_same_port (address_port address) expected_port && is_peer address (scan address)
