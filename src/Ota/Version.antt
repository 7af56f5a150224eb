-- ===== src/Ota/Version.antt =====
-- Version and board names of firmware/components/ota_service/deck_ota_transaction.cpp.
-- A `char` array is the list of its bytes; a text in it ends before the first NUL.
pub mod Order
use s3_rlcd_deck.Base.{
  ℕ, zero, suc, ◌+◌, ◌-◌, ◌*◌, ◌/◌, Bool, true, false, not, ◌&&◌, ◌||◌, Option, none, some, List,
  [], ◌∷◌, ltb, leb, ◌==◌, ◌!=◌, if◌then◌else◌, u32_max, length,
}

infixl 5 ◌>>=◌
abbrev pub ◌>>=◌ {ℓ κ} : {A : Type ℓ} {B : Type κ} → Option A → (A → Option B) → Option B
none >>= f = none
some a >>= f = f a

abbrev pub board_capacity : ℕ
board_capacity = 49

abbrev pub version_capacity : ℕ
version_capacity = 33

-- `memchr(value, '\0', capacity) != nullptr`.
unfoldable pub terminated : List ℕ → ℕ → Bool
terminated value zero = false
terminated [] (suc capacity) = false
terminated (c ∷ value) (suc capacity) = c == 0 || terminated value capacity

-- The text of an array: the bytes before its first NUL.
unfoldable pub c_str : List ℕ → List ℕ
c_str [] = []
c_str (c ∷ value) = let rest = c_str value in if c == 0 then [] else c ∷ rest

-- `*cursor`, which is NUL at the end of the text.
abbrev pub peek : List ℕ → ℕ
peek [] = 0
peek (c ∷ cursor) = c

abbrev pub next : List ℕ → List ℕ
next [] = []
next (c ∷ cursor) = cursor

abbrev pub is_digit : ℕ → Bool
is_digit c = leb b'0' c && leb c b'9'

abbrev pub is_version_byte : ℕ → Bool
is_version_byte byte =
    is_digit byte
    || leb b'A' byte && leb byte b'Z'
    || leb b'a' byte && leb byte b'z'
    || byte == b'.'
    || byte == b'-'
    || byte == b'+'

abbrev pub is_board_byte : ℕ → Bool
is_board_byte byte =
    leb b'a' byte && leb byte b'z' || leb b'0' byte && leb byte b'9' || byte == b'.' || byte == b'-'

unfoldable pub all_bytes : (ℕ → Bool) → List ℕ → Bool
all_bytes test [] = true
all_bytes test (c ∷ text) = test c && all_bytes test text

unfoldable pub safe_version : List ℕ → Bool
unfolding terminated c_str all_bytes
safe_version value =
    let text = c_str value in
    let size = length text in
    terminated value version_capacity
    && size != 0
    && ltb size 32
    && is_digit (peek text)
    && all_bytes is_version_byte text

unfoldable pub safe_board : List ℕ → Bool
unfolding terminated c_str all_bytes
safe_board value =
    let text = c_str value in
    let size = length text in
    terminated value board_capacity
    && size != 0
    && ltb size board_capacity
    && all_bytes is_board_byte text

-- The digits at the cursor, added to `value`; `none` where a uint32_t would overflow.
unfoldable pub digits : ℕ → List ℕ → Option (ℕ × List ℕ)
digits value [] = some (value, [])
digits value (c ∷ cursor) =
    let digit = c - b'0' in
    let rest = digits (value * 10 + digit) cursor in
    if is_digit c
    then if ltb ((u32_max - digit) / 10) value then none else rest
    else some (value, c ∷ cursor)

-- One part of the version: a digit, no leading zero, and the digits that follow.
unfoldable pub part : List ℕ → Option (ℕ × List ℕ)
unfolding digits
part cursor =
    if not (is_digit (peek cursor)) || peek cursor == b'0' && is_digit (peek (next cursor))
    then none
    else digits 0 cursor

-- `*cursor++ == '.'`.
unfoldable pub dot : List ℕ → Option (List ℕ)
dot cursor = if peek cursor == b'.' then some (next cursor) else none

abbrev pub Core : Type 0
Core = ℕ × ℕ × ℕ

-- The three parts, and what may follow them.
unfoldable pub core_parts : List ℕ → Option Core
unfolding part dot
core_parts text = do
  (major, c1) ← part text
  c2 ← dot c1
  (minor, c3) ← part c2
  c4 ← dot c3
  (patch, c5) ← part c4
  if peek c5 == 0 || peek c5 == b'-' || peek c5 == b'+' then some (major, minor, patch) else none

unfoldable pub parse_semantic_core : List ℕ → Option Core
unfolding safe_version core_parts
parse_semantic_core version = if safe_version version then core_parts (c_str version) else none

-- The loop over the three parts: the first that differ decide.
unfoldable pub core_newer : Core → Core → Bool
core_newer (a, b, c) (x, y, z) =
    if a != x then ltb x a else if b != y then ltb y b else if c != z then ltb z c else false

-- Both versions have to parse.
unfoldable pub newer_parts : Option Core → Option Core → Bool
unfolding core_newer
newer_parts none running = false
newer_parts (some candidate) none = false
newer_parts (some candidate) (some running) = core_newer candidate running

unfoldable pub strictly_newer : List ℕ → List ℕ → Bool
unfolding parse_semantic_core newer_parts
strictly_newer candidate running =
    newer_parts (parse_semantic_core candidate) (parse_semantic_core running)
