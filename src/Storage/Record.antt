-- ===== src/Storage/Record.antt =====
-- The stored record: a header of 12 bytes, the payload and a checksum
-- (`encode_record` and `decode_record` of deck_transaction_store.cpp).
use s3_rlcd_deck.Base.{
  ℕ, ◌+◌, ◌-◌, ◌*◌, ◌/◌, ◌%◌, ◌^◌, ◌≤◌, ◌<◌, ◌≡◌, Bool, true, not, ◌&&◌, ◌||◌, Option, none, some,
  List, ◌∷◌, ◌++◌, arith, ltb, ◌==◌, ◌!=◌, if◌then◌else◌, length, length-append, get_or, take, drop,
  take-append, drop-append,
}
use s3_rlcd_deck.Storage.Bytes.{read_u32_at, write_u32, read_u32-write_u32, crc32, crc32-lt}

-- Four bytes that open a record or a marker.
pub record Magic : Type 0 where
  pub byte_0 : ℕ
  pub byte_1 : ℕ
  pub byte_2 : ℕ
  pub byte_3 : ℕ

-- The options but for the storage; `validate_payload` is the owner's test of a payload.
pub record Options : Type 0 where
  pub record_magic : Magic
  pub marker_magic : Magic
  pub schema_version : ℕ
  pub payload_capacity : ℕ
  pub payload_length_excluded_prefix : ℕ
  pub validate_payload : List ℕ → Bool

pub record OwnedRecord : Type 0 where
  pub payload : List ℕ
  pub generation : ℕ

-- A record that cannot be allocated is not modelled.
pub data DecodeResult {ℓ} (A : Type ℓ) : Type ℓ where
  valid : A → DecodeResult A
  corrupt unsupported migration_failed : DecodeResult A

abbrev pub record_header_size : ℕ
record_header_size = 12

abbrev pub checksum_size : ℕ
checksum_size = 4

abbrev pub magic_bytes : Magic → List ℕ → List ℕ
magic_bytes m rest = m.byte_0 ∷ m.byte_1 ∷ m.byte_2 ∷ m.byte_3 ∷ rest

-- `memcmp(input, magic, 4) == 0`.
abbrev pub has_magic : Magic → List ℕ → Bool
has_magic m input =
    get_or input 0 0 == m.byte_0
    && get_or input 1 0 == m.byte_1
    && get_or input 2 0 == m.byte_2
    && get_or input 3 0 == m.byte_3

-- Everything before the checksum.
abbrev pub record_body : Options → List ℕ → ℕ → List ℕ
record_body o payload generation =
    let encoded_payload_size = length payload - o.payload_length_excluded_prefix in
    magic_bytes o.record_magic (
      o.schema_version
      ∷ 0
      ∷ (encoded_payload_size % 2 ^ 8)
      ∷ (encoded_payload_size / 2 ^ 8 % 2 ^ 8)
      ∷ (generation % 2 ^ 8)
      ∷ (generation / 2 ^ 8 % 2 ^ 8)
      ∷ (generation / 2 ^ 16 % 2 ^ 8)
      ∷ (generation / 2 ^ 24 % 2 ^ 8)
      ∷ payload)

-- The output array is as long as its callers make it, so it always has the room.
unfoldable pub encode_record : Options → List ℕ → ℕ → Option (List ℕ)
encode_record o payload generation =
    let body = record_body o payload generation in
    if length payload == 0
      || ltb (length payload) o.payload_length_excluded_prefix
      || ltb o.payload_capacity (length payload)
      || generation == 0
    then none
    else some (body ++ write_u32 (crc32 body))

-- `decode_record` once the magic and the schema are right.
unfoldable pub decode_body : Options → List ℕ → DecodeResult OwnedRecord
decode_body o input =
    let encoded_payload_size = get_or input 6 0 + get_or input 7 0 * 2 ^ 8 in
    let payload_size = encoded_payload_size + o.payload_length_excluded_prefix in
    let checksum_offset = record_header_size + payload_size in
    let generation = read_u32_at input 8 in
    let payload = take payload_size (drop record_header_size input) in
    if ltb (o.payload_capacity - o.payload_length_excluded_prefix) encoded_payload_size
    then corrupt
    else if get_or input 5 0 != 0
        || payload_size == 0
        || ltb o.payload_capacity payload_size
        || checksum_offset + checksum_size != length input
        || generation == 0
        || read_u32_at (drop checksum_offset input) 0 != crc32 (take checksum_offset input)
        || not (o.validate_payload payload)
    then corrupt
    else valid (record { payload = payload; generation = generation })

unfoldable pub decode_record : Options → List ℕ → DecodeResult OwnedRecord
unfolding decode_body
decode_record o input =
    if ltb (length input) (record_header_size + checksum_size)
      || not (has_magic o.record_magic input)
    then corrupt
    else if ltb o.schema_version (get_or input 4 0)
    then unsupported
    else if ltb (get_or input 4 0) o.schema_version
    then migration_failed
    else decode_body o input

-- A payload that the owner accepts and that fits reads back as it was written, with its generation.
pub decode_record-encode_record :
    (o : Options) (payload : List ℕ) (generation : ℕ)
    → 0 < length payload
    → o.payload_length_excluded_prefix ≤ length payload
    → length payload ≤ o.payload_capacity
    → o.payload_capacity ≤ 2 ^ 14
    → 0 < generation
    → generation < 2 ^ 32
    → o.validate_payload payload ≡ true
    → (bytes : List ℕ) × (encode_record o payload generation ≡ some bytes)
      × (decode_record o bytes ≡ valid (record { payload = payload; generation = generation }))
unfolding encode_record decode_record
decode_record-encode_record o payload generation pos prefix fits capacity gpos glt ok =
    let body = record_body o payload generation in
    let bytes = body ++ write_u32 (crc32 body) in
    let n = length payload - o.payload_length_excluded_prefix in
    let size : n % 2 ^ 8 + n / 2 ^ 8 % 2 ^ 8 * 2 ^ 8 + o.payload_length_excluded_prefix
        ≡ length payload =
      omega arith in
    let offset : length body ≡ 12 + length payload = omega arith in
    let front : take (12 + length payload) bytes ≡ body =
      rw (← offset) (take-append body (write_u32 (crc32 body))) in
    let back : drop (12 + length payload) bytes ≡ write_u32 (crc32 body) =
      rw (← offset) (drop-append body (write_u32 (crc32 body))) in
    (
      bytes,
      ground arith,
      rw (size, front, back)
          (ground (
            arith,
            take-append payload (write_u32 (crc32 body)),
            length-append payload (write_u32 (crc32 body)),
            read_u32-write_u32 generation,
            read_u32-write_u32 (crc32 body),
            crc32-lt body,
          )),
    )

-- A record that is read back as valid is one that the owner accepts, and it fits.
pub decode_record-valid :
    (o : Options) (input : List ℕ) (r : OwnedRecord)
    → decode_record o input ≡ valid r
    → (o.validate_payload r.payload ≡ true) × (0 < r.generation) × (r.generation < 2 ^ 32)
unfolding decode_record
decode_record-valid o input r e = ground arith
