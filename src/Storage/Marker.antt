-- ===== src/Storage/Marker.antt =====
-- The marker that names the active slot, and the one to fall back on
-- (`encode_marker` and `decode_marker` of deck_transaction_store.cpp).
use s3_rlcd_deck.Base.{
  ℕ, ◌/◌, ◌%◌, ◌^◌, ◌≤◌, ◌<◌, ◌≡◌, ◌≢◌, ◌⊎◌, Bool, true, false, not, ◌&&◌, ◌||◌, List, ◌∷◌, ◌++◌,
  arith, ltb, ◌==◌, ◌!=◌, if◌then◌else◌, length, get_or, take,
}
use s3_rlcd_deck.Storage.Bytes.{read_u32_at, write_u32, read_u32-write_u32, crc32, crc32-lt}
use s3_rlcd_deck.Storage.Record.{
  Options, DecodeResult, valid, corrupt, unsupported, migration_failed, magic_bytes, has_magic,
}

pub record DecodedMarker : Type 0 where
  pub active_slot : ℕ
  pub active_generation : ℕ
  pub has_previous : Bool
  pub previous_slot : ℕ
  pub previous_generation : ℕ

abbrev pub marker_size : ℕ
marker_size = 20

-- The first 16 bytes.
abbrev pub marker_body : Options → DecodedMarker → List ℕ
marker_body o m =
    let slot = if m.has_previous then m.previous_slot else 0 in
    let previous = if m.has_previous then m.previous_generation else 0 in
    magic_bytes o.marker_magic (
      o.schema_version
      ∷ m.active_slot
      ∷ (m.active_generation % 2 ^ 8)
      ∷ (m.active_generation / 2 ^ 8 % 2 ^ 8)
      ∷ (m.active_generation / 2 ^ 16 % 2 ^ 8)
      ∷ (m.active_generation / 2 ^ 24 % 2 ^ 8)
      ∷ (if m.has_previous then 1 else 0)
      ∷ slot
      ∷ write_u32 previous)

unfoldable pub encode_marker : Options → DecodedMarker → List ℕ
encode_marker o m = marker_body o m ++ write_u32 (crc32 (marker_body o m))

-- The tests of a marker's fields.
abbrev pub is_sound : ℕ → ℕ → ℕ → ℕ → ℕ → Bool
is_sound active_slot active_generation has_previous previous_slot previous_generation = not (
    ltb 1 active_slot
    || active_generation == 0
    || ltb 1 has_previous
    || has_previous == 0 && (previous_slot != 0 || previous_generation != 0)
    || has_previous == 1
      && (ltb 1 previous_slot || previous_slot == active_slot || previous_generation == 0))

unfoldable pub decode_marker : Options → List ℕ → DecodeResult DecodedMarker
decode_marker o input =
    let active_slot = get_or input 5 0 in
    let active_generation = read_u32_at input 6 in
    let has_previous = get_or input 10 0 in
    let previous_slot = get_or input 11 0 in
    let previous_generation = read_u32_at input 12 in
    if length input != marker_size || not (has_magic o.marker_magic input)
    then corrupt
    else if ltb o.schema_version (get_or input 4 0)
    then unsupported
    else if ltb (get_or input 4 0) o.schema_version
    then migration_failed
    else if not
          (is_sound active_slot active_generation has_previous previous_slot previous_generation)
        || read_u32_at input 16 != crc32 (take 16 input)
    then corrupt
    else valid (record {
      active_slot = active_slot;
      active_generation = active_generation;
      has_previous = has_previous == 1;
      previous_slot = previous_slot;
      previous_generation = previous_generation;
    })

-- A marker as the store writes it: both slots are 0 or 1, and two where there are two.
abbrev pub IsMarker : DecodedMarker → Type 0
IsMarker m =
    (m.active_slot ≤ 1)
    × (0 < m.active_generation)
    × (m.active_generation < 2 ^ 32)
    × (((m.has_previous ≡ true)
          × (m.previous_slot ≤ 1)
          × (m.previous_slot ≢ m.active_slot)
          × (0 < m.previous_generation)
          × (m.previous_generation < 2 ^ 32))
        ⊎ ((m.has_previous ≡ false) × (m.previous_slot ≡ 0) × (m.previous_generation ≡ 0)))

-- A marker of two slots of 0 and 1, or of one slot alone, reads back as it was written.
pub decode_marker-encode_marker :
    (o : Options) (m : DecodedMarker) → IsMarker m → decode_marker o (encode_marker o m) ≡ valid m
unfolding encode_marker decode_marker
decode_marker-encode_marker o m v = ground (
  arith,
  read_u32-write_u32 m.active_generation,
  read_u32-write_u32 m.previous_generation,
  read_u32-write_u32 (crc32 (marker_body o m)),
  crc32-lt (marker_body o m),
)

-- The slots of a marker that is read back are 0 or 1.
pub decode_marker-valid :
    (o : Options) (input : List ℕ) (m : DecodedMarker)
    → decode_marker o input ≡ valid m
    → (m.active_slot ≤ 1) × (m.previous_slot ≤ 1)
unfolding decode_marker
decode_marker-valid o input m e = ground arith
