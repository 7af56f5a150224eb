-- ===== src/Setup/Mode.antt =====
-- The life of a setup session: firmware/components/setup_mode/deck_setup_mode.cpp. An array of char
-- that holds a text is the list of its bytes before the NUL, so a cleared one is empty.
pub mod Laws
mod Examples
use s3_rlcd_deck.Base.{
  ℕ, zero, suc, ◌+◌, ◌-◌, ◌*◌, ◌/◌, ◌%◌, ◌^◌, Bool, true, false, not, ◌&&◌, ◌||◌, Option, none,
  some, List, [], ◌∷◌, ◌++◌, ltb, ◌==◌, ◌!=◌, if◌then◌else◌, length, get_or, drop,
}

abbrev pub ssid_capacity : ℕ
ssid_capacity = 13

abbrev pub password_capacity : ℕ
password_capacity = 15

pub data Reason : Type 0 where
  absent no_wifi boot_long_press : Reason

pub data ModeResult : Type 0 where
  unchanged started restarted stopped error : ModeResult

pub record Snapshot : Type 0 where
  pub active : Bool
  pub reason : Reason
  pub session_id : ℕ
  pub started_at_ms : ℕ
  pub last_activity_ms : ℕ
  pub ssid : List ℕ
  pub password : List ℕ
  pub address : List ℕ

-- The random adapter maps its context to a new one, with the bytes if it has them.
pub record Mode (C : Type 0) : Type 0 where
  pub inactivity_timeout_ms : ℕ
  pub random : C → ℕ → C × Option (List ℕ)
  pub random_context : C
  pub snapshot : Snapshot

-- "ABCDEFGHJKLMNPQRSTUVWXYZ23456789".
abbrev pub readable_alphabet : List ℕ
readable_alphabet =
    b'A' ∷ b'B' ∷ b'C' ∷ b'D' ∷ b'E' ∷ b'F' ∷ b'G' ∷ b'H' ∷ b'J' ∷ b'K' ∷ b'L' ∷ b'M' ∷ b'N' ∷ b'P'
    ∷ b'Q' ∷ b'R' ∷ b'S' ∷ b'T' ∷ b'U' ∷ b'V' ∷ b'W' ∷ b'X' ∷ b'Y' ∷ b'Z' ∷ b'2' ∷ b'3' ∷ b'4'
    ∷ b'5' ∷ b'6' ∷ b'7' ∷ b'8' ∷ b'9' ∷ []

-- "192.168.4.1".
abbrev pub address_text : List ℕ
address_text = b'1' ∷ b'9' ∷ b'2' ∷ b'.' ∷ b'1' ∷ b'6' ∷ b'8' ∷ b'.' ∷ b'4' ∷ b'.' ∷ b'1' ∷ []

-- `kHexAlphabet[digit]`.
abbrev pub hex_digit : ℕ → ℕ
hex_digit digit = if ltb digit 10 then b'0' + digit else b'A' + digit - 10

-- "S3-RLCD-%c%c%c%c".
abbrev pub ssid_of : List ℕ → List ℕ
ssid_of random_bytes =
    let first = get_or random_bytes 0 0 in
    let second = get_or random_bytes 1 0 in
    b'S'
    ∷ b'3'
    ∷ b'-'
    ∷ b'R'
    ∷ b'L'
    ∷ b'C'
    ∷ b'D'
    ∷ b'-'
    ∷ hex_digit (first / 16)
    ∷ hex_digit (first % 16)
    ∷ hex_digit (second / 16)
    ∷ hex_digit (second % 16)
    ∷ []

unfoldable pub readable : ℕ → ℕ
readable byte = get_or readable_alphabet (byte % length readable_alphabet) 0

-- The loop over the bytes: a dash stands before the places 4 and 9.
unfoldable pub password_from : ℕ → List ℕ → List ℕ
password_from output_index [] = []
password_from output_index (byte ∷ bytes) =
    let plain = password_from (output_index + 1) bytes in
    let dashed = password_from (output_index + 2) bytes in
    if output_index == 4 || output_index == 9
    then b'-' ∷ readable byte ∷ dashed
    else readable byte ∷ plain

abbrev pub clear_credentials : Snapshot → Snapshot
clear_credentials s = record s { ssid = []; password = [] }

-- `generate_credentials` with the random bytes: the two texts, or `none` where it fails.
unfoldable pub generate_credentials : Option (List ℕ) → Option (List ℕ × List ℕ)
generate_credentials none = none
generate_credentials (some random_bytes) =
    let ssid = ssid_of random_bytes in
    let password = password_from 0 (drop 2 random_bytes) in
    if length ssid != ssid_capacity - 1
    then none
    else if length password == password_capacity - 1
    then some (ssid, password)
    else none

abbrev pub is_absent : Reason → Bool
is_absent absent = true
is_absent _ = false

-- The snapshot of a session that starts with these credentials.
abbrev pub start_session : Snapshot → Reason → ℕ → List ℕ × List ℕ → Snapshot
start_session s reason now_ms (ssid, password) = record {
  active = true;
  reason = reason;
  session_id = (s.session_id + 1) % 2 ^ 32;
  started_at_ms = now_ms;
  last_activity_ms = now_ms;
  ssid = ssid;
  password = password;
  address = s.address;
}

module _ {C : Type 0} where
  unfoldable pub create : ℕ → (C → ℕ → C × Option (List ℕ)) → C → Option (Mode C)
  create inactivity_timeout_ms random random_context =
      if inactivity_timeout_ms == 0
      then none
      else some (record {
        inactivity_timeout_ms = inactivity_timeout_ms;
        random = random;
        random_context = random_context;
        snapshot = record {
          active = false;
          reason = absent;
          session_id = 0;
          started_at_ms = 0;
          last_activity_ms = 0;
          ssid = [];
          password = [];
          address = address_text;
        };
      })

  -- `enter` once the credentials are made, or not; the earlier snapshot is put back where they are
  -- not.
  unfoldable pub entered : Mode C → Reason → ℕ → Option (List ℕ × List ℕ) → Mode C × ModeResult
  entered m reason now_ms none = (m, error)
  entered m reason now_ms (some credentials) = (
    record m { snapshot = start_session m.snapshot reason now_ms credentials },
    if m.snapshot.active then restarted else started,
  )

  unfoldable pub enter : Mode C → Reason → ℕ → Mode C × ModeResult
  enter m reason now_ms =
      let (context, random_bytes) = m.random m.random_context 14 in
      if is_absent reason
      then (m, error)
      else entered (record m { random_context = context }) reason now_ms
          (generate_credentials random_bytes)

  unfoldable pub boot : Mode C → Bool → ℕ → Mode C × ModeResult
  boot m has_valid_wifi_config now_ms =
      if has_valid_wifi_config then (m, unchanged) else enter m no_wifi now_ms

  unfoldable pub activity : Mode C → ℕ → Mode C × Bool
  activity m now_ms =
      let s = m.snapshot in
      if not s.active
      then (m, false)
      else (record m { snapshot = record s { last_activity_ms = now_ms } }, true)

  unfoldable pub stop : Mode C → Mode C × ModeResult
  stop m =
      let s = m.snapshot in
      if not s.active then (m, unchanged) else (
        record m {
          snapshot = record s { active = false; reason = absent; ssid = []; password = [] };
        },
        stopped,
      )

  unfoldable pub tick : Mode C → ℕ → Mode C × ModeResult
  unfolding stop
  tick m now_ms =
      let s = m.snapshot in
      if not s.active
        || ltb now_ms s.last_activity_ms
        || ltb (now_ms - s.last_activity_ms) m.inactivity_timeout_ms
      then (m, unchanged)
      else stop m

  -- What is left in memory that is given back.
  abbrev pub destroy : Mode C → Mode C
  destroy m = record m { snapshot = clear_credentials m.snapshot }

  abbrev pub snapshot_of : Mode C → Snapshot
  snapshot_of m = m.snapshot
