-- ===== src/Setup/Confirmation.antt =====
-- The token that a client must send back to confirm an action:
-- firmware/components/setup_mode/deck_setup_confirmation.cpp. An array of char is the list of its
-- bytes, and a C string that of the bytes before its NUL.
pub mod Laws
pub mod History
mod Examples
use s3_rlcd_deck.Base.{
  ℕ, zero, suc, ◌+◌, ◌-◌, ◌*◌, ◌/◌, ◌%◌, Bool, true, false, not, ◌&&◌, ◌||◌, Option, none, some,
  List, [], ◌∷◌, ◌++◌, ltb, leb, ◌==◌, ◌!=◌, if◌then◌else◌, replicate, take, get_or, length,
}
use s3_rlcd_deck.Ota.Digest.{digest_equal}

abbrev pub token_capacity : ℕ
token_capacity = 17

-- The random adapter: its context, and the bytes if it has them.
pub record Options (C : Type 0) : Type 0 where
  pub lifetime_ms : ℕ
  pub random : C → ℕ → C × Option (List ℕ)

pub record Confirmation (C : Type 0) : Type 0 where
  pub context : C
  pub options : Options C
  pub token : List ℕ
  pub session_id : ℕ
  pub issued_at_ms : ℕ
  pub issued : Bool

pub data ConfirmationResult : Type 0 where
  confirmed not_issued mismatch expired : ConfirmationResult

-- `strnlen(text, bound)`, on the bytes from `text` on.
unfoldable pub strnlen : List ℕ → ℕ → ℕ
strnlen text zero = 0
strnlen [] (suc bound) = 0
strnlen (c ∷ text) (suc bound) = let rest = strnlen text bound in if c == 0 then 0 else rest + 1

abbrev pub is_token_byte : ℕ → Bool
is_token_byte c = leb b'0' c && leb c b'9' || leb b'a' c && leb c b'f'

unfoldable pub all_token_bytes : List ℕ → Bool
all_token_bytes [] = true
all_token_bytes (c ∷ text) = is_token_byte c && all_token_bytes text

-- A null pointer is `none`.
unfoldable pub valid_token : Option (List ℕ) → Bool
valid_token none = false
valid_token (some token) = strnlen token 17 == 16 && all_token_bytes (take 16 token)

-- The constant-time loop is that of the digests.
unfoldable pub tokens_equal : List ℕ → List ℕ → Bool
tokens_equal left right = digest_equal (take 16 left) (take 16 right)

-- `kHex[digit]`.
abbrev pub hex_digit : ℕ → ℕ
hex_digit digit = if ltb digit 10 then b'0' + digit else b'a' + digit - 10

-- The two digits of each byte.
unfoldable pub hex_text : List ℕ → List ℕ
hex_text [] = []
hex_text (byte ∷ bytes) = hex_digit (byte / 16) ∷ hex_digit (byte % 16) ∷ hex_text bytes

module _ {C : Type 0} where
  abbrev pub clear_issue : Confirmation C → Confirmation C
  clear_issue c = record c {
    token = replicate token_capacity 0;
    session_id = 0;
    issued_at_ms = 0;
    issued = false;
  }

  unfoldable pub create : C → Options C → Option (Confirmation C)
  create c options =
      if options.lifetime_ms == 0
      then none
      else some (record {
        context = c;
        options = options;
        token = replicate token_capacity 0;
        session_id = 0;
        issued_at_ms = 0;
        issued = false;
      })

  -- What is left in memory that is given back.
  abbrev pub destroy : Confirmation C → Confirmation C
  destroy c = clear_issue c

  -- `issue` with the random bytes. The caller's array has the room of a token; its text is `none`
  -- where the call fails.
  abbrev pub issued_with :
      Confirmation C → ℕ → ℕ → Option (List ℕ) → Confirmation C × Option (List ℕ)
  issued_with c session_id now_ms none = (clear_issue c, none)
  issued_with c session_id now_ms (some random_bytes) =
      let token = hex_text random_bytes ++ (0 ∷ []) in
      (
        record c { token = token; session_id = session_id; issued_at_ms = now_ms; issued = true },
        some token,
      )

  unfoldable pub issue : Confirmation C → ℕ → ℕ → Confirmation C × Option (List ℕ)
  issue c session_id now_ms =
      let (context, random_bytes) = c.options.random c.context 8 in
      if session_id == 0
      then (c, none)
      else issued_with (record c { context = context }) session_id now_ms random_bytes

  unfoldable pub consume :
      Confirmation C → ℕ → Option (List ℕ) → ℕ → Confirmation C × ConfirmationResult
  consume c session_id token now_ms =
      if not c.issued
      then (c, not_issued)
      else if ltb now_ms c.issued_at_ms || ltb c.options.lifetime_ms (now_ms - c.issued_at_ms)
      then (clear_issue c, expired)
      else if session_id != c.session_id
          || not (valid_token token)
          || not (tokens_equal (elim token [ none ↦ [] | some text ↦ text ]) c.token)
      then (c, mismatch)
      else (clear_issue c, confirmed)
