-- ===== src/Wifi/Encoding.antt =====
-- Credentials read back as they were encoded (deck_wifi_config.cpp).
use native.Mathlib.Decide.{ℕ_discrete}
use mathlib.Core.Path.{subst}
use s3_rlcd_deck.Base.{
  ℕ, zero, suc, ◌+◌, ◌≤◌, ◌≡◌, ◌≢◌, ◌⊎◌, ◌∙◌, sym, ap, refl, true, some, List, [], ◌∷◌, ◌++◌,
  length, length-append, take, drop, take-append, drop-append, arith,
}
use s3_rlcd_deck.Setup.Confirmation.{strnlen}
use s3_rlcd_deck.Wifi.Credentials.{
  Credentials, valid_text, valid_password, valid_credentials, encode_credentials, is_some,
  decode_credentials, validate_payload,
}

take-length : (xs : List ℕ) → take (length xs) xs ≡ xs
take-length [] = refl
take-length (x ∷ xs) = ap (λ l. x ∷ l) (take-length xs)

strnlen-more : (n c : ℕ) (text : List ℕ) → c ≢ 0 → strnlen (c ∷ text) (suc n) ≡ suc (strnlen text n)
unfolding strnlen
strnlen-more n c text some_byte = ground arith

strnlen-none : (n : ℕ) (text : List ℕ) → strnlen (0 ∷ text) (suc n) ≡ 0
unfolding strnlen
strnlen-none n text = refl

strnlen-nil : (n : ℕ) → strnlen [] n ≡ 0
unfolding strnlen
strnlen-nil zero = refl
strnlen-nil (suc n) = refl

strnlen-zero : (text : List ℕ) → strnlen text 0 ≡ 0
unfolding strnlen
strnlen-zero text = refl

-- The text before its NUL is a string of the same size.
abbrev IsWhole : ℕ → List ℕ → ℕ → Type 0
IsWhole n text size = (strnlen (take size text) n ≡ size) × (length (take size text) ≡ size)

strnlen-IsWhole : (n : ℕ) (text : List ℕ) → IsWhole n text (strnlen text n)
strnlen-IsWhole zero text = rw (strnlen-zero text) (strnlen-nil 0, refl)
strnlen-IsWhole (suc n) [] = rw (strnlen-nil (suc n)) (strnlen-nil (suc n), refl)
strnlen-IsWhole (suc n) (c ∷ text) = elim (ℕ_discrete c 0) [
  | yes end ↦
      let here : strnlen (c ∷ text) (suc n) ≡ 0 =
        ap (λ x. strnlen (x ∷ text) (suc n)) end ∙ strnlen-none n text in
      rw here (strnlen-nil (suc n), refl)
  | no more ↦
      let (again, count) = strnlen-IsWhole n text in
      let k = strnlen text n in
      rw (strnlen-more n c text more)
        (strnlen-more n c (take k text) more ∙ ap (λ x. suc x) again, ap (λ x. suc x) count)
]

-- The part of a text before its NUL.
record IsText (value : List ℕ) (capacity size : ℕ) : Type 0 where
  pub size_is : strnlen value capacity ≡ size
  pub again : strnlen (take size value) capacity ≡ size
  pub count : length (take size value) ≡ size
  pub whole : take size (take size value) ≡ take size value

IsText-strnlen : (value : List ℕ) (capacity : ℕ) → IsText value capacity (strnlen value capacity)
IsText-strnlen value capacity =
    let size = strnlen value capacity in
    let (again, count) = strnlen-IsWhole capacity value in
    record {
      size_is = refl;
      again = again;
      count = count;
      whole = ap (λ n. take n (take size value)) (sym count) ∙ take-length (take size value);
    }

IsText-size :
    (value : List ℕ) (capacity size : ℕ)
    → strnlen value capacity ≡ size
    → IsText value capacity size
IsText-size value capacity size e =
    subst (λ n. IsText value capacity n) e (IsText-strnlen value capacity)

valid_text-take :
    (value : List ℕ) (capacity minimum maximum size : ℕ)
    → valid_text value capacity minimum maximum ≡ some size
    → IsText value capacity size
      × (minimum ≤ size)
      × (size ≤ maximum)
      × (valid_text (take size value) capacity minimum maximum ≡ some size)
unfolding valid_text
valid_text-take value capacity minimum maximum size e =
    let is : strnlen value capacity ≡ size = ground arith in
    let t = IsText-size value capacity size is in
    (t, ground arith, ground arith, ground (arith, is, t.again, t.whole))

valid_password-take :
    (value : List ℕ) (size : ℕ)
    → valid_password value ≡ some size
    → IsText value 64 size
      × (size ≤ 63)
      × ((size ≡ 0) ⊎ (8 ≤ size))
      × (valid_password (take size value) ≡ some size)
unfolding valid_password
valid_password-take value size e =
    let is : strnlen value 64 ≡ size = ground arith in
    let t = IsText-size value 64 size is in
    (t, ground arith, ground arith, ground (arith, is, t.again, t.whole))

-- The parts of an encoded payload.
payload-parts :
    (m n : ℕ) (ssid password : List ℕ)
    → length ssid ≡ m
    → length password ≡ n
    → let payload = m ∷ n ∷ (ssid ++ password) in
      (take m (drop 2 payload) ≡ ssid)
      × (drop (2 + m) payload ≡ password)
      × (length payload ≡ 2 + m + n)
payload-parts m n ssid password hm hn =
    let more : 2 + m ≡ suc (suc m) = omega arith in
    (
      rw (← hm) (take-append ssid password),
      rw more (rw (← hm) (drop-append ssid password)),
      omega (arith, length-append ssid password, hm, hn),
    )

valid_credentials-parts :
    (c : Credentials) (m n : ℕ)
    → valid_credentials c ≡ some (m, n)
    → (valid_text c.ssid 33 1 32 ≡ some m) × (valid_password c.password ≡ some n)
unfolding valid_credentials
valid_credentials-parts c m n e = ground arith

valid_credentials-both :
    (c : Credentials) (m n : ℕ)
    → valid_text c.ssid 33 1 32 ≡ some m
    → valid_password c.password ≡ some n
    → valid_credentials c ≡ some (m, n)
unfolding valid_credentials
valid_credentials-both c m n first second = ground (arith, first, second)

encode_credentials-some :
    (c : Credentials) (m n : ℕ)
    → valid_credentials c ≡ some (m, n)
    → encode_credentials c ≡ some (m ∷ n ∷ (take m c.ssid ++ take n c.password))
unfolding encode_credentials
encode_credentials-some c m n e = ground (arith, e)

-- Valid credentials are encoded, and read back up to the end of their two texts, whatever stands
-- behind those; and the store accepts them.
pub decode_credentials-encode_credentials :
    (c : Credentials) (m n : ℕ)
    → valid_credentials c ≡ some (m, n)
    → (payload : List ℕ) × (encode_credentials c ≡ some payload)
      × (decode_credentials payload
          ≡ some (record { ssid = take m c.ssid; password = take n c.password }))
      × (validate_payload payload ≡ true)
unfolding decode_credentials validate_payload
decode_credentials-encode_credentials c m n e =
    let (first, second) = valid_credentials-parts c m n e in
    let (ssid, low, high, ssid_again) = valid_text-take c.ssid 33 1 32 m first in
    let (password, few, some_or_none, password_again) = valid_password-take c.password n second in
    let (front, back, count) =
      payload-parts m n (take m c.ssid) (take n c.password) ssid.count password.count in
    let kept : Credentials = record { ssid = take m c.ssid; password = take n c.password } in
    let again = valid_credentials-both kept m n ssid_again password_again in
    let payload = m ∷ n ∷ (take m c.ssid ++ take n c.password) in
    let decoded : decode_credentials payload ≡ some kept =
      ground (arith, front, back, count, again, low, high, few, some_or_none) in
    (payload, encode_credentials-some c m n e, decoded, ap (λ o. is_some o) decoded)

-- The sizes of valid credentials.
pub valid_credentials-sizes :
    (c : Credentials) (m n : ℕ)
    → valid_credentials c ≡ some (m, n)
    → (strnlen c.ssid 33 ≡ m) × (strnlen c.password 64 ≡ n)
valid_credentials-sizes c m n e =
    let (first, second) = valid_credentials-parts c m n e in
    (
      (valid_text-take c.ssid 33 1 32 m first).0.size_is,
      (valid_password-take c.password n second).0.size_is,
    )
