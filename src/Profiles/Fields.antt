-- ===== src/Profiles/Fields.antt =====
-- What the validity tests of deck_companion_profiles.cpp tell of the texts of a profile.
use s3_rlcd_deck.Base.{
  ℕ, zero, suc, ◌<◌, ◌≡◌, ◌∙◌, sym, ap, refl, Bool, true, false, List, [], ◌∷◌, ◌++◌, length, take,
  drop, same_text_iff, arith,
}
use s3_rlcd_deck.Profiles.Text.{
  c_text, every, is_visible, is_base64url, is_hex, safe_ascii, valid_base64url, valid_fingerprint,
  valid_address, fingerprint_prefix, terminated,
}

-- A text of bytes that are not NUL is a C string.
pub c_text-every :
    (test : ℕ → Bool) (text : List ℕ) → test 0 ≡ false → every test text ≡ true → c_text text ≡ text
unfolding every c_text
c_text-every test [] none_at h = refl
c_text-every test (b ∷ text) none_at h =
    ground (arith, c_text-every test text none_at, λ (e : b ≡ 0). ap test e)

is_visible-zero : is_visible 0 ≡ false
unfolding is_visible
is_visible-zero = refl

is_base64url-zero : is_base64url 0 ≡ false
unfolding is_base64url
is_base64url-zero = refl

is_hex-zero : is_hex 0 ≡ false
unfolding is_hex
is_hex-zero = refl

take-drop : (n : ℕ) (xs : List ℕ) → take n xs ++ drop n xs ≡ xs
take-drop zero xs = refl
take-drop (suc n) [] = refl
take-drop (suc n) (x ∷ xs) = ap (λ l. x ∷ l) (take-drop n xs)

-- A C string that fits an array of this capacity.
pub record IsField (value : List ℕ) (capacity : ℕ) : Type 0 where
  pub size : length value < capacity
  pub text : c_text value ≡ value

pub safe_ascii-IsField :
    (value : List ℕ) (capacity : ℕ)
    → safe_ascii value capacity false ≡ true
    → IsField value capacity
unfolding safe_ascii
safe_ascii-IsField value capacity h = record {
  size = ground arith;
  text = c_text-every is_visible value is_visible-zero (ground arith);
}

pub valid_address-IsField : (value : List ℕ) → valid_address value ≡ true → IsField value 96
unfolding valid_address
valid_address-IsField value h = safe_ascii-IsField value 96 (ground arith)

pub valid_base64url-IsField :
    (value : List ℕ)
    → terminated value 44 ≡ true
    → valid_base64url value 43 ≡ true
    → IsField value 44
unfolding valid_base64url
valid_base64url-IsField value fits h = record {
  size = ground arith;
  text = c_text-every is_base64url value is_base64url-zero (ground arith);
}

c_text-prefix :
    (rest : List ℕ)
    → c_text rest ≡ rest
    → c_text (fingerprint_prefix ++ rest) ≡ fingerprint_prefix ++ rest
unfolding c_text
c_text-prefix rest h = ap (λ r. fingerprint_prefix ++ r) h

pub valid_fingerprint-IsField : (value : List ℕ) → valid_fingerprint value ≡ true → IsField value 72
unfolding valid_fingerprint
valid_fingerprint-IsField value h =
    let front : take 7 value ≡ fingerprint_prefix =
      ground (arith, same_text_iff (take 7 value) fingerprint_prefix) in
    let whole : value ≡ fingerprint_prefix ++ drop 7 value =
      sym (take-drop 7 value) ∙ ap (λ t. t ++ drop 7 value) front in
    let back = c_text-every is_hex (drop 7 value) is_hex-zero (ground arith) in
    record {
      size = ground arith;
      text = ap (λ v. c_text v) whole ∙ c_text-prefix (drop 7 value) back ∙ sym whole;
    }
