-- ===== src/Setup/Confirmation/Laws.antt =====
-- The texts that deck_setup_confirmation.cpp compares, and when it confirms.
use mathlib.Core.Path.{subst}
use s3_rlcd_deck.Base.{
  ℕ, zero, suc, ◌*◌, ◌≡◌, ◌∙◌, sym, ap, inl, inr, refl, true, false, Option, some, List, [], ◌∷◌,
  ◌++◌, ◌==◌, take, get_or, length, arith, take-append, Bool-cases, Option-cases,
}
use s3_rlcd_deck.Ota.Digest.{digest_equal, digest_equal_iff, AllBytes}
use s3_rlcd_deck.Setup.Confirmation.{
  Options, Confirmation, strnlen, all_token_bytes, valid_token, tokens_equal, hex_text, clear_issue,
  create, issued_with, issue, consume,
}

strnlen-end : (n : ℕ) (text : List ℕ) → strnlen text (suc n) ≡ n → get_or text n 0 ≡ 0
unfolding strnlen
strnlen-end n [] e = refl
strnlen-end zero (c ∷ text) e = ground arith
strnlen-end (suc n) (c ∷ text) e = ground (arith, strnlen-end n text)

strnlen-length : (n : ℕ) (text : List ℕ) → strnlen text (suc n) ≡ n → length (take n text) ≡ n
unfolding strnlen
strnlen-length zero text e = refl
strnlen-length (suc n) [] e = ground arith
strnlen-length (suc n) (c ∷ text) e = ground (arith, strnlen-length n text)

-- A text that begins with a token, and then ends.
strnlen-token :
    (key text : List ℕ)
    → take (length key) text ≡ key
    → all_token_bytes key ≡ true
    → get_or text (length key) 0 ≡ 0
    → strnlen text (suc (length key)) ≡ length key
unfolding strnlen all_token_bytes
strnlen-token [] [] same ok end = refl
strnlen-token [] (c ∷ text) same ok end = ground arith
strnlen-token (k ∷ key) [] same ok end = ground arith
strnlen-token (k ∷ key) (c ∷ text) same ok end = ground (arith, strnlen-token key text)

take-AllBytes : (n : ℕ) (text : List ℕ) → AllBytes text → AllBytes (take n text)
take-AllBytes zero text b = tt
take-AllBytes (suc n) [] b = tt
take-AllBytes (suc n) (c ∷ text) b = (b.0, take-AllBytes n text b.1)

token-AllBytes : (key : List ℕ) → all_token_bytes key ≡ true → AllBytes key
unfolding all_token_bytes
token-AllBytes [] ok = tt
token-AllBytes (k ∷ key) ok = ground (arith, token-AllBytes key)

hex_text-token :
    (bytes : List ℕ)
    → AllBytes bytes
    → (all_token_bytes (hex_text bytes) ≡ true) × (length (hex_text bytes) ≡ 2 * length bytes)
unfolding hex_text all_token_bytes
hex_text-token [] b = (refl, refl)
hex_text-token (x ∷ bytes) b = ground (arith, hex_text-token bytes b.1)

-- The text is the token, and nothing more.
abbrev pub IsTextOf : List ℕ → List ℕ → Type 0
IsTextOf key text = (take 16 text ≡ key) × (get_or text 16 0 ≡ 0)

-- The two tests of a text accept the token alone.
pub token_tests_pass :
    (key text : List ℕ)
    → length key ≡ 16
    → all_token_bytes key ≡ true
    → AllBytes text
    → IsTextOf key text
    → (valid_token (some text) ≡ true) × (tokens_equal text (key ++ (0 ∷ [])) ≡ true)
unfolding valid_token tokens_equal
token_tests_pass key text size ok bytes t =
    let kept : take 16 (key ++ (0 ∷ [])) ≡ key = rw (← size) (take-append key (0 ∷ [])) in
    let long = strnlen-token key text (rw size t.0) ok (rw size t.1) in
    let count : strnlen text 17 ≡ 16 = ap (λ n. strnlen text (suc n)) (sym size) ∙ long ∙ size in
    let all : all_token_bytes (take 16 text) ≡ true = ap (λ l. all_token_bytes l) t.0 ∙ ok in
    let key_bytes = token-AllBytes key ok in
    let same = (digest_equal_iff key key key_bytes key_bytes refl).1 refl in
    (ground (arith, count, all), rw (t.0, kept) same)

pub token_tests_sound :
    (key text : List ℕ)
    → length key ≡ 16
    → all_token_bytes key ≡ true
    → AllBytes text
    → valid_token (some text) ≡ true
    → tokens_equal text (key ++ (0 ∷ [])) ≡ true
    → IsTextOf key text
unfolding valid_token tokens_equal
token_tests_sound key text size ok bytes valid equal =
    let kept : take 16 (key ++ (0 ∷ [])) ≡ key = rw (← size) (take-append key (0 ∷ [])) in
    let count : strnlen text 17 ≡ 16 = ground arith in
    let long = strnlen-length 16 text count in
    let same : digest_equal (take 16 text) key ≡ true =
      ap (λ k. digest_equal (take 16 text) k) (sym kept) ∙ equal in
    (
      (digest_equal_iff (take 16 text) key (take-AllBytes 16 text bytes) (token-AllBytes key ok)
            (long ∙ sym size)).0
          same,
      strnlen-end 16 text count,
    )

module _ {C : Type 0} where
  -- The random adapter gives as many bytes as it is asked for.
  abbrev pub RandomLaw : Options C → Type 0
  RandomLaw options =
      (c : C) (n : ℕ) (bytes : List ℕ)
      → (options.random c n).1 ≡ some bytes
      → AllBytes bytes × (length bytes ≡ n)

  -- The 16 characters of the token in force.
  abbrev pub key_of : Confirmation C → List ℕ
  key_of c = take 16 c.token

  -- A token in force is 16 hexadecimal digits and a NUL.
  pub record Inv (c : Confirmation C) : Type 0 where
    pub random : RandomLaw c.options
    pub token_is : c.issued ≡ true → c.token ≡ key_of c ++ (0 ∷ [])
    pub key_size : c.issued ≡ true → length (key_of c) ≡ 16
    pub key_ok : c.issued ≡ true → all_token_bytes (key_of c) ≡ true

  pub create-Inv :
      (c : C) (options : Options C) (d : Confirmation C)
      → RandomLaw options
      → create c options ≡ some d
      → Inv d × (d.issued ≡ false)
  unfolding create
  create-Inv c options d law e =
      let same : d.options ≡ options = ground arith in
      let off : d.issued ≡ false = ground arith in
      (
        record {
          random = subst (λ o. RandomLaw o) (sym same) law;
          token_is = λ on. cc (on, off);
          key_size = λ on. cc (on, off);
          key_ok = λ on. cc (on, off);
        },
        off,
      )

  cleared-Inv : (c : Confirmation C) → RandomLaw c.options → Inv (clear_issue c)
  cleared-Inv c law = record {
    random = law;
    token_is = λ on. ground (arith, on);
    key_size = λ on. ground (arith, on);
    key_ok = λ on. ground (arith, on);
  }

  issued_with-Inv :
      (c : Confirmation C) (session_id now_ms : ℕ) (bytes : List ℕ)
      → RandomLaw c.options
      → AllBytes bytes × (length bytes ≡ 8)
      → Inv (issued_with c session_id now_ms (some bytes)).0
  issued_with-Inv c session_id now_ms bytes law b =
      let key = hex_text bytes in
      let (ok, double) = hex_text-token bytes b.0 in
      let size : length key ≡ 16 = omega (arith, double, b.1) in
      let kept : take 16 (key ++ (0 ∷ [])) ≡ key = rw (← size) (take-append key (0 ∷ [])) in
      record {
        random = law;
        token_is = λ on. ap (λ k. k ++ (0 ∷ [])) (sym kept);
        key_size = λ on. ap (λ k. length k) kept ∙ size;
        key_ok = λ on. ap (λ k. all_token_bytes k) kept ∙ ok;
      }

  pub issue-Inv :
      (c : Confirmation C) (session_id now_ms : ℕ) → Inv c → Inv (issue c session_id now_ms).0
  unfolding issue
  issue-Inv c session_id now_ms i =
      let d = record c { context = (c.options.random c.context 8).0 } in
      let law = i.random c.context 8 in
      elim (Bool-cases (session_id == 0)) [
        | inl wrong ↦ rw wrong i
        | inr right ↦ rw right (elim (Option-cases (c.options.random c.context 8).1) [
          | inl e ↦ rw e (cleared-Inv d i.random)
          | inr (bytes, e) ↦ rw e (issued_with-Inv d session_id now_ms bytes i.random (law bytes e))
        ])
      ]

  pub consume-Inv :
      (c : Confirmation C) (session_id : ℕ) (token : Option (List ℕ)) (now_ms : ℕ)
      → Inv c
      → Inv (consume c session_id token now_ms).0
  unfolding consume
  consume-Inv c session_id token now_ms i = ground (arith, i, cleared-Inv c i.random)
