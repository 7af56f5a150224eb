-- ===== src/Profiles/Encoding.antt =====
-- A valid profile is encoded, in bounded room, and reads back (deck_companion_profiles.cpp).
use mathlib.Core.List.{append_assoc, append-nil}
use s3_rlcd_deck.Base.{
  ℕ, ◌+◌, ◌*◌, ◌/◌, ◌%◌, ◌^◌, ◌≤◌, ◌<◌, ◌≡◌, ◌∙◌, ap, refl, true, false, some, List, [], ◌∷◌, ◌++◌,
  length, length-append, take-append, drop-append, ltb, arith,
}
use s3_rlcd_deck.Base.Int.{ℤ, pos, negsuc}
use s3_rlcd_deck.Storage.Bytes.{read_u32-write_u32}
use s3_rlcd_deck.Profiles.Text.{c_text}
use s3_rlcd_deck.Profiles.Fields.{
  IsField, safe_ascii-IsField, valid_address-IsField, valid_base64url-IsField,
  valid_fingerprint-IsField,
}
use s3_rlcd_deck.Profiles.Codec.{
  StoredProfile, to_signed, to_unsigned, write_u16, append_string, read_string, append_bytes,
  read_bytes, valid_profile, profile_head, encode_profile, decode_profile,
}

-- The numbers of a profile are those of its C types.
abbrev pub IsInt32 : ℤ → Type 0
IsInt32 (pos n) = n < 2 ^ 31
IsInt32 (negsuc n) = n < 2 ^ 31

pub record IsTyped (p : StoredProfile) : Type 0 where
  pub priority : IsInt32 p.priority
  pub success : p.last_success_unix_ms < 2 ^ 64

abbrev pub AllTyped : List StoredProfile → Type 0
AllTyped [] = Unit {0}
AllTyped (p ∷ ps) = IsTyped p × AllTyped ps

to_signed-to_unsigned : (z : ℤ) → IsInt32 z → to_signed (to_unsigned z) ≡ z
unfolding to_signed to_unsigned
to_signed-to_unsigned (pos n) h = ground arith
to_signed-to_unsigned (negsuc n) h = ground arith

to_unsigned-lt : (z : ℤ) → to_unsigned z < 2 ^ 32
unfolding to_unsigned
to_unsigned-lt (pos n) = omega arith
to_unsigned-lt (negsuc n) = omega arith

-- What a valid profile holds.
pub record IsProfile (p : StoredProfile) : Type 0 where
  pub version : p.version ≡ 1
  pub profile_id : IsField p.profile_id 72
  pub display_name : IsField p.display_name 96
  pub hub_address : IsField p.hub_address 96
  pub token : IsField p.token 44
  pub fingerprint : IsField p.certificate_fingerprint 72
  pub der : (0 < length p.certificate_der) × (length p.certificate_der ≤ 1024)

pub valid_profile-IsProfile : (p : StoredProfile) → valid_profile p ≡ true → IsProfile p
unfolding valid_profile
valid_profile-IsProfile p h = record {
  version = ground arith;
  profile_id = valid_fingerprint-IsField p.profile_id (ground arith);
  display_name = safe_ascii-IsField p.display_name 96 (ground arith);
  hub_address = valid_address-IsField p.hub_address (ground arith);
  token = valid_base64url-IsField p.token (ground arith) (ground arith);
  fingerprint = valid_fingerprint-IsField p.certificate_fingerprint (ground arith);
  der = ground arith;
}

-- The bytes of a text, of a certificate and of a profile, before others.
abbrev pub string_bytes : List ℕ → List ℕ → List ℕ
string_bytes value rest = length value ∷ (value ++ rest)

abbrev pub der_bytes : List ℕ → List ℕ → List ℕ
der_bytes value rest = write_u16 (length value) ++ (value ++ rest)

abbrev pub text_bytes : StoredProfile → List ℕ → List ℕ
text_bytes p rest = string_bytes p.profile_id (
    string_bytes p.display_name (
      string_bytes p.hub_address (
        string_bytes p.token
          (string_bytes p.certificate_fingerprint (der_bytes p.certificate_der rest)))))

unfoldable pub profile_bytes : StoredProfile → List ℕ → List ℕ
unfolding profile_head
profile_bytes p rest = profile_head p ++ text_bytes p rest

append_string_lem :
    (capacity n : ℕ) (output value : List ℕ)
    → IsField value n
    → n ≤ 256
    → length output + 1 + length value ≤ capacity
    → append_string capacity output value n ≡ some (output ++ length value ∷ value)
unfolding append_string
append_string_lem capacity n output value f small room = ground (arith, f.size)

append_bytes_lem :
    (capacity : ℕ) (output value : List ℕ)
    → (0 < length value) × (length value ≤ 1024)
    → length output + 2 + length value ≤ capacity
    → append_bytes capacity output value ≡ some (output ++ write_u16 (length value) ++ value)
unfolding append_bytes
append_bytes_lem capacity output value sizes room = ground arith

read_string_lem :
    (n : ℕ) (value rest : List ℕ)
    → IsField value n
    → read_string (string_bytes value rest) n ≡ some (value, rest)
unfolding read_string
read_string_lem n value rest f =
    let front = take-append value rest in
    ground (
      arith,
      f.size,
      length-append value rest,
      ap (λ t. c_text t) front ∙ f.text,
      drop-append value rest,
    )

read_bytes_lem :
    (value rest : List ℕ)
    → (0 < length value) × (length value ≤ 1024)
    → read_bytes (der_bytes value rest) 1024 ≡ some (value, rest)
unfolding read_bytes
read_bytes_lem value rest sizes =
    let same : (length value % 2 ^ 8 + length value / 2 ^ 8 % 2 ^ 8 * 2 ^ 8) % 2 ^ 16
        ≡ length value =
      omega arith in
    rw same
      (ground (arith, length-append value rest, take-append value rest, drop-append value rest))

abbrev pub put_string : List ℕ → List ℕ → List ℕ
put_string output value = output ++ length value ∷ value

-- The output behind each of the six appends.
abbrev pub texts_put : List ℕ → StoredProfile → List ℕ
texts_put output p =
    put_string
      (put_string
        (put_string (put_string (put_string output p.profile_id) p.display_name) p.hub_address)
        p.token)
      p.certificate_fingerprint

length-put_string :
    (output value : List ℕ) → length (put_string output value) ≡ length output + 1 + length value
length-put_string output value = omega (arith, length-append output (length value ∷ value))

texts_put-append :
    (output rest : List ℕ) (p : StoredProfile)
    → (texts_put output p ++ write_u16 (length p.certificate_der) ++ p.certificate_der) ++ rest
      ≡ output ++ text_bytes p rest
texts_put-append output rest p = simp append_assoc

-- The room that a profile takes at most.
abbrev pub profile_room : ℕ
profile_room = 1419

length-profile_head : (p : StoredProfile) → length (profile_head p) ≡ 13
unfolding profile_head
length-profile_head p = refl

module _ (p : StoredProfile) (i : IsProfile p) where
  pub length-profile_bytes :
      (rest : List ℕ) → length (profile_bytes p rest) ≤ profile_room + length rest
  unfolding profile_bytes
  length-profile_bytes rest =
      let l5 = der_bytes p.certificate_der rest in
      let l4 = string_bytes p.certificate_fingerprint l5 in
      let l3 = string_bytes p.token l4 in
      let l2 = string_bytes p.hub_address l3 in
      let l1 = string_bytes p.display_name l2 in
      omega (
        arith,
        length-append p.certificate_der rest,
        length-append p.certificate_fingerprint l5,
        length-append p.token l4,
        length-append p.hub_address l3,
        length-append p.display_name l2,
        length-append p.profile_id l1,
        i.profile_id.size,
        i.display_name.size,
        i.hub_address.size,
        i.token.size,
        i.fingerprint.size,
        i.der,
      )

  pub encode_profile_lem :
      (capacity : ℕ) (output : List ℕ)
      → length output + profile_room ≤ capacity
      → encode_profile capacity output p ≡ some (output ++ profile_bytes p [])
  unfolding encode_profile profile_bytes
  encode_profile_lem capacity output room =
      let o = output ++ profile_head p in
      let a = put_string o p.profile_id in
      let b = put_string a p.display_name in
      let c = put_string b p.hub_address in
      let d = put_string c p.token in
      let e = put_string d p.certificate_fingerprint in
      let h0 =
        length-append output (profile_head p)
        ∙ ap (λ n. length output + n) (length-profile_head p) in
      let h1 = length-put_string o p.profile_id in
      let h2 = length-put_string a p.display_name in
      let h3 = length-put_string b p.hub_address in
      let h4 = length-put_string c p.token in
      let h5 = length-put_string d p.certificate_fingerprint in
      let s0 = i.profile_id.size in
      let s1 = i.display_name.size in
      let s2 = i.hub_address.size in
      let s3 = i.token.size in
      let s4 = i.fingerprint.size in
      let s5 = i.der in
      let e0 =
        append_string_lem capacity 72 o p.profile_id i.profile_id (omega arith) (omega arith) in
      let e1 =
        append_string_lem capacity 96 a p.display_name i.display_name (omega arith) (omega arith) in
      let e2 =
        append_string_lem capacity 96 b p.hub_address i.hub_address (omega arith) (omega arith) in
      let e3 = append_string_lem capacity 44 c p.token i.token (omega arith) (omega arith) in
      let e4 =
        append_string_lem capacity 72 d p.certificate_fingerprint i.fingerprint (omega arith)
          (omega arith) in
      let e5 = append_bytes_lem capacity e p.certificate_der i.der (omega arith) in
      let fits : ltb capacity (length output + 13) ≡ false = ground arith in
      rw (fits, e0, e1, e2, e3, e4, e5) (ap (λ l. some l) (simp (append-nil, append_assoc)))

  pub decode_profile_lem :
      (rest : List ℕ) → IsTyped p → decode_profile (profile_bytes p rest) ≡ some (p, rest)
  unfolding decode_profile profile_bytes profile_head
  decode_profile_lem rest t =
      let l5 = der_bytes p.certificate_der rest in
      let l4 = string_bytes p.certificate_fingerprint l5 in
      let l3 = string_bytes p.token l4 in
      let l2 = string_bytes p.hub_address l3 in
      let l1 = string_bytes p.display_name l2 in
      let e0 = read_string_lem 72 p.profile_id l1 i.profile_id in
      let e1 = read_string_lem 96 p.display_name l2 i.display_name in
      let e2 = read_string_lem 96 p.hub_address l3 i.hub_address in
      let e3 = read_string_lem 44 p.token l4 i.token in
      let e4 = read_string_lem 72 p.certificate_fingerprint l5 i.fingerprint in
      let e5 = read_bytes_lem p.certificate_der rest i.der in
      let u = p.last_success_unix_ms in
      let w = to_unsigned p.priority in
      let n0 = read_u32-write_u32 w (to_unsigned-lt p.priority) in
      let n1 = read_u32-write_u32 (u % 2 ^ 32) (omega arith) in
      let n2 = read_u32-write_u32 (u / 2 ^ 32) (omega (arith, t.success)) in
      let n3 : u % 2 ^ 32 + u / 2 ^ 32 * 2 ^ 32 ≡ u = omega arith in
      let n4 : p.version % 2 ^ 8 ≡ p.version = omega (arith, i.version) in
      let n5 = to_signed-to_unsigned p.priority t.priority in
      rw (e0, e1, e2, e3, e4, e5, n0, n1, n2, n3, n4, n5) (ground arith)
