-- ===== src/Profiles/Address.antt =====
-- Which addresses deck_companion_profiles.cpp takes, and with which port.
use mathlib.Core.List.{append_assoc}
use mathlib.Core.Path.{subst}
use s3_rlcd_deck.Base.{
  ℕ, zero, suc, ◌+◌, ◌-◌, ◌≤◌, ◌<◌, ◌≡◌, ◌≢◌, ◌↔◌, ◌∙◌, inl, inr, sym, ap, refl, Bool, true, false,
  some, List, [], ◌∷◌, ◌++◌, ◌==◌, length, length-append, get_or, take, drop, take-append, arith,
  Bool-cases, Option-cases,
}
use s3_rlcd_deck.Profiles.Text.{
  every, is_visible, is_digit, safe_ascii, valid_host_character, strchr, strrchr, next_index, Parts,
  address_parts, plain_parts, bracketed_parts, read_port, valid_parts, is_port, valid_address,
  address_port,
}
use s3_rlcd_deck.Profiles.Scanning.{
  decimal_from, every-append, every-weaken, host-is_visible, is_digit-is_visible, is_not,
  host-colon, host-bracket, host-opens, digit-colon, strchr-append, strrchr-append, strchr-some,
  read_port_lem, read_port-some, port_value_lem, drop-behind, get_or-behind,
}

abbrev pub written : Bool → List ℕ → List ℕ → List ℕ
written false host digits = host ++ b':' ∷ digits
written true host digits = b'[' ∷ (host ++ b']' ∷ b':' ∷ digits)

-- `host:port`, or `[host]:port` for an IPv6 address.
pub record IsAddress (address : List ℕ) (port : ℕ) : Type 0 where
  pub bracketed : Bool
  pub host : List ℕ
  pub digits : List ℕ
  pub shape : address ≡ written bracketed host digits
  pub short : length address < 96
  pub host_some : 0 < length host
  pub host_valid : every (valid_host_character bracketed) host ≡ true
  pub digits_some : 0 < length digits
  pub digits_valid : every is_digit digits ≡ true
  pub value : decimal_from 0 digits ≡ port
  pub range : (0 < port) × (port ≤ 65535)

written-is_visible :
    (bracketed : Bool) (host digits : List ℕ)
    → every (valid_host_character bracketed) host ≡ true
    → every is_digit digits ≡ true
    → every is_visible (written bracketed host digits) ≡ true
unfolding every is_visible
written-is_visible bracketed host digits h d =
    let a =
      every-weaken (valid_host_character bracketed) is_visible host (host-is_visible bracketed) h in
    let b = every-weaken is_digit is_visible digits is_digit-is_visible d in
    elim (Bool-cases bracketed) [
      | inl is ↦ rw is (ground (arith, a, b, every-append is_visible host (b']' ∷ b':' ∷ digits)))
      | inr is ↦ rw is (ground (arith, a, b, every-append is_visible host (b':' ∷ digits)))
    ]

-- An address that is written this way falls into these parts, and its last colon is before the port.
abbrev Splits : Bool → List ℕ → List ℕ → Type 0
Splits bracketed host digits =
    let address = written bracketed host digits in
    (address_parts address ≡ some (record { ipv6 = bracketed; host = host; port = digits }))
    × ((k : ℕ) × (strrchr address b':' ≡ some k) × (drop (k + 1) address ≡ digits))

plain-Splits :
    (host digits : List ℕ)
    → 0 < length host
    → every (valid_host_character false) host ≡ true
    → every is_digit digits ≡ true
    → Splits false host digits
unfolding address_parts
plain-Splits host digits some_there h d =
    let rest = b':' ∷ digits in
    let first =
      strchr-append b':' host digits
        (every-weaken (valid_host_character false) (is_not b':') host host-colon h) in
    let last =
      strrchr-append b':' host digits (every-weaken is_digit (is_not b':') digits digit-colon d) in
    let front = take-append host rest in
    let back = drop-behind host rest (length host + 1) 1 refl in
    let opened = host-opens host rest some_there h in
    (rw (opened, first, last) (ground (arith, front, back)), (length host, last, back))

bracketed-Splits :
    (host digits : List ℕ)
    → 0 < length host
    → every (valid_host_character true) host ≡ true
    → every is_digit digits ≡ true
    → Splits true host digits
unfolding address_parts strchr strrchr
bracketed-Splits host digits some_there h d =
    let rest = b']' ∷ b':' ∷ digits in
    let n = length host in
    let first =
      strchr-append b']' host (b':' ∷ digits)
        (every-weaken (valid_host_character true) (is_not b']') host host-bracket h) in
    let last =
      strrchr-append b':' (host ++ b']' ∷ []) digits
        (every-weaken is_digit (is_not b':') digits digit-colon d) in
    let front = take-append host rest in
    let address = written true host digits in
    let opening = b'[' ∷ host in
    let colon = get_or-behind opening rest (suc n + 1) 1 0 (omega arith) in
    let behind = drop-behind opening rest (suc n + 2) 2 (omega arith) in
    let inner : take (suc n - 1) (drop 1 address) ≡ host =
      let e : suc n - 1 ≡ n = omega arith in ap (λ k. take k (host ++ rest)) e ∙ front in
    let whole : host ++ b']' ∷ [] ++ b':' ∷ digits ≡ host ++ rest =
      append_assoc host (b']' ∷ []) (b':' ∷ digits) in
    let k = length (host ++ b']' ∷ []) in
    let end : strrchr (host ++ rest) b':' ≡ some k = ap (λ l. strrchr l b':') (sym whole) ∙ last in
    let port =
      ap (λ l. drop (k + 1) l) (sym whole)
      ∙ drop-behind (host ++ b']' ∷ []) (b':' ∷ digits) (k + 1) 1 refl in
    let port_at : drop (suc k + 1) address ≡ digits =
      let e : suc k + 1 ≡ suc (k + 1) = omega arith in ap (λ m. drop m address) e ∙ port in
    (rw first (ground (arith, colon, behind, inner)), (suc k, rw end refl, port_at))

written-Splits :
    (bracketed : Bool) (host digits : List ℕ)
    → 0 < length host
    → every (valid_host_character bracketed) host ≡ true
    → every is_digit digits ≡ true
    → Splits bracketed host digits
written-Splits true host digits = bracketed-Splits host digits
written-Splits false host digits = plain-Splits host digits

written-length :
    (bracketed : Bool) (host digits : List ℕ) → 0 < length (written bracketed host digits)
written-length true host digits = omega arith
written-length false host digits = omega (arith, length-append host (b':' ∷ digits))

-- An address that is written this way is valid, and its port is the number.
address_port-written :
    (address : List ℕ) (port : ℕ) → IsAddress address port → address_port address ≡ some port
unfolding address_port valid_address safe_ascii
address_port-written address port i =
    let (parts, rest) =
      written-Splits i.bracketed i.host i.digits i.host_some i.host_valid i.digits_valid in
    let (k, last, behind) = rest in
    let visible = written-is_visible i.bracketed i.host i.digits i.host_valid i.digits_valid in
    let parts_at = ap (λ a. address_parts a) i.shape ∙ parts in
    let last_at = ap (λ a. strrchr a b':') i.shape ∙ last in
    let behind_at = ap (λ a. drop (k + 1) a) i.shape ∙ behind in
    let visible_at = ap (λ a. every is_visible a) i.shape ∙ visible in
    let small : decimal_from 0 i.digits ≤ 65535 = omega (arith, i.value, i.range) in
    let read = read_port_lem 0 i.digits i.digits_valid small in
    let number = port_value_lem 0 i.digits small in
    let some_there =
      subst (λ (a : List ℕ). 0 < length a) (sym i.shape)
        (written-length i.bracketed i.host i.digits) in
    rw (parts_at, last_at, behind_at)
      (ground (
        arith, visible_at, read, number, some_there, i.short, i.host_valid, i.digits_some, i.value,
        i.range,
      ))

drop-get_or : (xs : List ℕ) (i v : ℕ) → get_or xs i 0 ≡ v → v ≢ 0 → drop i xs ≡ v ∷ drop (suc i) xs
drop-get_or [] i v e some_byte = absurd (some_byte (sym e))
drop-get_or (x ∷ xs) zero v e some_byte = ap (λ y. y ∷ xs) e
drop-get_or (x ∷ xs) (suc i) v e some_byte = drop-get_or xs i v e some_byte

-- How a valid address falls into its parts.
abbrev IsWritten : List ℕ → Parts → Type 0
IsWritten address parts =
    (address ≡ written parts.ipv6 parts.host parts.port) × (0 < length parts.host)

plain-IsWritten :
    (address : List ℕ) (parts : Parts)
    → plain_parts address (strrchr address b':') (strchr address b':') ≡ some parts
    → IsWritten address parts
plain-IsWritten address parts e = elim (Option-cases (strrchr address b':')) [
  | inl e1 ↦ absurd (ground arith)
  | inr (colon, e1) ↦ elim (Option-cases (strchr address b':')) [
    | inl e2 ↦ absurd (ground arith)
    | inr (first, e2) ↦
        let (whole, count) = strchr-some b':' first address e2 in
        let same : first ≡ colon = ground arith in
        let more : suc colon ≡ colon + 1 = omega arith in
        let is : parts
            ≡ record { ipv6 = false; host = take colon address; port = drop (colon + 1) address } =
          ground arith in
        let shape : address ≡ take colon address ++ b':' ∷ drop (colon + 1) address =
          whole
          ∙ ap (λ c. take c address ++ b':' ∷ drop (suc c) address) same
          ∙ ap (λ c. take colon address ++ b':' ∷ drop c address) more in
        let some_there : 0 < colon = ground arith in
        rw is (
          shape,
          omega (arith, ap (λ c. length (take c address)) (sym same), count, same, some_there),
        )
  ]
]

bracketed-IsWritten :
    (rest : List ℕ) (parts : Parts)
    → bracketed_parts (b'[' ∷ rest) (next_index (strchr rest b']')) ≡ some parts
    → IsWritten (b'[' ∷ rest) parts
bracketed-IsWritten rest parts e = elim (Option-cases (strchr rest b']')) [
  | inl e1 ↦ absurd (ground arith)
  | inr (c, e1) ↦
      let (whole, count) = strchr-some b']' c rest e1 in
      let address = b'[' ∷ rest in
      let colon : get_or address (suc c + 1) 0 ≡ b':' = ground arith in
      let at : suc c + 1 ≡ suc (suc c) = omega arith in
      let colon_at = ap (λ m. get_or address m 0) (sym at) ∙ colon in
      let behind = drop-get_or rest (suc c) b':' colon_at (omega arith) in
      let is : parts
          ≡ record { ipv6 = true; host = take (suc c - 1) rest; port = drop (suc c + 2) address } =
        ground arith in
      let host : suc c - 1 ≡ c = omega arith in
      let port : suc c + 2 ≡ suc (suc (suc c)) = omega arith in
      let shape = whole ∙ ap (λ l. take c rest ++ b']' ∷ l) behind in
      let some_there : 0 < c = ground arith in
      rw (is, host, port) (ap (λ l. b'[' ∷ l) shape, omega (arith, count, some_there))
]

address_parts-IsWritten :
    (address : List ℕ) (parts : Parts)
    → address_parts address ≡ some parts
    → IsWritten address parts
unfolding address_parts strchr
address_parts-IsWritten address parts e = elim (Bool-cases (get_or address 0 0 == b'[')) [
  | inr plain ↦ plain-IsWritten address parts (ground arith)
  | inl bracket ↦ bracket_IsWritten address parts (ground arith) bracket
]
  where
    bracket_IsWritten :
        (a : List ℕ) (q : Parts)
        → bracketed_parts a (strchr a b']') ≡ some q
        → (get_or a 0 0 == b'[') ≡ true
        → IsWritten a q
    bracket_IsWritten [] q f b = absurd (ground arith)
    bracket_IsWritten (x ∷ rest) q f b =
        let opening : x ≡ b'[' = ground arith in
        let next : strchr (b'[' ∷ rest) b']' ≡ next_index (strchr rest b']') = refl in
        let g = ap (λ y. bracketed_parts (y ∷ rest) (strchr (y ∷ rest) b']')) (sym opening) ∙ f in
        subst (λ y. IsWritten (y ∷ rest) q) (sym opening) (bracketed-IsWritten rest q g)

valid_parts-some :
    (parts : Parts)
    → valid_parts (some parts) ≡ true
    → (0 < length parts.port)
      × (every (valid_host_character parts.ipv6) parts.host ≡ true)
      × (is_port (read_port 0 parts.port) ≡ true)
valid_parts-some parts e = (ground arith, ground arith, ground arith)

-- A valid address is written as `host:port` or `[host]:port`.
valid_address-IsAddress :
    (address : List ℕ) → valid_address address ≡ true → (port : ℕ) × IsAddress address port
unfolding valid_address safe_ascii
valid_address-IsAddress address ok = elim (Option-cases (address_parts address)) [
  | inl e1 ↦ absurd (ground arith)
  | inr (parts, e1) ↦
      let (shape, host_some) = address_parts-IsWritten address parts e1 in
      let inner : valid_parts (some parts) ≡ true = ground arith in
      let (digits_some, host_valid, is_number) = valid_parts-some parts inner in
      elim (Option-cases (read_port 0 parts.port)) [
        | inl e2 ↦ absurd (ground arith)
        | inr (port, e2) ↦
            let (digits_valid, value, small) = read_port-some 0 port parts.port (omega arith) e2 in
            (
              port,
              record {
                bracketed = parts.ipv6;
                host = parts.host;
                digits = parts.port;
                shape = shape;
                short = ground arith;
                host_some = host_some;
                host_valid = host_valid;
                digits_some = digits_some;
                digits_valid = digits_valid;
                value = value;
                range = (ground arith, small);
              },
            )
      ]
]

-- An address has a port exactly where it is `host:port` or, for an IPv6 address, `[host]:port`, of
-- less than 96 bytes, with a host of at least one byte that an address may have, and digits that make
-- a number from 1 to 65,535: that number is the port.
pub address_port_iff :
    (address : List ℕ) (port : ℕ) → (address_port address ≡ some port) ↔ IsAddress address port
unfolding address_port
address_port_iff address port = (
  λ e.
      let ok : valid_address address ≡ true = ground arith in
      let (other, i) = valid_address-IsAddress address ok in
      let same : other ≡ port = ground (arith, address_port-written address other i) in
      subst (λ p. IsAddress address p) same i,
  λ i. address_port-written address port i,
)
