-- ===== src/Profiles/Scanning.antt =====
-- The searches and loops over an address in deck_companion_profiles.cpp.
use s3_rlcd_deck.Base.{
  ℕ, zero, suc, ◌+◌, ◌-◌, ◌*◌, ◌%◌, ◌^◌, ◌≤◌, ◌<◌, ◌≡◌, ap, refl, Bool, true, false, not, ◌&&◌,
  none, some, List, [], ◌∷◌, ◌++◌, ◌==◌, length, get_or, take, drop, arith,
}
use s3_rlcd_deck.Profiles.Text.{
  every, is_visible, is_digit, valid_host_character, strchr, strrchr, read_port, port_value,
}

-- The number that digits stand for, behind others.
unfoldable pub decimal_from : ℕ → List ℕ → ℕ
decimal_from n [] = n
decimal_from n (d ∷ digits) = decimal_from (n * 10 + (d - b'0')) digits

pub every-append :
    (test : ℕ → Bool) (xs ys : List ℕ) → every test (xs ++ ys) ≡ (every test xs && every test ys)
unfolding every
every-append test [] ys = refl
every-append test (x ∷ xs) ys = ground (arith, every-append test xs ys)

pub every-weaken :
    (test other : ℕ → Bool) (xs : List ℕ)
    → ((x : ℕ) → test x ≡ true → other x ≡ true)
    → every test xs ≡ true
    → every other xs ≡ true
unfolding every
every-weaken test other [] h all = refl
every-weaken test other (x ∷ xs) h all = ground (arith, h x, every-weaken test other xs h)

pub host-is_visible :
    (ipv6 : Bool) (x : ℕ) → valid_host_character ipv6 x ≡ true → is_visible x ≡ true
unfolding valid_host_character is_visible
host-is_visible ipv6 x h = ground arith

pub is_digit-is_visible : (x : ℕ) → is_digit x ≡ true → is_visible x ≡ true
unfolding is_digit is_visible
is_digit-is_visible x h = ground arith

-- The byte that ends a host is none of its own.
abbrev pub is_not : ℕ → ℕ → Bool
is_not byte x = not (x == byte)

pub host-colon : (x : ℕ) → valid_host_character false x ≡ true → is_not b':' x ≡ true
unfolding valid_host_character
host-colon x h = ground arith

pub host-bracket : (x : ℕ) → valid_host_character true x ≡ true → is_not b']' x ≡ true
unfolding valid_host_character
host-bracket x h = ground arith

pub host-open : (x : ℕ) → valid_host_character false x ≡ true → is_not b'[' x ≡ true
unfolding valid_host_character
host-open x h = ground arith

pub digit-colon : (x : ℕ) → is_digit x ≡ true → is_not b':' x ≡ true
unfolding is_digit
digit-colon x h = ground arith

pub strchr-append :
    (byte : ℕ) (xs rest : List ℕ)
    → every (is_not byte) xs ≡ true
    → strchr (xs ++ byte ∷ rest) byte ≡ some (length xs)
unfolding strchr every
strchr-append byte [] rest h = ground arith
strchr-append byte (x ∷ xs) rest h = ground (arith, strchr-append byte xs rest)

pub strrchr-none : (byte : ℕ) (xs : List ℕ) → every (is_not byte) xs ≡ true → strrchr xs byte ≡ none
unfolding strrchr every
strrchr-none byte [] h = refl
strrchr-none byte (x ∷ xs) h = ground (arith, strrchr-none byte xs)

pub strrchr-append :
    (byte : ℕ) (xs rest : List ℕ)
    → every (is_not byte) rest ≡ true
    → strrchr (xs ++ byte ∷ rest) byte ≡ some (length xs)
unfolding strrchr
strrchr-append byte [] rest h = ground (arith, strrchr-none byte rest h)
strrchr-append byte (x ∷ xs) rest h = ground (arith, strrchr-append byte xs rest h)

pub strchr-some :
    (byte k : ℕ) (xs : List ℕ)
    → strchr xs byte ≡ some k
    → (xs ≡ take k xs ++ byte ∷ drop (suc k) xs) × (length (take k xs) ≡ k)
unfolding strchr
strchr-some byte k [] e = absurd (ground arith)
strchr-some byte zero (x ∷ xs) e =
    let same : x ≡ byte = ground arith in (ap (λ y. y ∷ xs) same, refl)
strchr-some byte (suc k) (x ∷ xs) e =
    let (whole, count) = strchr-some byte k xs (ground arith) in
    (ap (λ l. x ∷ l) whole, omega (arith, count))

pub decimal_from-le : (n : ℕ) (digits : List ℕ) → n ≤ decimal_from n digits
unfolding decimal_from
decimal_from-le n [] = omega arith
decimal_from-le n (d ∷ digits) = omega (arith, decimal_from-le (n * 10 + (d - b'0')) digits)

pub read_port_lem :
    (n : ℕ) (digits : List ℕ)
    → every is_digit digits ≡ true
    → decimal_from n digits ≤ 65535
    → read_port n digits ≡ some (decimal_from n digits)
unfolding read_port decimal_from every
read_port_lem n [] h small = refl
read_port_lem n (d ∷ digits) h small =
    let next = n * 10 + (d - b'0') in
    ground (arith, read_port_lem next digits, decimal_from-le next digits)

pub read_port-some :
    (n p : ℕ) (digits : List ℕ)
    → n ≤ 65535
    → read_port n digits ≡ some p
    → (every is_digit digits ≡ true) × (decimal_from n digits ≡ p) × (p ≤ 65535)
unfolding read_port decimal_from every
read_port-some n p [] small e = ground arith
read_port-some n p (d ∷ digits) small e =
    ground (arith, read_port-some (n * 10 + (d - b'0')) p digits)

pub port_value_lem :
    (n : ℕ) (digits : List ℕ)
    → decimal_from n digits ≤ 65535
    → port_value n digits ≡ decimal_from n digits
unfolding port_value decimal_from
port_value_lem n [] small = refl
port_value_lem n (d ∷ digits) small =
    let next = n * 10 + (d - b'0') in
    let same : next % 2 ^ 32 ≡ next = omega (arith, decimal_from-le next digits) in
    rw same (port_value_lem next digits small)

-- Behind the end of a list.
pub drop-behind : (xs ys : List ℕ) (m n : ℕ) → m ≡ length xs + n → drop m (xs ++ ys) ≡ drop n ys
drop-behind [] ys m n e = ap (λ k. drop k ys) (omega (arith, e))
drop-behind (x ∷ xs) ys zero n e = absurd (omega arith)
drop-behind (x ∷ xs) ys (suc m) n e = drop-behind xs ys m n (omega arith)

pub get_or-behind :
    (xs ys : List ℕ) (m n d : ℕ) → m ≡ length xs + n → get_or (xs ++ ys) m d ≡ get_or ys n d
get_or-behind [] ys m n d e = ap (λ k. get_or ys k d) (omega (arith, e))
get_or-behind (x ∷ xs) ys zero n d e = absurd (omega arith)
get_or-behind (x ∷ xs) ys (suc m) n d e = get_or-behind xs ys m n d (omega arith)

-- A plain host opens no bracket.
pub host-opens :
    (host rest : List ℕ)
    → 0 < length host
    → every (valid_host_character false) host ≡ true
    → (get_or (host ++ rest) 0 0 == b'[') ≡ false
unfolding every
host-opens [] rest some_there h = absurd (omega arith)
host-opens (x ∷ host) rest some_there h = ground (arith, host-open x)
