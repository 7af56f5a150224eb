-- ===== src/Setup/Mode/Laws.antt =====
-- What any calls of deck_setup_mode.cpp leave: the credentials of a session, and when it stops.
use s3_rlcd_deck.Base.{
  ℕ, ◌+◌, ◌%◌, ◌≡◌, ◌≢◌, ◌∙◌, sym, ap, inl, inr, refl, Bool, true, false, ◌&&◌, ◌||◌, Option, none,
  some, List, [], ◌∷◌, leb, ◌==◌, ◌!=◌, if◌then◌else◌, length, get_or, drop, take, arith,
  passes_under, passes_under-at, Bool-cases, Option-cases,
}
use s3_rlcd_deck.Setup.Mode.{
  Reason, absent, no_wifi, Mode, readable_alphabet, readable, password_from, generate_credentials,
  is_absent, create, entered, enter, boot, activity, stop, tick,
}

-- A letter but I and O, or a digit but 0 and 1.
abbrev pub is_readable : ℕ → Bool
is_readable c = leb b'A' c && leb c b'Z' && c != b'I' && c != b'O' || leb b'2' c && leb c b'9'

readable_table : passes_under (λ n. is_readable (readable n)) 32 ≡ true
unfolding passes_under readable
readable_table = refl

readable-mod : (byte : ℕ) → readable byte ≡ readable (byte % 32)
unfolding readable
readable-mod byte =
    let same : byte % 32 % 32 ≡ byte % 32 = omega arith in
    ap (λ i. get_or readable_alphabet i 0) (sym same)

is_readable-readable : (byte : ℕ) → is_readable (readable byte) ≡ true
is_readable-readable byte =
    ap (λ c. is_readable c) (readable-mod byte)
    ∙ passes_under-at (λ n. is_readable (readable n)) 32 (byte % 32) (omega arith) readable_table

-- Three groups of four readable characters, with dashes between.
abbrev pub all_readable : ℕ → List ℕ → Bool
all_readable index [] = true
all_readable index (c ∷ text) =
    (if index == 4 || index == 9 then c == b'-' else is_readable c) && all_readable (index + 1) text

all_readable-password_from :
    (index : ℕ) (bytes : List ℕ) → (all_readable index (password_from index bytes) ≡ true)
unfolding password_from
all_readable-password_from index [] = refl
all_readable-password_from index (byte ∷ bytes) = ground (
  arith,
  is_readable-readable byte,
  all_readable-password_from (index + 1) bytes,
  all_readable-password_from (index + 2) bytes,
)

-- The credentials that are made are an SSID of 12 bytes with the device's prefix, and a password of
-- 14.
abbrev pub IsCredentials : List ℕ → List ℕ → Type 0
IsCredentials ssid password =
    (length ssid ≡ 12)
    × (take 8 ssid ≡ b'S' ∷ b'3' ∷ b'-' ∷ b'R' ∷ b'L' ∷ b'C' ∷ b'D' ∷ b'-' ∷ [])
    × (length password ≡ 14)
    × (all_readable 0 password ≡ true)

generate_credentials-IsCredentials :
    (bytes : Option (List ℕ)) (ssid password : List ℕ)
    → generate_credentials bytes ≡ some (ssid, password)
    → IsCredentials ssid password
unfolding generate_credentials
generate_credentials-IsCredentials none ssid password e = ground arith
generate_credentials-IsCredentials (some bytes) ssid password e =
    ground (arith, all_readable-password_from 0 (drop 2 bytes))

pub data Call : Type 0 where
  enters : Reason → ℕ → Call
  boots : Bool → ℕ → Call
  activities ticks : ℕ → Call
  stops : Call

module _ {C : Type 0} where
  -- A session has credentials and a reason; without one there are neither.
  pub record IsGuarded (m : Mode C) : Type 0 where
    pub on :
        m.snapshot.active ≡ true
        → IsCredentials m.snapshot.ssid m.snapshot.password × (m.snapshot.reason ≢ absent)
    pub off :
        m.snapshot.active ≡ false
        → (m.snapshot.ssid ≡ []) × (m.snapshot.password ≡ []) × (m.snapshot.reason ≡ absent)

  create-IsGuarded :
      (timeout : ℕ) (random : C → ℕ → C × Option (List ℕ)) (context : C) (m : Mode C)
      → create timeout random context ≡ some m
      → IsGuarded m
  unfolding create
  create-IsGuarded timeout random context m e = ground arith

  entered-IsGuarded :
      (m : Mode C) (reason : Reason) (now_ms : ℕ) (bytes : Option (List ℕ))
      → IsGuarded m
      → is_absent reason ≡ false
      → IsGuarded (entered m reason now_ms (generate_credentials bytes)).0
  unfolding entered
  entered-IsGuarded m reason now_ms bytes i given =
      elim (Option-cases (generate_credentials bytes)) [
        | inl e ↦ rw e i
        | inr ((ssid, password), e) ↦
            let is = generate_credentials-IsCredentials bytes ssid password e in
            rw e (record {
              on = λ h. (is, λ same. ground (arith, same, given));
              off = λ h. ground (arith, h);
            })
      ]

  unfoldable pub step : Mode C → Call → Mode C
  step m (enters reason now_ms) = (enter m reason now_ms).0
  step m (boots has_valid_wifi_config now_ms) = (boot m has_valid_wifi_config now_ms).0
  step m (activities now_ms) = (activity m now_ms).0
  step m (ticks now_ms) = (tick m now_ms).0
  step m stops = (stop m).0

  unfoldable pub run : Mode C → List Call → Mode C
  unfolding step
  run m [] = m
  run m (c ∷ cs) = run (step m c) cs

  enter-IsGuarded :
      (m : Mode C) (reason : Reason) (now_ms : ℕ)
      → IsGuarded m
      → IsGuarded (enter m reason now_ms).0
  unfolding enter
  enter-IsGuarded m reason now_ms i =
      let (context, bytes) = m.random m.random_context 14 in
      elim (Bool-cases (is_absent reason)) [
        | inl wrong ↦ rw wrong i
        | inr given ↦ rw given (
            entered-IsGuarded (record m { random_context = context }) reason now_ms bytes
              (record { on = i.on; off = i.off }) given)
      ]

  step-IsGuarded : (m : Mode C) (c : Call) → IsGuarded m → IsGuarded (step m c)
  unfolding step boot activity tick stop
  step-IsGuarded m (enters reason now_ms) i = enter-IsGuarded m reason now_ms i
  step-IsGuarded m (boots has_valid_wifi_config now_ms) i =
      ground (arith, i, enter-IsGuarded m no_wifi now_ms i)
  step-IsGuarded m (activities now_ms) i = ground (arith, i)
  step-IsGuarded m (ticks now_ms) i = ground (arith, i)
  step-IsGuarded m stops i = ground (arith, i)

  run-IsGuarded : (m : Mode C) (cs : List Call) → IsGuarded m → IsGuarded (run m cs)
  unfolding run
  run-IsGuarded m [] i = i
  run-IsGuarded m (c ∷ cs) i = run-IsGuarded (step m c) cs (step-IsGuarded m c i)

  -- Whatever is called on a new setup mode, a session that is on has a reason and credentials of the
  -- right form; and one that is off has neither left.
  pub run-create-IsGuarded :
      (timeout : ℕ) (random : C → ℕ → C × Option (List ℕ)) (context : C) (m : Mode C)
      (cs : List Call)
      → create timeout random context ≡ some m
      → IsGuarded (run m cs)
  run-create-IsGuarded timeout random context m cs e =
      run-IsGuarded m cs (create-IsGuarded timeout random context m e)
