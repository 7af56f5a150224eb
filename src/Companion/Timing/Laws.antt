-- ===== src/Companion/Timing/Laws.antt =====
-- The trusted time of deck_companion_link_timing.cpp over a sequence of samples.
use s3_rlcd_deck.Base.{
  ℕ, ◌+◌, ◌≤◌, ◌<◌, ◌≡◌, ◌⊎◌, true, false, none, some, List, [], ◌∷◌, u64_max, arith,
}
use s3_rlcd_deck.Companion.Timing.{TrustedClock, current, accept}

-- A sample of the server's time, and the monotonic time of its receipt.
pub record Sample : Type 0 where
  pub server_utc_ms : ℕ
  pub received_ms : ℕ

unfoldable pub accept_all : TrustedClock → List Sample → TrustedClock
accept_all c [] = c
accept_all c (s ∷ samples) = accept_all (accept c s.server_utc_ms s.received_ms).0 samples

-- The samples are received in order between two times, and claim no time after `latest`.
abbrev pub Ordered : ℕ → ℕ → ℕ → List Sample → Type 0
Ordered from until latest [] = from ≤ until
Ordered from until latest (s ∷ samples) =
    (from ≤ s.received_ms) × (s.server_utc_ms ≤ latest) × Ordered s.received_ms until latest samples

-- The clock was set from samples up to `latest`.
abbrev pub SetFrom : ℕ → TrustedClock → Type 0
SetFrom latest c = c.base_utc_ms ≤ latest + c.base_monotonic_ms

-- The clock, read from `now` on, tells no time before `u`.
abbrev AtLeast : TrustedClock → ℕ → ℕ → Type 0
AtLeast c u now =
    ((c.rollback_latched ≡ true) × (u ≤ c.recovery_utc_floor_ms))
    ⊎ ((c.rollback_latched ≡ false)
        × (c.has_time ≡ true)
        × (c.base_monotonic_ms ≤ now)
        × (u + c.base_monotonic_ms ≤ c.base_utc_ms + now))

Ordered-le :
    (from until latest : ℕ) (samples : List Sample)
    → Ordered from until latest samples
    → from ≤ until
Ordered-le from until latest [] h = h
Ordered-le from until latest (s ∷ samples) h =
    omega (arith, h.0, Ordered-le s.received_ms until latest samples h.2)

accept-AtLeast :
    (c : TrustedClock) (u now server received latest : ℕ)
    → now ≤ received
    → server ≤ latest
    → latest + received ≤ u64_max
    → SetFrom latest c
    → AtLeast c u now
    → AtLeast (accept c server received).0 u received × SetFrom latest (accept c server received).0
unfolding accept
accept-AtLeast c u now server received latest later known fits set least = ground arith

accept_all-AtLeast :
    (c : TrustedClock) (u now until latest : ℕ) (samples : List Sample)
    → latest + until ≤ u64_max
    → Ordered now until latest samples
    → SetFrom latest c
    → AtLeast c u now
    → AtLeast (accept_all c samples) u until
unfolding accept_all
accept_all-AtLeast c u now until latest [] fits ordered set least = ground arith
accept_all-AtLeast c u now until latest (s ∷ samples) fits ordered set least =
    let h = Ordered-le s.received_ms until latest samples ordered.2 in
    let step =
      accept-AtLeast c u now s.server_utc_ms s.received_ms latest ordered.0 ordered.1
        (omega (arith, h)) set least in
    accept_all-AtLeast (accept c s.server_utc_ms s.received_ms).0 u s.received_ms until latest
      samples fits ordered.2 step.1 step.0

-- The trusted time never goes back: where the clock tells `u` at one time, and later `v`, then `v`
-- is not before `u`, whatever samples it was given in between, in the order of their receipt, also
-- where one of them made it fall silent and another woke it up, if the clock was set from samples
-- up to `latest`, as those in between, and the sum with the time of the second reading fits 64 bits.
pub accept_all_monotone :
    (c : TrustedClock) (u v now until latest : ℕ) (samples : List Sample)
    → latest + until ≤ u64_max
    → SetFrom latest c
    → Ordered now until latest samples
    → current c now ≡ some u
    → current (accept_all c samples) until ≡ some v
    → u ≤ v
unfolding current
accept_all_monotone c u v now until latest samples fits set ordered before after =
    ground (arith, accept_all-AtLeast c u now until latest samples fits ordered set)

-- A silent clock, and the sample that wakes it up.
accept-recovery :
    (d : TrustedClock) (later server : ℕ)
    → d.rollback_latched ≡ true
    → (current d later ≡ none)
      × ((accept d server later ≡ (d, false))
          ⊎ ((d.recovery_utc_floor_ms ≤ server)
              × (current (accept d server later).0 later ≡ some server)))
unfolding accept
accept-recovery d later server silent = ground arith

-- A sample that goes back behind the newest one silences the clock, until one comes that is not
-- before that newest sample, nor before the time that the clock told when it fell silent: any
-- earlier sample is refused and changes nothing, and such a one is taken and is the time.
pub accept_recovers :
    (c : TrustedClock) (back received later server : ℕ)
    → c.rollback_latched ≡ false
    → c.has_time ≡ true
    → back < c.server_utc_high_water_ms
    → let d = (accept c back received).0 in
      (current d later ≡ none)
      × (c.server_utc_high_water_ms ≤ d.recovery_utc_floor_ms)
      × ((accept d server later ≡ (d, false))
          ⊎ ((d.recovery_utc_floor_ms ≤ server)
              × (current (accept d server later).0 later ≡ some server)))
unfolding accept
accept_recovers c back received later server free has h =
    let d = (accept c back received).0 in
    let silent : d.rollback_latched ≡ true = ground arith in
    let (quiet, next) = accept-recovery d later server silent in (quiet, ground arith, next)
