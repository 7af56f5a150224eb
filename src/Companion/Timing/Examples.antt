-- ===== src/Companion/Timing/Examples.antt =====
-- The theorems about deck_companion_link_timing.cpp at concrete inputs.
use s3_rlcd_deck.Base.{◌≡◌, ◌≤◌, refl, true, false, some, List, [], ◌∷◌, arith}
use s3_rlcd_deck.Companion.Timing.{TrustedClock, current, accept}
use s3_rlcd_deck.Companion.Timing.Laws.{Sample, accept_all, accept_all_monotone}

-- Set at 100 ms to 5000 ms.
abbrev clock : TrustedClock
clock = record {
  base_utc_ms = 5_000;
  base_monotonic_ms = 100;
  server_utc_high_water_ms = 5_000;
  recovery_utc_floor_ms = 0;
  has_time = true;
  rollback_latched = false;
}

-- The first goes back, and the second is not far enough ahead.
abbrev samples : List Sample
samples =
    record { server_utc_ms = 4_000; received_ms = 300 }
    ∷ record { server_utc_ms = 5_100; received_ms = 400 }
    ∷ record { server_utc_ms = 5_300; received_ms = 500 }
    ∷ []

before : current clock 200 ≡ some 5_100
unfolding current
before = refl

after : current (accept_all clock samples) 600 ≡ some 5_400
unfolding accept_all accept current
after = refl

accept_all_monotone_example : 5_100 ≤ 5_400
accept_all_monotone_example =
    accept_all_monotone clock 5_100 5_400 200 600 6_000 samples (omega arith) (omega arith)
      (
        omega arith,
        omega arith,
        (omega arith, omega arith, (omega arith, omega arith, omega arith)),
      )
      before after
