-- ===== src/Setup/Mode/Examples.antt =====
-- The theorem about deck_setup_mode.cpp at concrete inputs.
use s3_rlcd_deck.Base.{ℕ, ◌+◌, ◌≡◌, refl, false, some, List, [], ◌∷◌, replicate}
use s3_rlcd_deck.Setup.Mode.{Mode, absent, boot_long_press, create, address_text}
use s3_rlcd_deck.Setup.Mode.Laws.{
  Call, enters, activities, ticks, IsGuarded, run, run-create-IsGuarded,
}

abbrev start : Mode ℕ
start = record {
  inactivity_timeout_ms = 600;
  random = λ c n. (c + 1, some (replicate n (c + 40)));
  random_context = 3;
  snapshot = record {
    active = false;
    reason = absent;
    session_id = 0;
    started_at_ms = 0;
    last_activity_ms = 0;
    ssid = [];
    password = [];
    address = address_text;
  };
}

made : create 600 start.random 3 ≡ some start
unfolding create
made = refl

abbrev session : List Call
session = enters boot_long_press 10 ∷ activities 500 ∷ ticks 700 ∷ enters boot_long_press 800 ∷ []

run-create-IsGuarded_example : IsGuarded (run start session)
run-create-IsGuarded_example = run-create-IsGuarded 600 start.random 3 start session made
