-- ===== src/Board/Examples.antt =====
-- Runs of deck_button_input.cpp.
use s3_rlcd_deck.Base.{ℕ, ◌≡◌, refl, Bool, true, false, some, List, [], ◌∷◌}
use s3_rlcd_deck.Board.ButtonInput.{ButtonInput, create, sample, sampled, settled}
use s3_rlcd_deck.Board.ButtonInput.Presses.{events}

abbrev button : ButtonInput
button = record {
  debounce_ms = 30;
  long_press_ms = 1_000;
  raw_changed_ms = 0;
  press_started_ms = 0;
  raw_level_high = true;
  stable_level_high = true;
  press_active = false;
  long_press_emitted = false;
}

made : create 30 1_000 ≡ some button
unfolding create
made = refl

-- Pressed at 100 and released at 200, both with a bounce.
abbrev bouncing : List (Bool × ℕ)
bouncing =
    (false, 100)
    ∷ (true, 105)
    ∷ (false, 110)
    ∷ (false, 145)
    ∷ (true, 200)
    ∷ (false, 210)
    ∷ (true, 215)
    ∷ (true, 250)
    ∷ (true, 300)
    ∷ []

one_event : events button bouncing ≡ 1
unfolding events sample sampled settled
one_event = refl
