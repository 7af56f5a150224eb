-- ===== src/Board/ButtonInput.antt =====
-- The debounced buttons: firmware/components/board_support/deck_button_input.cpp. The buttons are
-- active-low.
pub mod Presses
use s3_rlcd_deck.Base.{
  ℕ, ◌+◌, ◌-◌, ◌%◌, ◌^◌, Bool, true, false, not, ◌&&◌, ◌||◌, Option, none, some, ltb, leb, ◌==◌,
  if◌then◌else◌,
}

pub data Event : Type 0 where
  no_event short_press long_press : Event

pub record ButtonInput : Type 0 where
  pub debounce_ms : ℕ
  pub long_press_ms : ℕ
  pub raw_changed_ms : ℕ
  pub press_started_ms : ℕ
  pub raw_level_high : Bool
  pub stable_level_high : Bool
  pub press_active : Bool
  pub long_press_emitted : Bool

unfoldable pub create : ℕ → ℕ → Option ButtonInput
create debounce_ms long_press_ms =
    if debounce_ms == 0 || long_press_ms == 0
    then none
    else some (record {
      debounce_ms = debounce_ms;
      long_press_ms = long_press_ms;
      raw_changed_ms = 0;
      press_started_ms = 0;
      raw_level_high = true;
      stable_level_high = true;
      press_active = false;
      long_press_emitted = false;
    })

abbrev pub same_level : Bool → Bool → Bool
same_level true level = level
same_level false level = not level

-- `now - then` on a uint64_t.
abbrev pub elapsed : ℕ → ℕ → ℕ
elapsed now_ms then_ms = (now_ms + 2 ^ 64 - then_ms) % 2 ^ 64

-- The raw level, and when it changed.
abbrev pub raw_sampled : ButtonInput → Bool → ℕ → ButtonInput
raw_sampled b level_high now_ms =
    if same_level level_high b.raw_level_high
    then b
    else record b { raw_level_high = level_high; raw_changed_ms = now_ms }

-- A new stable level that is low starts a press, and one that is high ends it.
unfoldable pub settled : ButtonInput → ButtonInput × Event
settled b =
    if not b.raw_level_high
    then (
      record b {
        stable_level_high = b.raw_level_high;
        press_active = true;
        long_press_emitted = false;
        press_started_ms = b.raw_changed_ms;
      },
      no_event,
    )
    else if not b.press_active || b.long_press_emitted
    then (record b { stable_level_high = b.raw_level_high }, no_event)
    else (
      record b { stable_level_high = b.raw_level_high; press_active = false },
      if leb b.long_press_ms (elapsed b.raw_changed_ms b.press_started_ms)
          then long_press
          else short_press,
    )

-- `sample` once the raw level is taken.
unfoldable pub sampled : ButtonInput → ℕ → ButtonInput × Event
sampled b now_ms =
    if b.press_active
      && not b.long_press_emitted
      && not b.raw_level_high
      && leb b.long_press_ms (elapsed now_ms b.press_started_ms)
    then (record b { long_press_emitted = true }, long_press)
    else if same_level b.raw_level_high b.stable_level_high
        || ltb (elapsed now_ms b.raw_changed_ms) b.debounce_ms
    then (b, no_event)
    else settled b

unfoldable pub sample : ButtonInput → Bool → ℕ → ButtonInput × Event
sample b level_high now_ms = sampled (raw_sampled b level_high now_ms) now_ms
