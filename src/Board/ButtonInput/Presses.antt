-- ===== src/Board/ButtonInput/Presses.antt =====
-- How many events the samples of deck_button_input.cpp report.
use s3_rlcd_deck.Base.{
  ℕ, ◌+◌, ◌≤◌, ◌≡◌, Bool, true, false, not, ◌&&◌, some, List, [], ◌∷◌, if◌then◌else◌, arith,
}
use s3_rlcd_deck.Board.ButtonInput.{
  Event, no_event, ButtonInput, create, raw_sampled, settled, sampled, sample,
}

abbrev pub is_event : Event → Bool
is_event no_event = false
is_event _ = true

-- The events of a list of levels and times.
unfoldable pub events : ButtonInput → List (Bool × ℕ) → ℕ
events b [] = 0
events b ((level_high, now_ms) ∷ samples) =
    let (c, event) = sample b level_high now_ms in
    let rest = events c samples in if is_event event then rest + 1 else rest

-- The stable level falls.
abbrev pub is_press : ButtonInput → ButtonInput → Bool
is_press b c = b.stable_level_high && not c.stable_level_high

-- The times that it falls.
unfoldable pub presses : ButtonInput → List (Bool × ℕ) → ℕ
presses b [] = 0
presses b ((level_high, now_ms) ∷ samples) =
    let c = (sample b level_high now_ms).0 in
    let rest = presses c samples in if is_press b c then rest + 1 else rest

-- A press that has reported nothing yet.
abbrev pending : ButtonInput → ℕ
pending b = if b.press_active && not b.long_press_emitted then 1 else 0

sampled-pending :
    (b : ButtonInput) (now_ms : ℕ)
    → let (c, event) = sampled b now_ms in
      pending c + (if is_event event then 1 else 0) ≤ pending b + (if is_press b c then 1 else 0)
unfolding sampled settled
sampled-pending b now_ms = ground arith

raw_sampled-pending :
    (b : ButtonInput) (level_high : Bool) (now_ms : ℕ)
    → let c = raw_sampled b level_high now_ms in
      (pending c ≡ pending b) × (c.stable_level_high ≡ b.stable_level_high)
raw_sampled-pending b level_high now_ms = ground arith

sample-pending :
    (b : ButtonInput) (level_high : Bool) (now_ms : ℕ)
    → let (c, event) = sample b level_high now_ms in
      pending c + (if is_event event then 1 else 0) ≤ pending b + (if is_press b c then 1 else 0)
unfolding sample
sample-pending b level_high now_ms = ground (
  arith,
  raw_sampled-pending b level_high now_ms,
  sampled-pending (raw_sampled b level_high now_ms) now_ms,
)

events-pending :
    (b : ButtonInput) (samples : List (Bool × ℕ)) → events b samples ≤ presses b samples + pending b
unfolding events presses
events-pending b [] = omega arith
events-pending b ((level_high, now_ms) ∷ samples) =
    let c = (sample b level_high now_ms).0 in
    ground (arith, sample-pending b level_high now_ms, events-pending c samples)

-- Whatever levels are sampled, at whatever times, a new button reports no more events than its
-- debounced level has fallen: a press is reported once, as a short or as a long one.
pub events-create :
    (debounce_ms long_press_ms : ℕ) (b : ButtonInput) (samples : List (Bool × ℕ))
    → create debounce_ms long_press_ms ≡ some b
    → events b samples ≤ presses b samples
unfolding create
events-create debounce_ms long_press_ms b samples new =
    let idle : b.press_active ≡ false = ground arith in
    ground (arith, idle, events-pending b samples)
