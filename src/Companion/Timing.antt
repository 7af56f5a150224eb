-- ===== src/Companion/Timing.antt =====
-- When the link sends, gives up and tries again, and what time the Companion says it is:
-- firmware/components/companion_link/deck_companion_link_timing.cpp and its header.
pub mod Laws
mod Examples
use s3_rlcd_deck.Base.{
  ℕ, ◌+◌, ◌-◌, ◌*◌, ◌^◌, Bool, true, false, not, ◌&&◌, ◌||◌, Option, none, some, List, [], ◌∷◌, ltb,
  leb, ◌==◌, ◌!=◌, if◌then◌else◌, u64_max,
}

pub record Timing : Type 0 where
  pub server_heartbeat_deadline_ms : ℕ
  pub last_server_heartbeat_ms : ℕ
  pub next_client_heartbeat_ms : ℕ

pub record TrustedClock : Type 0 where
  pub base_utc_ms : ℕ
  pub base_monotonic_ms : ℕ
  pub server_utc_high_water_ms : ℕ
  pub recovery_utc_floor_ms : ℕ
  pub has_time : Bool
  pub rollback_latched : Bool

abbrev pub initial_retry_ms : ℕ
initial_retry_ms = 1_000

abbrev pub maximum_retry_ms : ℕ
maximum_retry_ms = 30_000

abbrev pub deadline : ℕ → ℕ → ℕ
deadline now_ms delay_ms = if ltb (u64_max - now_ms) delay_ms then u64_max else now_ms + delay_ms

unfoldable pub begin_connection : ℕ → ℕ → Timing
begin_connection now_ms timeout_ms = record {
  server_heartbeat_deadline_ms = deadline now_ms timeout_ms;
  last_server_heartbeat_ms = 0;
  next_client_heartbeat_ms = 0;
}

unfoldable pub server_heartbeat : Timing → ℕ → ℕ → Timing
server_heartbeat t now_ms client_interval_ms = if client_interval_ms == 0 then t else record {
  last_server_heartbeat_ms = now_ms;
  server_heartbeat_deadline_ms = 0;
  next_client_heartbeat_ms = deadline now_ms client_interval_ms;
}

unfoldable pub server_expired : Timing → ℕ → ℕ → Bool
server_expired t now_ms timeout_ms =
    if timeout_ms == 0
    then false
    else if t.last_server_heartbeat_ms == 0
    then t.server_heartbeat_deadline_ms != 0 && leb t.server_heartbeat_deadline_ms now_ms
    else leb t.last_server_heartbeat_ms now_ms
      && leb timeout_ms (now_ms - t.last_server_heartbeat_ms)

unfoldable pub client_due : Timing → ℕ → Bool
client_due t now_ms = t.next_client_heartbeat_ms != 0 && leb t.next_client_heartbeat_ms now_ms

unfoldable pub client_sent : Timing → ℕ → ℕ → Timing
client_sent t now_ms client_interval_ms =
    if client_interval_ms == 0
    then t
    else record t { next_client_heartbeat_ms = deadline now_ms client_interval_ms }

-- A shift by `attempt - 1`, which is at most 4 here.
unfoldable pub retry_delay_ms : ℕ → ℕ
retry_delay_ms attempt =
    let delay = initial_retry_ms * 2 ^ (attempt - 1) in
    if leb attempt 1
    then initial_retry_ms
    else if leb 6 attempt
    then maximum_retry_ms
    else if ltb maximum_retry_ms delay
    then maximum_retry_ms
    else delay

-- The time at `now_monotonic_ms`, where the clock can tell it.
unfoldable pub current : TrustedClock → ℕ → Option ℕ
current c now_monotonic_ms =
    let elapsed = now_monotonic_ms - c.base_monotonic_ms in
    if not c.has_time || c.rollback_latched || ltb now_monotonic_ms c.base_monotonic_ms
    then none
    else if ltb (u64_max - c.base_utc_ms) elapsed
    then none
    else some (c.base_utc_ms + elapsed)

-- `a > b ? a : b`, where `a` is a time that the clock may not tell.
abbrev pub later_of : Option ℕ → ℕ → ℕ
later_of none b = b
later_of (some a) b = if ltb b a then a else b

-- `accept` of a sample that is taken.
unfoldable pub set_time : TrustedClock → ℕ → ℕ → TrustedClock
unfolding current
set_time c server_utc_ms now_monotonic_ms = record {
  base_utc_ms =
      if c.rollback_latched
      then server_utc_ms
      else later_of (current c now_monotonic_ms) server_utc_ms;
  base_monotonic_ms = now_monotonic_ms;
  server_utc_high_water_ms =
      if not c.has_time || ltb c.server_utc_high_water_ms server_utc_ms
      then server_utc_ms
      else c.server_utc_high_water_ms;
  recovery_utc_floor_ms = 0;
  has_time = true;
  rollback_latched = false;
}

-- `accept` of a sample that goes back behind an earlier one.
unfoldable pub latch : TrustedClock → ℕ → TrustedClock
unfolding current
latch c now_monotonic_ms = record c {
  recovery_utc_floor_ms = later_of (current c now_monotonic_ms) c.server_utc_high_water_ms;
  rollback_latched = true;
}

unfoldable pub accept : TrustedClock → ℕ → ℕ → TrustedClock × Bool
unfolding set_time latch
accept c server_utc_ms now_monotonic_ms =
    if c.rollback_latched
    then if ltb server_utc_ms c.recovery_utc_floor_ms
      then (c, false)
      else (set_time c server_utc_ms now_monotonic_ms, true)
    else if c.has_time && ltb server_utc_ms c.server_utc_high_water_ms
    then (latch c now_monotonic_ms, false)
    else (set_time c server_utc_ms now_monotonic_ms, true)
