-- ===== src/Companion/Failover.antt =====
-- The choice of the hub to connect to:
-- firmware/components/companion_link/deck_companion_failover.cpp and its header. An id is the text
-- in its `char` array, a list of bytes; a profile list holds the first `count` profiles; an index
-- of -1 is `none`.
pub mod Choice
pub mod Rounds
mod Examples
use s3_rlcd_deck.Base.{
  ℕ, suc, ◌-◌, Bool, true, false, not, ◌&&◌, ◌||◌, Option, none, some, List, [], ◌∷◌, ltb, leb,
  ◌==◌, ◌!=◌, if◌then◌else◌, length, same_text, test_bit, set_bit,
}
use s3_rlcd_deck.Base.Int.{ℤ, ltb_ℤ, eqb_ℤ}

pub data Event : Type 0 where
  profiles_observed transport_failed online tick : Event

pub data ActionKind : Type 0 where
  no_action connect : ActionKind

pub record Action : Type 0 where
  pub kind : ActionKind
  pub profile_generation : ℕ
  pub profile_id : List ℕ

-- The part of a profile and of the profiles' snapshot that the policy reads.
pub record Profile : Type 0 where
  pub profile_id : List ℕ
  pub priority : ℤ
  pub last_success_unix_ms : ℕ

pub record Profiles : Type 0 where
  pub generation : ℕ
  pub has_active : Bool
  pub active_profile_id : List ℕ
  pub profiles : List Profile

pub record Failover : Type 0 where
  pub initialized : Bool
  pub online : Bool
  pub offline : Bool
  pub round_active : Bool
  pub attempted_mask : ℕ
  pub profile_generation : ℕ
  pub offline_since_ms : ℕ
  pub stored_active_profile_id : List ℕ
  pub target_profile_id : List ℕ

abbrev pub offline_window_ms : ℕ
offline_window_ms = 30_000

abbrev pub max_profiles : ℕ
max_profiles = 5

abbrev pub profile_id_capacity : ℕ
profile_id_capacity = 72

abbrev pub no_action_at_all : Action
no_action_at_all = record { kind = no_action; profile_generation = 0; profile_id = [] }

-- What `advance` leaves behind: the policy, the action, and its answer.
abbrev pub Outcome : Type 0
Outcome = Failover × Action × Bool

-- An id that does not fit the destination is not copied.
abbrev pub copies : List ℕ → Bool
copies input = ltb (length input) profile_id_capacity

unfoldable pub connect_to : Failover → Profiles → List ℕ → Outcome
connect_to f p profile_id = if not (copies profile_id) then (f, no_action_at_all, false) else (
  record f { target_profile_id = profile_id; online = false },
  record { kind = connect; profile_generation = p.generation; profile_id = profile_id },
  true,
)

unfoldable pub profile_index : List Profile → List ℕ → ℕ → Option ℕ
profile_index [] profile_id index = none
profile_index (q ∷ qs) profile_id index =
    let rest = profile_index qs profile_id (suc index) in
    if same_text q.profile_id profile_id then some index else rest

-- The candidate comes before the best so far.
abbrev pub is_better : Profile → Profile → Bool
is_better q best =
    ltb_ℤ best.priority q.priority
    || eqb_ℤ q.priority best.priority && ltb best.last_success_unix_ms q.last_success_unix_ms

abbrev pub is_skipped : Failover → ℕ → Profile → Bool
is_skipped f index q =
    test_bit f.attempted_mask index || same_text q.profile_id f.stored_active_profile_id

-- The loop's choice between the profile at `index` and the best so far, an index and its profile.
unfoldable pub better_of : Failover → ℕ → Profile → Option (ℕ × Profile) → Option (ℕ × Profile)
better_of f index q none = if is_skipped f index q then none else some (index, q)
better_of f index q (some (i, best)) =
    if is_skipped f index q
    then some (i, best)
    else if is_better q best
    then some (index, q)
    else some (i, best)

unfoldable pub best_loop : Failover → ℕ → Option (ℕ × Profile) → List Profile → Option (ℕ × Profile)
unfolding better_of
best_loop f index best [] = best
best_loop f index best (q ∷ qs) = best_loop f (suc index) (better_of f index q best) qs

unfoldable pub best_unattempted : Failover → Profiles → Option (ℕ × Profile)
unfolding best_loop
best_unattempted f p = best_loop f 0 none p.profiles

-- `advance_round` where no candidate is left.
unfoldable pub end_round : Failover → Profiles → ℕ → Outcome
unfolding connect_to
end_round f p now_ms =
    let ended = record f { round_active = false; attempted_mask = 0; offline_since_ms = now_ms } in
    if same_text f.target_profile_id f.stored_active_profile_id
    then (ended, no_action_at_all, true)
    else connect_to ended p f.stored_active_profile_id

-- `advance_round` with the next candidate.
unfoldable pub try_next : Failover → Profiles → ℕ → Profile → Outcome
unfolding connect_to
try_next f p next q =
    connect_to (record f { attempted_mask = set_bit f.attempted_mask next }) p q.profile_id

unfoldable pub advance_round : Failover → Profiles → ℕ → Outcome
unfolding end_round try_next
advance_round f p now_ms = elim (best_unattempted f p) [
  | none ↦ end_round f p now_ms
  | some (next, q) ↦ try_next f p next q
]

abbrev pub is_online_event : Event → Bool
is_online_event online = true
is_online_event _ = false

abbrev pub is_empty : List ℕ → Bool
is_empty [] = true
is_empty (c ∷ text) = false

abbrev pub no_profiles : List Profile → Bool
no_profiles [] = true
no_profiles (q ∷ qs) = false

unfoldable pub profiles_changed : Failover → Profiles → ℕ → Event → Outcome
unfolding connect_to
profiles_changed f p now_ms event =
    let accepted =
      is_online_event event
      && p.has_active
      && not (is_empty f.target_profile_id)
      && same_text f.target_profile_id p.active_profile_id in
    let reset : Failover = record {
      initialized = true;
      online = accepted;
      offline = p.has_active && not accepted;
      round_active = false;
      attempted_mask = 0;
      profile_generation = p.generation;
      offline_since_ms = now_ms;
      stored_active_profile_id = [];
      target_profile_id = [];
    } in
    let stored = record reset { stored_active_profile_id = p.active_profile_id } in
    if not p.has_active || no_profiles p.profiles
    then (reset, no_action_at_all, true)
    else if not (copies p.active_profile_id)
    then (reset, no_action_at_all, false)
    else if accepted
    then (record stored { target_profile_id = p.active_profile_id }, no_action_at_all, true)
    else connect_to stored p p.active_profile_id

-- The events of an unchanged profile generation.
unfoldable pub on_online : Failover → Outcome
on_online f = (
  record f { online = true; offline = false; round_active = false; attempted_mask = 0 },
  no_action_at_all,
  true,
)

unfoldable pub on_transport_failed : Failover → Profiles → ℕ → Outcome
unfolding advance_round
on_transport_failed f p now_ms =
    let down = record f {
      online = false;
      offline = true;
      offline_since_ms = if f.offline then f.offline_since_ms else now_ms;
    } in
    if f.round_active then advance_round down p now_ms else (down, no_action_at_all, true)

-- A round opens with the stored active profile counted as attempted.
unfoldable pub open_round : Failover → Profiles → Failover
unfolding profile_index
open_round f p = elim (profile_index p.profiles f.stored_active_profile_id 0) [
  | none ↦ record f { round_active = true }
  | some active ↦ record f { round_active = true; attempted_mask = set_bit f.attempted_mask active }
]

unfoldable pub on_tick : Failover → Profiles → ℕ → Outcome
unfolding advance_round open_round
on_tick f p now_ms =
    if not f.offline
      || f.round_active
      || ltb now_ms f.offline_since_ms
      || ltb (now_ms - f.offline_since_ms) offline_window_ms
    then (f, no_action_at_all, true)
    else advance_round (open_round f p) p now_ms

unfoldable pub on_event : Event → Failover → Profiles → ℕ → Outcome
unfolding on_online on_transport_failed on_tick
on_event online f p now_ms = on_online f
on_event transport_failed f p now_ms = on_transport_failed f p now_ms
on_event tick f p now_ms = on_tick f p now_ms
on_event profiles_observed f p now_ms = (f, no_action_at_all, true)

-- Where there are more profiles than the capacity, the code answers false and writes nothing: the
-- empty action then stands for the caller's own.
unfoldable pub advance : Failover → Profiles → ℕ → Event → Outcome
unfolding profiles_changed on_event
advance f p now_ms event =
    if ltb max_profiles (length p.profiles)
    then (f, no_action_at_all, false)
    else if not f.initialized || f.profile_generation != p.generation
    then profiles_changed f p now_ms event
    else on_event event f p now_ms
