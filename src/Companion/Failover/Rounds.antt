-- ===== src/Companion/Failover/Rounds.antt =====
-- How a round of attempts runs: `advance_round` and the events in deck_companion_failover.cpp.
use mathlib.Core.Option.{some-injective}
use s3_rlcd_deck.Base.{
  ℕ, zero, suc, ◌+◌, ◌≤◌, ◌<◌, ◌≡◌, refl, ◌∙◌, ◌⊎◌, inl, inr, true, false, ◌||◌, some, List, [],
  ◌∷◌, arith, get_elem?, Option-cases, length, set_bit, test_bit, set_bit-lt, test_bit-set_bit,
  same_text, same_text_iff, if◌then◌else◌,
}
use s3_rlcd_deck.Companion.Failover.{
  Profile, Profiles, Failover, online, transport_failed, tick, no_action, copies, best_unattempted,
  advance_round, advance, max_profiles, offline_window_ms, no_action_at_all,
}
use s3_rlcd_deck.Companion.Failover.Choice.{best_unattempted_chosen}

abbrev pub AllCopy : List Profile → Type 0
AllCopy [] = Unit {0}
AllCopy (q ∷ qs) = (copies q.profile_id ≡ true) × AllCopy qs

-- How many profiles a round with this mask may still try.
abbrev pub count_left : ℕ → List ℕ → ℕ → List Profile → ℕ
count_left mask stored index [] = 0
count_left mask stored index (q ∷ qs) =
    (if test_bit mask index || same_text q.profile_id stored then 0 else 1)
    + count_left mask stored (suc index) qs

AllCopy-get_elem? :
    (qs : List Profile) (k : ℕ) (q : Profile)
    → AllCopy qs
    → get_elem? qs k ≡ some q
    → copies q.profile_id ≡ true
AllCopy-get_elem? [] k q h e = cc
AllCopy-get_elem? (p ∷ qs) zero q h e = rw (← some-injective p q e) (h.0)
AllCopy-get_elem? (p ∷ qs) (suc k) q h e = AllCopy-get_elem? qs k q h.1 e

count_left-set_bit-le :
    (mask : ℕ) (stored : List ℕ) (i index : ℕ) (qs : List Profile)
    → mask < 256
    → i < 8
    → index + length qs ≤ 8
    → count_left (set_bit mask i) stored index qs ≤ count_left mask stored index qs
count_left-set_bit-le mask stored i index [] hm hi hl = omega arith
count_left-set_bit-le mask stored i index (q ∷ qs) hm hi hl = ground (
  arith,
  test_bit-set_bit mask i index hm hi,
  count_left-set_bit-le mask stored i (suc index) qs hm hi,
)

-- An attempt on a profile that was not skipped leaves fewer.
count_left-set_bit-lt :
    (mask : ℕ) (stored : List ℕ) (i index k : ℕ) (qs : List Profile) (q : Profile)
    → mask < 256
    → i < 8
    → index + length qs ≤ 8
    → index + k ≡ i
    → get_elem? qs k ≡ some q
    → (test_bit mask i || same_text q.profile_id stored) ≡ false
    → count_left (set_bit mask i) stored index qs < count_left mask stored index qs
count_left-set_bit-lt mask stored i index k [] q hm hi hl at e s = cc
count_left-set_bit-lt mask stored i index zero (p ∷ qs) q hm hi hl at e s = ground (
  arith,
  some-injective p q e,
  test_bit-set_bit mask i index hm hi,
  count_left-set_bit-le mask stored i (suc index) qs hm hi,
)
count_left-set_bit-lt mask stored i index (suc k) (p ∷ qs) q hm hi hl at e s = ground (
  arith,
  test_bit-set_bit mask i index hm hi,
  count_left-set_bit-lt mask stored i (suc index) k qs q hm hi,
)

get_elem?-lt : (qs : List Profile) (k : ℕ) (q : Profile) → get_elem? qs k ≡ some q → k < length qs
get_elem?-lt [] k q e = cc
get_elem?-lt (p ∷ qs) zero q e = omega arith
get_elem?-lt (p ∷ qs) (suc k) q e = omega (arith, get_elem?-lt qs k q e)

-- The policy and the profiles agree, every id fits its array, and the mask is a byte.
pub record Fits (f : Failover) (p : Profiles) : Type 0 where
  pub initialized : f.initialized ≡ true
  pub same_generation : f.profile_generation ≡ p.generation
  pub few : length p.profiles ≤ max_profiles
  pub ids : AllCopy p.profiles
  pub stored : copies f.stored_active_profile_id ≡ true
  pub byte : f.attempted_mask < 256

abbrev pub left : Failover → Profiles → ℕ
left f p = count_left f.attempted_mask f.stored_active_profile_id 0 p.profiles

-- No round is under way, and the target is the stored active profile.
abbrev pub IsHome : Failover → Type 0
IsHome f = (f.round_active ≡ false) × (f.target_profile_id ≡ f.stored_active_profile_id)

-- One failure in a round: the round ends at the stored active profile, or fewer are left.
abbrev Progress : Failover → Profiles → Failover → Type 0
Progress f p g =
    Fits g p
    × (g.stored_active_profile_id ≡ f.stored_active_profile_id)
    × (IsHome g ⊎ ((g.round_active ≡ true) × (left g p < left f p)))

advance_round-Progress :
    (f : Failover) (p : Profiles) (now : ℕ)
    → Fits f p
    → f.round_active ≡ true
    → Progress f p (advance_round f p now).0
unfolding advance_round
advance_round-Progress f p now v r = elim (Option-cases (best_unattempted f p)) [
  | inl e ↦ ground (arith, same_text_iff f.target_profile_id f.stored_active_profile_id)
  | inr ((i, q), e) ↦
      let choice = best_unattempted_chosen f p i q e in
      ground (
        arith,
        choice,
        get_elem?-lt p.profiles i q,
        AllCopy-get_elem? p.profiles i q,
        set_bit-lt f.attempted_mask i,
        count_left-set_bit-lt f.attempted_mask f.stored_active_profile_id i 0 i p.profiles q,
      )
]

-- Failures of the transport, one after the other, at the given times.
unfoldable pub fail_all : Failover → Profiles → List ℕ → Failover
fail_all f p [] = f
fail_all f p (now ∷ times) = fail_all (advance f p now transport_failed).0 p times

fail-Progress :
    (f : Failover) (p : Profiles) (now : ℕ)
    → Fits f p
    → f.round_active ≡ true
    → Progress f p (advance f p now transport_failed).0
unfolding advance
fail-Progress f p now v r =
    let down = record f {
      online = false;
      offline = true;
      offline_since_ms = if f.offline then f.offline_since_ms else now;
    } in
    ground (arith, advance_round-Progress down p now)

fail-IsHome :
    (f : Failover) (p : Profiles) (now : ℕ)
    → Fits f p
    → IsHome f
    → let g = (advance f p now transport_failed).0 in
      Fits g p × IsHome g × (g.stored_active_profile_id ≡ f.stored_active_profile_id)
unfolding advance
fail-IsHome f p now v h = ground arith

fail_all-IsHome :
    (f : Failover) (p : Profiles) (times : List ℕ)
    → Fits f p
    → IsHome f
    → IsHome (fail_all f p times)
      × ((fail_all f p times).stored_active_profile_id ≡ f.stored_active_profile_id)
unfolding fail_all
fail_all-IsHome f p [] v h = (h, refl)
fail_all-IsHome f p (now ∷ times) v h =
    let (v', h', same) = fail-IsHome f p now v h in
    let rest = fail_all-IsHome (advance f p now transport_failed).0 p times v' h' in
    (rest.0, rest.1 ∙ same)

-- A round of attempts ends: once the transport has failed more often than there were profiles left
-- to try, at whatever times, no round is under way, and the target is the active profile that was
-- stored when the round was on.
pub fail_all_ends :
    (f : Failover) (p : Profiles) (times : List ℕ)
    → Fits f p
    → f.round_active ≡ true
    → left f p < length times
    → let g = fail_all f p times in
      (g.round_active ≡ false) × (g.target_profile_id ≡ f.stored_active_profile_id)
unfolding fail_all
fail_all_ends f p [] v r h = elim h [ ]
fail_all_ends f p (now ∷ times) v r h =
    let g = (advance f p now transport_failed).0 in
    let step = fail-Progress f p now v r in
    elim (step.2) [
      | inl home ↦
          let rest = fail_all-IsHome g p times step.0 home in (rest.0.0, rest.0.1 ∙ rest.1 ∙ step.1)
      | inr more ↦
          let rest = fail_all_ends g p times step.0 more.0 (omega (arith, more.1)) in
          (rest.0, rest.1 ∙ step.1)
    ]

-- The policy is sticky: on an unchanged profile generation a tick changes nothing and asks for
-- nothing unless the link has been offline for the whole window of 30 s with no round under way;
-- and the hub's answer ends a round and forgets its attempts, whatever the clock says.
pub advance_sticky :
    (f : Failover) (p : Profiles) (now : ℕ)
    → Fits f p
    → (((f.offline ≡ true)
          × (f.round_active ≡ false)
          × (f.offline_since_ms + offline_window_ms ≤ now))
        ⊎ (advance f p now tick ≡ (f, no_action_at_all, true)))
      × (let (g, a, done) = advance f p now online in
          (g.online ≡ true)
          × (g.offline ≡ false)
          × (g.round_active ≡ false)
          × (g.attempted_mask ≡ 0)
          × (g.target_profile_id ≡ f.target_profile_id)
          × (a.kind ≡ no_action))
unfolding advance
advance_sticky f p now v = ground arith
