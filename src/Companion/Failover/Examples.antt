-- ===== src/Companion/Failover/Examples.antt =====
-- The theorems about deck_companion_failover.cpp at concrete inputs.
use s3_rlcd_deck.Base.{
  ℕ, ◌≡◌, ◌⊎◌, refl, true, false, some, List, [], ◌∷◌, arith, get_elem?, same_text, test_bit,
  set_bit,
}
use s3_rlcd_deck.Base.Int.{ℤ, pos, negsuc}
use s3_rlcd_deck.Companion.Failover.{
  Profile, Profiles, Action, Failover, Event, best_unattempted, advance, connect,
}
use s3_rlcd_deck.Companion.Failover.Choice.{IsOpen, Outranks, best_unattempted_best}
use s3_rlcd_deck.Companion.Failover.Rounds.{Fits, fail_all, fail_all_ends}

abbrev home : List ℕ
home = 104 ∷ []

abbrev office : List ℕ
office = 111 ∷ []

abbrev cabin : List ℕ
cabin = 99 ∷ []

abbrev profile_of : List ℕ → ℤ → ℕ → Profile
profile_of name priority last = record {
  profile_id = name;
  priority = priority;
  last_success_unix_ms = last;
}

abbrev hubs : Profiles
hubs = record {
  generation = 7;
  has_active = true;
  active_profile_id = home;
  profiles =
      profile_of home (pos 5) 100
      ∷ profile_of office (negsuc 0) 90
      ∷ profile_of cabin (pos 2) 10
      ∷ [];
}

-- Offline since 1 s, in a round with the stored active profile attempted.
abbrev in_round : Failover
in_round = record {
  initialized = true;
  online = false;
  offline = true;
  round_active = true;
  attempted_mask = 1;
  profile_generation = 7;
  offline_since_ms = 1_000;
  stored_active_profile_id = home;
  target_profile_id = home;
}

in_round-Fits : Fits in_round hubs
in_round-Fits = record {
  initialized = refl;
  same_generation = refl;
  few = omega arith;
  ids = (refl, (refl, (refl, tt)));
  stored = refl;
  byte = omega arith;
}

chosen : best_unattempted in_round hubs ≡ some (2, profile_of cabin (pos 2) 10)
unfolding best_unattempted test_bit same_text
chosen = refl

best_unattempted_best_example :
    (get_elem? hubs.profiles 2 ≡ some (profile_of cabin (pos 2) 10))
    × IsOpen in_round 2 (profile_of cabin (pos 2) 10)
    × ((¬ IsOpen in_round 1 (profile_of office (negsuc 0) 90))
        ⊎ Outranks 2 (profile_of cabin (pos 2) 10) 1 (profile_of office (negsuc 0) 90))
best_unattempted_best_example =
    best_unattempted_best in_round hubs 2 1 (profile_of cabin (pos 2) 10)
      (profile_of office (negsuc 0) 90) chosen refl

abbrev failures : List ℕ
failures = 40_000 ∷ 50_000 ∷ 60_000 ∷ []

fail_all_ends_example :
    ((fail_all in_round hubs failures).round_active ≡ false)
    × ((fail_all in_round hubs failures).target_profile_id ≡ home)
unfolding test_bit same_text
fail_all_ends_example = fail_all_ends in_round hubs failures in_round-Fits refl (omega arith)

abbrev wanted : Action
wanted = record { kind = connect; profile_generation = 7; profile_id = cabin }

-- The first failure of the round asks for the hub of the highest priority that is left.
first_failure : (advance in_round hubs 40_000 Event.transport_failed).1 ≡ wanted
unfolding advance test_bit set_bit same_text best_unattempted
first_failure = refl
