-- ===== src/Companion/Failover/Choice.antt =====
-- Which profile a round tries next: `best_unattempted` in deck_companion_failover.cpp.
use mathlib.Core.Option.{some-injective}
use native.Mathlib.Nat.{add-zero, add-suc, suc-add}
use s3_rlcd_deck.Base.{
  ◌-◌, ℕ, zero, suc, ◌+◌, ◌≤◌, ◌<◌, ◌≡◌, ◌≢◌, ◌↔◌, refl, ◌⊎◌, inl, inr, same_text_iff, test_bit,
  true, false, Option, none, some, List, [], ◌∷◌, arith, get_elem?,
}
use s3_rlcd_deck.Base.Int.{ltb_ℤ, eqb_ℤ}
use s3_rlcd_deck.Companion.Failover.{
  Profile, Profiles, Failover, is_better, is_skipped, better_of, best_loop, best_unattempted,
}

-- The profile `q` at index `j` is not to be chosen: it is skipped, or the choice is at least as good,
-- and better if it stands later.
abbrev pub Loses : Failover → Option (ℕ × Profile) → ℕ → Profile → Type 0
Loses f none j q = is_skipped f j q ≡ true
Loses f (some (i, best)) j q =
    (is_skipped f j q ≡ true) ⊎ ((is_better q best ≡ false) × ((i ≤ j) ⊎ (is_better best q ≡ true)))

-- The loop keeps the best so far unless a later profile beats it.
abbrev Improves : ℕ → Option (ℕ × Profile) → Option (ℕ × Profile) → Type 0
Improves index none r = Unit {0}
Improves index (some (i, b)) none = ⊥
Improves index (some (i, b)) (some (j, r)) =
    ((i ≡ j) × (b ≡ r)) ⊎ ((index ≤ j) × (is_better r b ≡ true))

-- The best so far stands before the index.
abbrev Before : ℕ → Option (ℕ × Profile) → Type 0
Before index none = Unit {0}
Before index (some (i, b)) = i < index

better_of-Before :
    (f : Failover) (index : ℕ) (q : Profile) (best : Option (ℕ × Profile))
    → Before index best
    → Before (suc index) (better_of f index q best)
unfolding better_of
better_of-Before f index q none h = ground arith
better_of-Before f index q (some (i, b)) h = ground arith

Improves-trans :
    (f : Failover) (index : ℕ) (q : Profile) (best r : Option (ℕ × Profile))
    → Improves (suc index) (better_of f index q best) r
    → Improves index best r
unfolding better_of
Improves-trans f index q none r h = tt
Improves-trans f index q (some (i, b)) none h = ground arith
Improves-trans f index q (some (i, b)) (some (j, c)) h = ground arith

best_loop-Improves :
    (f : Failover) (index : ℕ) (best : Option (ℕ × Profile)) (qs : List Profile)
    → Improves index best (best_loop f index best qs)
unfolding best_loop
best_loop-Improves f index none [] = tt
best_loop-Improves f index (some (i, b)) [] = inl (refl, refl)
best_loop-Improves f index best (q ∷ qs) =
    Improves-trans f index q best (best_loop f (suc index) (better_of f index q best) qs)
      (best_loop-Improves f (suc index) (better_of f index q best) qs)

-- The profile that the loop has just looked at loses to whatever comes out in the end.
better_of-Loses :
    (f : Failover) (index : ℕ) (q : Profile) (best r : Option (ℕ × Profile))
    → Before index best
    → Improves (suc index) (better_of f index q best) r
    → Loses f r index q
unfolding better_of
better_of-Loses f index q none none before h = ground arith
better_of-Loses f index q none (some (j, c)) before h = ground arith
better_of-Loses f index q (some (i, b)) none before h = ground arith
better_of-Loses f index q (some (i, b)) (some (j, c)) before h = ground arith

best_loop-Loses :
    (f : Failover) (index : ℕ) (best : Option (ℕ × Profile)) (qs : List Profile) (k : ℕ)
    (q : Profile)
    → Before index best
    → get_elem? qs k ≡ some q
    → Loses f (best_loop f index best qs) (index + k) q
unfolding best_loop
best_loop-Loses f index best [] k q h e = cc
best_loop-Loses f index best (p ∷ qs) zero q h e =
    let r = best_loop f (suc index) (better_of f index p best) qs in
    rw (← some-injective p q e, add-zero)
      (better_of-Loses f index p best r h
        (best_loop-Improves f (suc index) (better_of f index p best) qs))
best_loop-Loses f index best (p ∷ qs) (suc k) q h e =
    let next = better_of f index p best in
    rw (add-suc, ← suc-add)
      (best_loop-Loses f (suc index) next qs k q (better_of-Before f index p best h) e)

-- What comes out is the best so far, or a profile of the list that is not skipped.
abbrev Found : Failover → ℕ → Option (ℕ × Profile) → List Profile → ℕ → Profile → Type 0
Found f index best qs j c =
    (best ≡ some (j, c))
    ⊎ ((index ≤ j) × (get_elem? qs (j - index) ≡ some c) × (is_skipped f j c ≡ false))

get_elem?-cons :
    (q : Profile) (qs : List Profile) (index j : ℕ)
    → suc index ≤ j
    → get_elem? (q ∷ qs) (j - index) ≡ get_elem? qs (j - suc index)
get_elem?-cons q qs index j h = let e : j - index ≡ suc (j - suc index) = omega arith in rw e

best_loop-Found :
    (f : Failover) (index : ℕ) (best : Option (ℕ × Profile)) (qs : List Profile) (j : ℕ)
    (c : Profile)
    → best_loop f index best qs ≡ some (j, c)
    → Found f index best qs j c
unfolding best_loop better_of
best_loop-Found f index best [] j c e = inl e
best_loop-Found f index none (q ∷ qs) j c e = ground (
  arith,
  best_loop-Found f (suc index) (better_of f index q none) qs j c e,
  get_elem?-cons q qs index j,
)
best_loop-Found f index (some (i, b)) (q ∷ qs) j c e = ground (
  arith,
  best_loop-Found f (suc index) (better_of f index q (some (i, b))) qs j c e,
  get_elem?-cons q qs index j,
)

pub best_unattempted_chosen :
    (f : Failover) (p : Profiles) (i : ℕ) (best : Profile)
    → best_unattempted f p ≡ some (i, best)
    → (get_elem? p.profiles i ≡ some best) × (is_skipped f i best ≡ false)
unfolding best_unattempted
best_unattempted_chosen f p i best e = ground (arith, best_loop-Found f 0 none p.profiles i best e)

-- A profile that the round has not attempted, and that is not the stored active one.
abbrev pub IsOpen : Failover → ℕ → Profile → Type 0
IsOpen f index q =
    (test_bit f.attempted_mask index ≡ false) × (q.profile_id ≢ f.stored_active_profile_id)

-- A higher priority, or the same and a later success, or the same of both and no later place.
abbrev pub Outranks : ℕ → Profile → ℕ → Profile → Type 0
Outranks i best j q =
    (ltb_ℤ q.priority best.priority ≡ true)
    ⊎ ((eqb_ℤ q.priority best.priority ≡ true)
        × ((q.last_success_unix_ms < best.last_success_unix_ms)
            ⊎ ((q.last_success_unix_ms ≡ best.last_success_unix_ms) × (i ≤ j))))

is_skipped-IsOpen :
    (f : Failover) (index : ℕ) (q : Profile) → (is_skipped f index q ≡ false) ↔ IsOpen f index q
is_skipped-IsOpen f index q = ground (arith, same_text_iff q.profile_id f.stored_active_profile_id)

is_better-Outranks :
    (i j : ℕ) (best q : Profile)
    → is_better q best ≡ false
    → (i ≤ j) ⊎ (is_better best q ≡ true)
    → Outranks i best j q
is_better-Outranks i j best q worse (inl earlier) = ground arith
is_better-Outranks i j best q worse (inr better) = ground arith

-- The round's choice is a listed profile that is neither attempted nor the stored active one, and it
-- outranks every other profile that is neither: it has a higher priority, or the same and a later success, or the
-- same of both and no later place in the list.
pub best_unattempted_best :
    (f : Failover) (p : Profiles) (i j : ℕ) (best q : Profile)
    → best_unattempted f p ≡ some (i, best)
    → get_elem? p.profiles j ≡ some q
    → (get_elem? p.profiles i ≡ some best)
      × IsOpen f i best
      × ((¬ IsOpen f j q) ⊎ Outranks i best j q)
unfolding best_unattempted
best_unattempted_best f p i j best q e at =
    let (listed, open_one) = best_unattempted_chosen f p i best e in
    let loses : (is_skipped f j q ≡ true)
        ⊎ ((is_better q best ≡ false) × ((i ≤ j) ⊎ (is_better best q ≡ true))) =
      ground (arith, e, best_loop-Loses f 0 none p.profiles j q tt at) in
    (
      listed,
      (is_skipped-IsOpen f i best).0 open_one,
      elim loses [
        | inl skipped ↦ inl (λ is_open. cc (skipped, (is_skipped-IsOpen f j q).1 is_open))
        | inr (worse, either) ↦ inr (is_better-Outranks i j best q worse either)
      ],
    )

-- No choice is made only where every profile is attempted or the stored active one.
pub best_unattempted-none :
    (f : Failover) (p : Profiles) (j : ℕ) (q : Profile)
    → best_unattempted f p ≡ none
    → get_elem? p.profiles j ≡ some q
    → ¬ IsOpen f j q
unfolding best_unattempted
best_unattempted-none f p j q e at is_open =
    let skipped : is_skipped f j q ≡ true =
      ground (arith, e, best_loop-Loses f 0 none p.profiles j q tt at) in
    cc (skipped, (is_skipped-IsOpen f j q).1 is_open)
