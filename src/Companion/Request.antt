-- ===== src/Companion/Request.antt =====
-- Serial requests in flight:
-- firmware/components/companion_link/deck_serial_request_tracker.cpp and its header.
-- Pointers are references; an output that the code leaves unwritten is `none`.
use s3_rlcd_deck.Base.{
  ℕ, ◌+◌, ◌<◌, ◌≡◌, ◌≢◌, ◌⊎◌, Bool, true, false, not, ◌||◌, Option, none, some, List, [], ◌∷◌,
  arith, ◌==◌, ◌!=◌, if◌then◌else◌, u64_max, increment, length,
}

pub record Tracker : Type 0 where
  pub pending : Bool
  pub external_request_id : ℕ
  pub service_request_id : ℕ
  pub next_service_request_id : ℕ

pub data BeginResult : Type 0 where
  invalid new replay busy : BeginResult

-- 0 is skipped, at the start and after the counter wraps.
unfoldable pub allocate_service_request_id : Tracker → Tracker × ℕ
allocate_service_request_id t =
    let id = if t.next_service_request_id == 0 then 1 else t.next_service_request_id in
    let next = increment id in
    (record t { next_service_request_id = if next == 0 then 1 else next }, id)

unfoldable pub begin : Tracker → ℕ → Tracker × BeginResult × Option ℕ
unfolding allocate_service_request_id
begin t external_request_id =
    let (u, id) = allocate_service_request_id t in
    if external_request_id == 0
    then (t, invalid, none)
    else if t.pending
    then if t.external_request_id != external_request_id
      then (t, busy, none)
      else (t, replay, some t.service_request_id)
    else (
      record u {
        external_request_id = external_request_id;
        service_request_id = id;
        pending = true;
      },
      new,
      some id,
    )

-- The external id of the request that the service has answered.
unfoldable pub complete : Tracker → ℕ → Tracker × Option ℕ
complete t service_request_id =
    if not t.pending || service_request_id == 0 || service_request_id != t.service_request_id
    then (t, none)
    else (
      record t { pending = false; external_request_id = 0; service_request_id = 0 },
      some t.external_request_id,
    )

unfoldable pub transport_reset : Tracker → Tracker
transport_reset t = record t { pending = false; external_request_id = 0; service_request_id = 0 }

pub data Call : Type 0 where
  begins : (external : ℕ) → Call
  completes : (service : ℕ) → Call
  resets : Call

unfoldable pub step : Tracker → Call → Tracker
unfolding begin complete transport_reset
step t (begins external) = (begin t external).0
step t (completes service) = (complete t service).0
step t resets = transport_reset t

unfoldable pub run : Tracker → List Call → Tracker
unfolding step
run t [] = t
run t (c ∷ cs) = run (step t c) cs

-- Before the counter wraps no later request gets an id that was issued before.
run-issued :
    (t : Tracker) (cs : List Call) (old : ℕ)
    → t.next_service_request_id + length cs < u64_max
    → old < t.next_service_request_id
    → (t.pending ≡ false) ⊎ (t.service_request_id ≢ old)
    → ((run t cs).pending ≡ false) ⊎ ((run t cs).service_request_id ≢ old)
unfolding run
run-issued t [] old few h free = free
run-issued t (begins e ∷ cs) old few h free =
    run-issued (step t (begins e)) cs old (ground arith) (ground arith) (ground arith)
run-issued t (completes s ∷ cs) old few h free =
    run-issued (step t (completes s)) cs old (ground arith) (ground arith) (ground arith)
run-issued t (resets ∷ cs) old few h free =
    run-issued (step t resets) cs old (ground arith) (ground arith) (ground arith)

-- A request begun on an idle tracker and answered is completed with its own external id, and the
-- tracker is idle again; the same external id begun once more while it is in flight gets the same
-- service id and changes nothing, and any other is refused as busy.
pub begin-complete :
    (t : Tracker) (external other : ℕ)
    → t.pending ≡ false
    → 0 < external
    → 0 < other
    → other ≢ external
    → let (u, r, id) = begin t external in
      (r ≡ new)
      × (id ≡ some u.service_request_id)
      × ((complete u u.service_request_id).1 ≡ some external)
      × ((complete u u.service_request_id).0.pending ≡ false)
      × (begin u external ≡ (u, replay, some u.service_request_id))
      × (begin u other ≡ (u, busy, none))
unfolding begin complete
begin-complete t external other idle pos pos' ne = ground arith

-- After a transport reset a late answer to the request that was in flight is never taken for the
-- answer to a later one: whatever calls follow, too few to wrap the counter, it is refused and
-- changes nothing.
pub transport_reset-forgets :
    (t : Tracker) (cs : List Call)
    → t.next_service_request_id + length cs < u64_max
    → t.service_request_id < t.next_service_request_id
    → let u = run (transport_reset t) cs in complete u t.service_request_id ≡ (u, none)
unfolding transport_reset complete
transport_reset-forgets t cs few issued =
    ground (arith, run-issued (transport_reset t) cs t.service_request_id)
