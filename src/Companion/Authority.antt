-- ===== src/Companion/Authority.antt =====
-- What an authenticated transport may do before it is made active:
-- firmware/components/companion_link/deck_companion_transport_authority.cpp and its header.
use s3_rlcd_deck.Base.{
  ℕ, ◌<◌, ◌≡◌, ◌≢◌, ◌⊎◌, Bool, true, false, not, ◌&&◌, ◌||◌, List, [], ◌∷◌, arith, ◌==◌, ◌!=◌,
  if◌then◌else◌,
}

pub data Message : Type 0 where
  heartbeat ai_snapshot serial_control serial_binary : Message

pub record Authority : Type 0 where
  pub generation : ℕ
  pub active_authority : Bool
  pub snapshot_current : Bool

abbrev pub is_heartbeat : Message → Bool
is_heartbeat heartbeat = true
is_heartbeat _ = false

-- `generation == 0 || generation != authority->generation`.
abbrev pub is_foreign : Authority → ℕ → Bool
is_foreign a generation = generation == 0 || generation != a.generation

unfoldable pub begin : Authority → ℕ → Authority × Bool
begin a generation = if generation == 0 then (a, false) else (
  record { generation = generation; active_authority = false; snapshot_current = false },
  true,
)

unfoldable pub allows : Authority → ℕ → Message → Bool
allows a generation message =
    if is_foreign a generation then false else is_heartbeat message || a.active_authority

unfoldable pub activate : Authority → ℕ → Authority × Bool
activate a generation =
    if is_foreign a generation then (a, false) else (record a { active_authority = true }, true)

unfoldable pub accept_snapshot : Authority → ℕ → Authority × Bool
accept_snapshot a generation =
    if is_foreign a generation || not a.active_authority
    then (a, false)
    else (record a { snapshot_current = true }, true)

unfoldable pub is_snapshot_current : Authority → ℕ → Bool
is_snapshot_current a generation =
    generation != 0 && generation == a.generation && a.active_authority && a.snapshot_current

unfoldable pub invalidate : Authority → Authority
invalidate a = record { generation = 0; active_authority = false; snapshot_current = false }

pub data Call : Type 0 where
  begins activates accepts : (generation : ℕ) → Call
  invalidates : Call

unfoldable pub step : Authority → Call → Authority
unfolding begin activate accept_snapshot invalidate
step a (begins g) = (begin a g).0
step a (activates g) = (activate a g).0
step a (accepts g) = (accept_snapshot a g).0
step a invalidates = invalidate a

unfoldable pub run : Authority → List Call → Authority
unfolding step
run a [] = a
run a (c ∷ cs) = run (step a c) cs

abbrev pub NoActivate : ℕ → List Call → Type 0
NoActivate g [] = Unit {0}
NoActivate g (activates h ∷ cs) = (h ≢ g) × NoActivate g cs
NoActivate g (c ∷ cs) = NoActivate g cs

abbrev pub NoAccept : ℕ → List Call → Type 0
NoAccept g [] = Unit {0}
NoAccept g (accepts h ∷ cs) = (h ≢ g) × NoAccept g cs
NoAccept g (c ∷ cs) = NoAccept g cs

-- The transport of generation `g` is not the current one, or is on probe only.
abbrev IsProbe : Authority → ℕ → Type 0
IsProbe a g = (a.generation ≢ g) ⊎ (a.active_authority ≡ false)

run-IsProbe :
    (a : Authority) (g : ℕ) (cs : List Call) → NoActivate g cs → IsProbe a g → IsProbe (run a cs) g
unfolding run
run-IsProbe a g [] n p = p
run-IsProbe a g (begins h ∷ cs) n p = run-IsProbe (step a (begins h)) g cs n (ground arith)
run-IsProbe a g (activates h ∷ cs) n p = run-IsProbe (step a (activates h)) g cs n.1 (ground arith)
run-IsProbe a g (accepts h ∷ cs) n p = run-IsProbe (step a (accepts h)) g cs n (ground arith)
run-IsProbe a g (invalidates ∷ cs) n p = run-IsProbe (step a invalidates) g cs n (ground arith)

-- The current transport has published no snapshot, or generation `g` is not the current one.
abbrev IsStale : Authority → ℕ → Type 0
IsStale a g = (a.generation ≢ g) ⊎ (a.snapshot_current ≡ false)

run-IsStale :
    (a : Authority) (g : ℕ) (cs : List Call) → NoAccept g cs → IsStale a g → IsStale (run a cs) g
unfolding run
run-IsStale a g [] n p = p
run-IsStale a g (begins h ∷ cs) n p = run-IsStale (step a (begins h)) g cs n (ground arith)
run-IsStale a g (activates h ∷ cs) n p = run-IsStale (step a (activates h)) g cs n (ground arith)
run-IsStale a g (accepts h ∷ cs) n p = run-IsStale (step a (accepts h)) g cs n.1 (ground arith)
run-IsStale a g (invalidates ∷ cs) n p = run-IsStale (step a invalidates) g cs n (ground arith)

-- After a transport begins, and until its own generation is made active, whatever else happens,
-- nothing but its heartbeat is let through, and its snapshot is refused.
pub begin_probes :
    (a : Authority) (g : ℕ) (cs : List Call) (m : Message)
    → 0 < g
    → NoActivate g cs
    → let b = run (begin a g).0 cs in
      ((allows b g m ≡ false) ⊎ (m ≡ heartbeat)) × (accept_snapshot b g ≡ (b, false))
unfolding begin allows accept_snapshot
begin_probes a g cs m pos n = ground (arith, run-IsProbe (begin a g).0 g cs n)

-- A transport that begins makes the snapshot of any earlier one stale: no snapshot is current for
-- its generation until one of that generation is accepted, and none for any other.
pub begin_stales :
    (a : Authority) (g h : ℕ) (cs : List Call)
    → 0 < g
    → NoAccept g cs
    → (is_snapshot_current (run (begin a g).0 cs) g ≡ false)
      × ((h ≡ g) ⊎ (is_snapshot_current (begin a g).0 h ≡ false))
unfolding begin is_snapshot_current
begin_stales a g h cs pos n = ground (arith, run-IsStale (begin a g).0 g cs n)

-- A transport that begins, is made active and publishes has a current snapshot and may send every
-- message; once another begins, its generation may do nothing, and invalidation ends both.
pub activate_publishes :
    (a : Authority) (g h : ℕ) (m : Message)
    → 0 < g
    → 0 < h
    → h ≢ g
    → let b = run a (begins g ∷ activates g ∷ accepts g ∷ []) in
      (is_snapshot_current b g ≡ true)
      × (allows b g m ≡ true)
      × (allows (begin b h).0 g m ≡ false)
      × (is_snapshot_current (begin b h).0 g ≡ false)
      × (allows (invalidate b) g m ≡ false)
unfolding run is_snapshot_current allows
activate_publishes a g h m pos pos' ne = ground arith
