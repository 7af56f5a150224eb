-- ===== src/Ota/Fence/Loops.antt =====
-- The compare-and-exchange loops of deck_ota_transport_fence.cpp under interference: other threads
-- may write the word between a thread's load and its exchange, and a weak exchange may fail for no
-- reason.
use s3_rlcd_deck.Base.{
  ℕ, ◌≡◌, ◌≢◌, ◌∙◌, ◌⊎◌, Bool, true, false, not, ◌&&◌, ◌||◌, Option, none, some, List, [], ◌∷◌,
  ◌++◌, arith, ◌==◌, if◌then◌else◌,
}
use s3_rlcd_deck.Ota.Fence.{
  State, state_of, encode, epoch_of, is_idle, is_active, is_committing, begin_transaction,
  try_begin_commit, finish_commit, begin_abort, finish_abort, end_transaction, next_epoch,
}

-- What one exchange meets: the word that stands there, and whether it fails for no reason.
pub record Attempt : Type 0 where
  pub found : ℕ
  pub spurious : Bool

-- How a loop ends: the word that it last saw, and the word that it leaves.
abbrev pub Outcome : Type 0
Outcome = Option (ℕ × ℕ)

-- `while (test(current) && !exchange(current, change(current))) {}`. A failed exchange loads the
-- word that it found; `none` is a loop that has not ended when the attempts run out.
unfoldable pub exchange_loop : (ℕ → Bool) → (ℕ → ℕ) → ℕ → List Attempt → Outcome
exchange_loop test change current [] = if test current then none else some (current, current)
exchange_loop test change current (a ∷ later) =
    let rest = exchange_loop test change a.found later in
    if not (test current)
    then some (current, current)
    else if current == a.found && not a.spurious
    then some (a.found, change current)
    else rest

-- The methods that loop: their tests, and what their exchange writes.
pub data Method : Type 0 where
  finishing_commit finishing_abort ending_transaction beginning_abort : Method

abbrev loop_test : Method → ℕ → Bool
loop_test finishing_commit w = is_committing (state_of w)
loop_test finishing_abort w = not (is_idle (state_of w))
loop_test ending_transaction w = is_active (state_of w)
loop_test beginning_abort w = true

abbrev loop_change : Method → ℕ → ℕ
loop_change beginning_abort w =
    encode (next_epoch (epoch_of w))
      (if is_committing (state_of w) then State.committing else State.aborting)
loop_change _ w = encode (epoch_of w) State.idle

unfoldable pub loop : Method → ℕ → List Attempt → Outcome
unfolding exchange_loop
loop m = exchange_loop (loop_test m) (loop_change m)

unfoldable pub atomic : Method → ℕ → ℕ
unfolding finish_commit finish_abort end_transaction begin_abort
atomic finishing_commit = finish_commit
atomic finishing_abort = finish_abort
atomic ending_transaction = end_transaction
atomic beginning_abort = begin_abort

-- A strong exchange after a load, as in `begin_transaction` and `try_begin_commit`: what was loaded
-- passed the test, and the word that stands there now is exchanged if it is the same.
unfoldable pub begin_transaction_at : (loaded found command_epoch : ℕ) → ℕ × Bool
begin_transaction_at loaded found command_epoch =
    if not (epoch_of loaded == command_epoch) || not (is_idle (state_of loaded))
    then (found, false)
    else if loaded == found
    then (encode command_epoch State.active, true)
    else (found, false)

unfoldable pub try_begin_commit_at : (loaded found : ℕ) → ℕ × Bool
try_begin_commit_at loaded found =
    if not (is_active (state_of loaded))
    then (found, false)
    else if loaded == found
    then (encode (epoch_of loaded) State.committing, true)
    else (found, false)

exchange_loop_lem :
    (test : ℕ → Bool) (change : ℕ → ℕ) (current : ℕ) (later : List Attempt) {w v : ℕ}
    → exchange_loop test change current later ≡ some (w, v)
    → v ≡ (if test w then change w else w)
unfolding exchange_loop
exchange_loop_lem test change current [] e = ground arith
exchange_loop_lem test change current (a ∷ later) {w} {v} e =
    ground (arith, exchange_loop_lem test change a.found later {w = w} {v = v})

atomic_lem : (m : Method) (w : ℕ) → (if loop_test m w then loop_change m w else w) ≡ atomic m w
unfolding atomic
atomic_lem finishing_commit w = ground arith
atomic_lem finishing_abort w = ground arith
atomic_lem ending_transaction w = ground arith
atomic_lem beginning_abort w = ground arith

-- A loop that ends has done what the atomic method does to the word that it last saw, whatever the
-- other threads wrote and however often an exchange failed.
pub loop_linearizes :
    (m : Method) (current : ℕ) (later : List Attempt) {w v : ℕ}
    → loop m current later ≡ some (w, v)
    → v ≡ atomic m w
unfolding loop
loop_linearizes m current later {w} {v} e =
    exchange_loop_lem (loop_test m) (loop_change m) current later {w = w} {v = v} e ∙ atomic_lem m w

exchange_loop_ends :
    (test : ℕ → Bool) (change : ℕ → ℕ) (current : ℕ) (before : List Attempt) (w : ℕ) (s : Bool)
    → exchange_loop test change current (
        before
        ++ (record { found = w; spurious = s } ∷ record { found = w; spurious = false } ∷ []))
      ≢ none
unfolding exchange_loop
exchange_loop_ends test change current [] w s = ground arith
exchange_loop_ends test change current (a ∷ before) w s =
    ground (arith, exchange_loop_ends test change a.found before w s)

-- Each loop ends, at the latest, once two exchanges in a row meet the same word and the second
-- does not fail for no reason.
pub loop_ends :
    (m : Method) (current : ℕ) (before : List Attempt) (w : ℕ) (s : Bool)
    → loop m current (
        before
        ++ (record { found = w; spurious = s } ∷ record { found = w; spurious = false } ∷ []))
      ≢ none
unfolding loop
loop_ends m current before w s = exchange_loop_ends (loop_test m) (loop_change m) current before w s

-- A strong exchange that succeeds does what the atomic method does to the word that it meets, and
-- one that fails leaves that word alone.
pub exchange_linearizes :
    (loaded found command_epoch : ℕ)
    → ((begin_transaction_at loaded found command_epoch ≡ (found, false))
        ⊎ (begin_transaction_at loaded found command_epoch ≡ begin_transaction found command_epoch))
      × ((try_begin_commit_at loaded found ≡ (found, false))
          ⊎ (try_begin_commit_at loaded found ≡ try_begin_commit found))
unfolding begin_transaction_at try_begin_commit_at begin_transaction try_begin_commit
exchange_linearizes loaded found command_epoch = ground arith
