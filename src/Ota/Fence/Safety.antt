-- ===== src/Ota/Fence/Safety.antt =====
-- What the fence of deck_ota_transport_fence.cpp keeps apart: the commit of a boot slot, an abort of
-- the transport, and commands of an earlier transport.
use s3_rlcd_deck.Base.{ℕ, suc, ◌+◌, ◌-◌, ◌%◌, ◌^◌, ◌<◌, ◌≡◌, true, false, List, [], ◌∷◌, arith}
use s3_rlcd_deck.Ota.Fence.{
  State, state_of, encode, epoch_of, is_active, is_idle, maximum_epoch, next_epoch, capture_epoch,
  accepts, begin_transaction, try_begin_commit, finish_commit, begin_abort, finish_abort,
  end_transaction,
}

-- A call of the fence, by the worker or by the transport.
pub data Action : Type 0 where
  begins : (command_epoch : ℕ) → Action
  tries_commit finishes_commit begins_abort finishes_abort ends : Action

unfoldable pub step : ℕ → Action → ℕ
unfolding begin_transaction try_begin_commit finish_commit begin_abort finish_abort end_transaction
step word (begins command_epoch) = (begin_transaction word command_epoch).0
step word tries_commit = (try_begin_commit word).0
step word finishes_commit = finish_commit word
step word begins_abort = begin_abort word
step word finishes_abort = finish_abort word
step word ends = end_transaction word

unfoldable pub run : ℕ → List Action → ℕ
unfolding step
run word [] = word
run word (a ∷ actions) = run (step word a) actions

-- An epoch is never 0.
abbrev pub IsWord : ℕ → Type 0
IsWord word = (word < 2 ^ 32) × (0 < epoch_of word)

abbrev pub count_aborts : List Action → ℕ
count_aborts [] = 0
count_aborts (begins_abort ∷ actions) = suc (count_aborts actions)
count_aborts (a ∷ actions) = count_aborts actions

abbrev pub NoBegin : List Action → Type 0
NoBegin [] = Unit {0}
NoBegin (begins command_epoch ∷ actions) = ⊥
NoBegin (a ∷ actions) = NoBegin actions

step-IsWord : (word : ℕ) (a : Action) → IsWord word → IsWord (step word a)
unfolding step
step-IsWord word (begins command_epoch) v = ground arith
step-IsWord word tries_commit v = ground arith
step-IsWord word finishes_commit v = ground arith
step-IsWord word begins_abort v = ground arith
step-IsWord word finishes_abort v = ground arith
step-IsWord word ends v = ground arith

run-IsWord : (word : ℕ) (actions : List Action) → IsWord word → IsWord (run word actions)
unfolding run
run-IsWord word [] v = v
run-IsWord word (a ∷ actions) v = run-IsWord (step word a) actions (step-IsWord word a v)

-- Without a new `begin_transaction` no transaction becomes active.
run_inactive :
    (word : ℕ) (actions : List Action)
    → IsWord word
    → NoBegin actions
    → is_active (state_of word) ≡ false
    → is_active (state_of (run word actions)) ≡ false
unfolding run state_of
run_inactive word [] v none_begins h = h
run_inactive word (begins e ∷ actions) v none_begins h = absurd none_begins
run_inactive word (tries_commit ∷ actions) v none_begins h =
    run_inactive (step word tries_commit) actions (step-IsWord word tries_commit v) none_begins
      (ground arith)
run_inactive word (finishes_commit ∷ actions) v none_begins h =
    run_inactive (step word finishes_commit) actions (step-IsWord word finishes_commit v)
      none_begins (ground arith)
run_inactive word (begins_abort ∷ actions) v none_begins h =
    run_inactive (step word begins_abort) actions (step-IsWord word begins_abort v) none_begins
      (ground arith)
run_inactive word (finishes_abort ∷ actions) v none_begins h =
    run_inactive (step word finishes_abort) actions (step-IsWord word finishes_abort v) none_begins
      (ground arith)
run_inactive word (ends ∷ actions) v none_begins h =
    run_inactive (step word ends) actions (step-IsWord word ends v) none_begins (ground arith)

-- Once an abort has begun, no commit starts, whatever calls follow, until another transaction is
-- begun.
pub begin_abort-blocks-commit :
    (word : ℕ) (actions : List Action)
    → IsWord word
    → NoBegin actions
    → let w = run (begin_abort word) actions in try_begin_commit w ≡ (w, false)
unfolding try_begin_commit begin_abort
begin_abort-blocks-commit word actions v none_begins =
    ground (arith, step-IsWord word begins_abort v, run_inactive (begin_abort word) actions)

abbrev is_abort : Action → ℕ
is_abort begins_abort = 1
is_abort _ = 0

count_aborts-cons :
    (a : Action) (actions : List Action)
    → count_aborts (a ∷ actions) ≡ is_abort a + count_aborts actions
count_aborts-cons begins_abort actions = omega arith
count_aborts-cons (begins e) actions = omega arith
count_aborts-cons tries_commit actions = omega arith
count_aborts-cons finishes_commit actions = omega arith
count_aborts-cons finishes_abort actions = omega arith
count_aborts-cons ends actions = omega arith

step-epoch :
    (word : ℕ) (a : Action)
    → IsWord word
    → epoch_of (step word a) ≡ (epoch_of word - 1 + is_abort a) % maximum_epoch + 1
unfolding step
step-epoch word (begins e) v = ground arith
step-epoch word tries_commit v = ground arith
step-epoch word finishes_commit v = ground arith
step-epoch word begins_abort v = ground arith
step-epoch word finishes_abort v = ground arith
step-epoch word ends v = ground arith

-- The epoch counts the aborts, from 1 up to the maximum and round again.
run-epoch :
    (word : ℕ) (actions : List Action)
    → IsWord word
    → epoch_of (run word actions) ≡ (epoch_of word - 1 + count_aborts actions) % maximum_epoch + 1
unfolding run
run-epoch word [] v = omega arith
run-epoch word (a ∷ actions) v = omega (
  arith,
  run-epoch (step word a) actions (step-IsWord word a v),
  step-epoch word a v,
  count_aborts-cons a actions,
)

-- A command that was queued under an earlier epoch begins no transaction: after any calls with at
-- least one abort, and fewer than a whole round of epochs, it is refused and changes nothing.
pub begin_transaction_stale :
    (word : ℕ) (actions : List Action)
    → IsWord word
    → 0 < count_aborts actions
    → count_aborts actions < maximum_epoch
    → let w = run word actions in
      (begin_transaction w (capture_epoch word) ≡ (w, false))
      × (accepts w (capture_epoch word) ≡ false)
unfolding begin_transaction accepts
begin_transaction_stale word actions v some_abort few = ground (arith, run-epoch word actions v)

-- While no abort comes, a command of the current epoch is accepted, and begins a transaction
-- exactly where none is under way.
pub begin_transaction_current :
    (word : ℕ) (actions : List Action)
    → IsWord word
    → count_aborts actions ≡ 0
    → let w = run word actions in
      (accepts w (capture_epoch word) ≡ true)
      × ((begin_transaction w (capture_epoch word)).1 ≡ is_idle (state_of w))
unfolding begin_transaction accepts
begin_transaction_current word actions v no_abort = ground (arith, run-epoch word actions v)

-- A commit that has started is not lost to an abort: the fence stays with the committing worker,
-- under the next epoch, and is idle under that epoch when the worker finishes.
pub begin_abort-keeps-commit :
    (word : ℕ)
    → IsWord word
    → (try_begin_commit word).1 ≡ true
    → let w = begin_abort (try_begin_commit word).0 in
      (state_of w ≡ State.committing)
      × (finish_commit w ≡ encode (next_epoch (epoch_of word)) State.idle)
unfolding try_begin_commit begin_abort finish_commit
begin_abort-keeps-commit word v e = ground arith
