-- ===== src/Ota/Fence/Examples.antt =====
-- The theorems about deck_ota_transport_fence.cpp at concrete inputs.
use s3_rlcd_deck.Base.{ℕ, ◌≡◌, refl, false, some, List, [], ◌∷◌, arith}
use s3_rlcd_deck.Ota.Fence.{state_of, capture_epoch, accepts, try_begin_commit, begin_abort}
use s3_rlcd_deck.Ota.Fence.Loops.{Attempt, Method, loop, atomic, loop_linearizes}
use s3_rlcd_deck.Ota.Fence.Safety.{
  Action, tries_commit, begins_abort, finishes_abort, run, begin_abort-blocks-commit,
  begin_transaction_stale,
}

-- A worker's abort that loses its first exchange to a commit.
abbrev lost_once : List Attempt
lost_once = record { found = 6; spurious = false } ∷ record { found = 6; spurious = false } ∷ []

abort_loses : loop Method.beginning_abort 5 lost_once ≡ some (6, 10)
unfolding loop state_of
abort_loses = refl

loop_linearizes_example : ◌≡◌ {A = ℕ} 10 (atomic Method.beginning_abort 6)
loop_linearizes_example =
    loop_linearizes Method.beginning_abort 5 lost_once {w = 6} {v = 10} abort_loses

abbrev after_abort : List Action
after_abort = tries_commit ∷ finishes_abort ∷ []

begin_abort-blocks-commit_example :
    let w = run (begin_abort 5) after_abort in try_begin_commit w ≡ (w, false)
begin_abort-blocks-commit_example = begin_abort-blocks-commit 5 after_abort (omega arith) tt

begin_transaction_stale_example :
    accepts (run 4 (begins_abort ∷ finishes_abort ∷ [])) (capture_epoch 4) ≡ false
begin_transaction_stale_example =
    (begin_transaction_stale 4 (begins_abort ∷ finishes_abort ∷ []) (omega arith) (omega arith)
      (omega arith)).1
