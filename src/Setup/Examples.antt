-- ===== src/Setup/Examples.antt =====
-- The theorems about firmware/components/setup_mode at concrete inputs.
use s3_rlcd_deck.Base.{ℕ, ◌≡◌, refl, true, false, none, some, List, [], ◌∷◌, replicate, arith}
use s3_rlcd_deck.Setup.ResponseBarrier
use s3_rlcd_deck.Setup.ResponseBarrier.{
  Barrier, cleared_slot, is_taken, following, issue, is_complete,
}
use s3_rlcd_deck.Setup.ResponseBarrier.Slots.{IsAck}
use s3_rlcd_deck.Setup.ResponseBarrier.Calls.{Call, issues, acknowledges, expected}
use s3_rlcd_deck.Setup.ResponseBarrier.Tracking.{is_complete-issue}
use s3_rlcd_deck.Setup.CommandQueue.{create}
use s3_rlcd_deck.Setup.CommandQueue.Fifo.{
  Operation, send, receive, sent, received, answers, fifo_answers, answers-create,
}

abbrev two_commands : List (Operation ℕ)
two_commands = send 7 ∷ send 8 ∷ receive ∷ receive ∷ receive ∷ []

answers-create_example : answers 0 (create 0) two_commands ≡ fifo_answers [] two_commands
answers-create_example = answers-create 0 two_commands

two_answers :
    fifo_answers [] two_commands
    ≡ sent true ∷ sent true ∷ received (some 7) ∷ received (some 8) ∷ received none ∷ []
unfolding fifo_answers
two_answers = refl

abbrev code_of : ℕ → List ℕ
code_of n = n ∷ replicate 15 9

abbrev barrier : Barrier
barrier = record { slots = replicate 2 cleared_slot; next_generation = 0 }

abbrev around : List Call
around = acknowledges 50 (code_of 2) ∷ issues 51 (code_of 2) ∷ acknowledges 50 (code_of 1) ∷ []

created : ResponseBarrier.create 2 ≡ some barrier
unfolding ResponseBarrier.create
created = refl

first_given : (issue (ResponseBarrier.Calls.run barrier []) 50 (code_of 1)).1 ≡ 1
unfolding issue ResponseBarrier.Calls.run is_taken following ResponseBarrier.fill_free
first_given = refl

code_2-IsAck : IsAck (code_of 2)
code_2-IsAck = (omega arith, refl)

code_1-IsAck : IsAck (code_of 1)
code_1-IsAck = (omega arith, refl)

is_complete-issue_example :
    let (u, g) = issue (ResponseBarrier.Calls.run barrier []) 50 (code_of 1) in
    is_complete (ResponseBarrier.Calls.run u around) g ≡ expected 50 (code_of 1) g false around
is_complete-issue_example =
    is_complete-issue 2 50 (code_of 1) barrier [] around created code_1-IsAck tt
      (code_2-IsAck, (code_2-IsAck, (code_1-IsAck, tt))) (omega arith)
      (λ e. omega (arith, e, first_given))
