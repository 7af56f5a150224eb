-- ===== src/Setup/CommandQueue/Fifo.antt =====
-- The ring of deck_setup_command_queue.cpp is a queue of at most eight commands, and keeps none
-- that it has handed out.
use native.Mathlib.Decide.{ℕ_discrete}
use s3_rlcd_deck.Base.{
  ℕ, zero, suc, ◌+◌, ◌-◌, ◌%◌, ◌<◌, ◌≡◌, refl, sym, ap, ◌∙◌, Bool, true, false, Option, none, some,
  List, [], ◌∷◌, ◌++◌, arith, ◌==◌, if◌then◌else◌, length, get_or, replicate,
}
use s3_rlcd_deck.Setup.CommandQueue.{CommandQueue, create, try_send, try_receive}
use s3_rlcd_deck.Setup.CommandQueue.Ring.{
  waiting_from, waiting, Inv, sent-waiting, received-waiting, sent-Inv, received-Inv,
  length-waiting_from, create-Inv, replicate_of,
}

pub data Operation (A : Type 0) : Type 0 where
  send : A → Operation A
  receive : Operation A

pub data Answer (A : Type 0) : Type 0 where
  sent : Bool → Answer A
  received : Option A → Answer A

-- A queue of at most eight commands, the oldest first.
unfoldable pub fifo_step : {A : Type 0} → List A → Operation A → List A × Answer A
fifo_step waiting (send command) =
    if length waiting == 8 then (waiting, sent false) else (waiting ++ (command ∷ []), sent true)
fifo_step [] receive = ([], received none)
fifo_step (command ∷ waiting) receive = (waiting, received (some command))

unfoldable pub fifo_answers : {A : Type 0} → List A → List (Operation A) → List (Answer A)
unfolding fifo_step
fifo_answers left [] = []
fifo_answers left (op ∷ ops) = let (rest, told) = fifo_step left op in told ∷ fifo_answers rest ops

module _ {A : Type 0} (cleared : A) where
  unfoldable pub step : CommandQueue A → Operation A → CommandQueue A × Answer A
  unfolding try_send try_receive
  step q (send command) = let (u, done) = try_send cleared q command in (u, sent done)
  step q receive = let (u, command) = try_receive cleared q in (u, received command)

  -- A step of the ring answers as the queue does, and leaves the same commands waiting.
  abbrev Agrees : CommandQueue A × Answer A → List A × Answer A → Type 0
  Agrees (u, given) (left, told) = Inv cleared u × (waiting cleared u ≡ left) × (given ≡ told)

  step-send :
      (q : CommandQueue A) (command : A)
      → Inv cleared q
      → Agrees (step q (send command)) (fifo_step (waiting cleared q) (send command))
  unfolding step fifo_step try_send
  step-send q command i =
      let known = length-waiting_from cleared q.items q.head q.count in
      elim (ℕ_discrete q.count 8) [
        | yes full ↦ ground (arith, known)
        | no room ↦
            let some_room : q.count < 8 = omega (arith, i.count_low, room) in
            ground (
              arith,
              known,
              sent-Inv cleared q command i some_room,
              sent-waiting cleared q command i some_room,
            )
      ]

  step-receive :
      (q : CommandQueue A) (n : ℕ)
      → Inv cleared q
      → q.count ≡ n
      → Agrees (step q receive) (fifo_step (waiting_from cleared q.items q.head n) receive)
  unfolding step fifo_step try_receive
  step-receive q zero i e = ground arith
  step-receive q (suc n) i e =
      let less : q.count - 1 ≡ n = omega arith in
      ground (arith, less, received-Inv cleared q n i e, received-waiting cleared q n i e)

  -- The answers of a sequence of calls.
  unfoldable pub answers : CommandQueue A → List (Operation A) → List (Answer A)
  unfolding step
  answers q [] = []
  answers q (op ∷ ops) = let (u, given) = step q op in given ∷ answers u ops

  step-Agrees :
      (q : CommandQueue A) (op : Operation A)
      → Inv cleared q
      → Agrees (step q op) (fifo_step (waiting cleared q) op)
  step-Agrees q (send command) i = step-send q command i
  step-Agrees q receive i = step-receive q q.count i refl

  answers_agree :
      (q : CommandQueue A) (left : List A) (ops : List (Operation A))
      → Inv cleared q
      → waiting cleared q ≡ left
      → answers q ops ≡ fifo_answers left ops
  unfolding answers fifo_answers
  answers_agree q left [] i e = refl
  answers_agree q left (op ∷ ops) i e =
      let (kept, same, given) = step-Agrees q op i in
      let told = ap (λ l. fifo_step l op) e in
      let rest = answers_agree (step q op).0 (fifo_step (waiting cleared q) op).0 ops kept same in
      cc (rest, given, told)

  -- Whatever commands are sent and received, in any order, the ring of a new queue answers exactly as
  -- a queue of at most eight commands that starts empty: a send is refused where it is full, and
  -- commands come out whole in the order in which they were sent.
  pub answers-create :
      (ops : List (Operation A)) → answers (create cleared) ops ≡ fifo_answers [] ops
  unfolding create
  answers-create ops = answers_agree (create cleared) [] ops (create-Inv cleared) refl

  unfoldable pub run : CommandQueue A → List (Operation A) → CommandQueue A
  unfolding step
  run q [] = q
  run q (op ∷ ops) = run (step q op).0 ops

  run-Inv :
      (q : CommandQueue A) (ops : List (Operation A)) → Inv cleared q → Inv cleared (run q ops)
  unfolding run
  run-Inv q [] i = i
  run-Inv q (op ∷ ops) i = run-Inv (step q op).0 ops (step-Agrees q op i).0

  -- Once every command that was sent is received, no byte of any is left in the ring.
  pub run-create-cleared :
      (ops : List (Operation A))
      → (run (create cleared) ops).count ≡ 0
      → (run (create cleared) ops).items ≡ replicate 8 cleared
  run-create-cleared ops none_left =
      let q = run (create cleared) ops in
      let i = run-Inv (create cleared) ops (create-Inv cleared) in
      replicate_of cleared q.items 8 i.size (λ k h.
        let at : (q.head + (k + 8 - q.head) % 8) % 8 ≡ k = omega (arith, i.head_low, h) in
        ap (λ j. get_or q.items j cleared) (sym at)
        ∙ i.vacant ((k + 8 - q.head) % 8) (omega (arith, none_left)) (omega arith))
