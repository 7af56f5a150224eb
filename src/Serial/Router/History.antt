-- ===== src/Serial/Router/History.antt =====
-- Any calls of deck_serial_router.cpp, one after another.
use s3_rlcd_deck.Base.{ℕ, ◌≡◌, Bool, some, List, [], ◌∷◌}
use s3_rlcd_deck.Serial.Router.{Router, InputBlock, create}
use s3_rlcd_deck.Serial.Router.Calls.{
  UartError, submit, register_sink, unregister_sink, clear_sink, take, copy_after, note_uart_error,
}
use s3_rlcd_deck.Serial.Router.Fifo.{Inv}
use s3_rlcd_deck.Serial.Router.Creation.{create-Inv}
use s3_rlcd_deck.Serial.Router.Preservation.{
  submit-Inv, unregister_sink-Inv, clear_sink-Inv, take-Inv, copy_after-Inv, register_sink-Inv,
}

-- A call of the router, with what the allocator answers.
pub data Call : Type 0 where
  registers : ℕ → ℕ → Bool → Bool → Call
  unregisters takes clears : ℕ → Call
  submits : InputBlock → Call
  copies : ℕ → ℕ → Call
  notes : UartError → Call

unfoldable pub step : Router → Call → Router
step r (registers id capacity_bytes retained allocated) =
    (register_sink r id capacity_bytes retained allocated).0
step r (unregisters id) = (unregister_sink r id).0
step r (takes id) = (take r id).0
step r (clears id) = (clear_sink r id).0
step r (submits input) = (submit r input).0
step r (copies id after_sequence) = (copy_after r id after_sequence).0
step r (notes e) = note_uart_error r e

unfoldable pub run : Router → List Call → Router
unfolding step
run r [] = r
run r (c ∷ cs) = run (step r c) cs

step-Inv : (r : Router) (c : Call) → Inv r → Inv (step r c)
unfolding step note_uart_error
step-Inv r (registers id capacity_bytes retained allocated) i =
    register_sink-Inv r id capacity_bytes retained allocated i
step-Inv r (unregisters id) i = unregister_sink-Inv r id i
step-Inv r (takes id) i = take-Inv r id i
step-Inv r (clears id) i = clear_sink-Inv r id i
step-Inv r (submits input) i = submit-Inv r input i
step-Inv r (copies id after_sequence) i = copy_after-Inv r id after_sequence i
step-Inv r (notes e) i = record { free = i.free; pool = i.pool; sinks = i.sinks; four = i.four }

run-Inv : (r : Router) (calls : List Call) → Inv r → Inv (run r calls)
unfolding run
run-Inv r [] i = i
run-Inv r (c ∷ cs) i = run-Inv (step r c) cs (step-Inv r c i)

-- After any calls on a new router, each block of the pool is in the free list once or is held by as
-- many sinks as it counts references, and the ring of each sink is whole.
pub create-run-Inv :
    (session_id capacity initial : ℕ) (allocated : Bool) (r : Router) (calls : List Call)
    → create session_id capacity initial allocated ≡ some r
    → Inv (run r calls)
create-run-Inv session_id capacity initial allocated r calls e =
    run-Inv r calls (create-Inv session_id capacity initial allocated r e)
