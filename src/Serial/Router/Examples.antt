-- ===== src/Serial/Router/Examples.antt =====
-- Runs of the router of deck_serial_router.cpp.
use s3_rlcd_deck.Base.{
  ℕ, ◌≡◌, refl, true, false, some, List, [], ◌∷◌, arith, increment_nonzero, saturating_add,
}
use s3_rlcd_deck.Serial.Router.{
  Router, InputBlock, blank_sink, copy_block, create, remove_front, fresh_blocks, return_block,
  release_reference, no_block,
}
use s3_rlcd_deck.Serial.Router.Calls.{
  copied, copy_after, register_sink, overwrite_full, fill_block, enqueue, takers, submit, take,
}
use s3_rlcd_deck.Serial.Router.Ring.{items}
use s3_rlcd_deck.Serial.Router.Filling.{routed}
use s3_rlcd_deck.Serial.Router.Fifo.{Inv, contents, submit-contents}
use s3_rlcd_deck.Serial.Router.Steps.{take-contents}
use s3_rlcd_deck.Serial.Router.Replay.{replay, behind}
use s3_rlcd_deck.Serial.Router.Reading.{copy_after_replays}
use s3_rlcd_deck.Serial.Router.History.{Call, registers, submits, step, run, create-run-Inv}

abbrev input_of : ℕ → InputBlock
input_of byte = record { monotonic_ms = 100; bytes = byte ∷ [] }

-- A pool of two blocks.
abbrev new_router : Router
new_router = record {
  session_id = 7;
  pool_capacity_bytes = 512;
  pool = record {
    blocks =
        record { sequence = 0; monotonic_ms = 0; next_free = 1; references = 0; bytes = [] }
        ∷ record {
          sequence = 0;
          monotonic_ms = 0;
          next_free = no_block;
          references = 0;
          bytes = [];
        }
        ∷ [];
    free_head = 0;
  };
  sinks = blank_sink ∷ blank_sink ∷ blank_sink ∷ blank_sink ∷ [];
  stats = record {
    accepted_bytes = 0;
    accepted_blocks = 0;
    last_sequence = 0;
    pool_exhaustions = 0;
    uart_fifo_overflows = 0;
    uart_driver_buffer_full = 0;
    router_starvations = 0;
  };
}

-- One sink has room for a block, the other for two.
abbrev calls : List Call
calls =
    registers 0 256 false true
    ∷ registers 1 512 false true
    ∷ submits (input_of 10)
    ∷ submits (input_of 11)
    ∷ []

abbrev used_router : Router
used_router = run new_router calls

new_router_created : create 7 512 0 true ≡ some new_router
unfolding create fresh_blocks
new_router_created = refl

create-run-Inv_example : Inv used_router
create-run-Inv_example = create-run-Inv 7 512 0 true new_router calls new_router_created

submit-contents_example :
    contents (submit used_router (input_of 12)).0 1
    ≡ routed 7 2 (input_of 11) ∷ routed 7 3 (input_of 12) ∷ []
unfolding run step register_sink submit overwrite_full remove_front release_reference return_block
    fill_block enqueue takers contents items copy_block increment_nonzero saturating_add
submit-contents_example =
    submit-contents used_router (input_of 12) 1 3
      (create-run-Inv 7 512 0 true new_router calls new_router_created) refl refl

take-contents_example :
    (contents used_router 1 ≡ routed 7 1 (input_of 10) ∷ contents (take used_router 1).0 1)
    × (contents (take used_router 1).0 0 ≡ contents used_router 0)
unfolding run step register_sink submit overwrite_full remove_front release_reference return_block
    fill_block enqueue takers contents items copy_block increment_nonzero saturating_add take
take-contents_example =
    take-contents used_router 1 0 (routed 7 1 (input_of 10))
      (create-run-Inv 7 512 0 true new_router calls new_router_created) refl (omega arith)
      (λ e. omega (arith, e))

-- A pool of the least size that a history has.
abbrev new_history : Router
new_history = record new_router {
  pool_capacity_bytes = 65_536;
  pool = record { blocks = fresh_blocks 256 0; free_head = 0 };
}

new_history_created : create 7 65_536 0 true ≡ some new_history
unfolding create fresh_blocks
new_history_created = refl

abbrev history_calls : List Call
history_calls = registers 2 65_536 true true ∷ submits (input_of 10) ∷ submits (input_of 11) ∷ []

abbrev history : Router
history = run new_history history_calls

copy_after_replays_example :
    ((copy_after history 2 1).1 ≡ copied (routed 7 2 (input_of 11)))
    × (contents (copy_after history 2 1).0 2 ≡ contents history 2)
unfolding run step register_sink submit overwrite_full fill_block enqueue takers contents items
    copy_block increment_nonzero saturating_add replay behind fresh_blocks
copy_after_replays_example =
    copy_after_replays history 2 2 1
      (create-run-Inv 7 65_536 0 true new_history history_calls new_history_created) refl refl
