-- ===== src/Setup/CommandQueue.antt =====
-- The ring of commands in firmware/components/setup_mode/deck_setup_command_queue.cpp. Commands are
-- copied whole, so their type is a parameter, and `cleared` is the one with all bytes zero. Each
-- method runs under the queue's mutex, in one step.
pub mod Ring
pub mod Fifo
use s3_rlcd_deck.Base.{
  ℕ, ◌+◌, ◌-◌, ◌%◌, Bool, true, false, Option, none, some, List, ◌==◌, if◌then◌else◌, get_or,
  set_elem, replicate,
}

abbrev pub queue_capacity : ℕ
queue_capacity = 8

pub record CommandQueue (A : Type 0) : Type 0 where
  pub items : List A
  pub head : ℕ
  pub tail : ℕ
  pub count : ℕ

module _ {A : Type 0} (cleared : A) where
  unfoldable pub create : CommandQueue A
  create = record { items = replicate queue_capacity cleared; head = 0; tail = 0; count = 0 }

  unfoldable pub try_send : CommandQueue A → A → CommandQueue A × Bool
  try_send q command = if q.count == queue_capacity then (q, false) else (
    record {
      items = set_elem q.items q.tail command;
      head = q.head;
      tail = (q.tail + 1) % queue_capacity;
      count = q.count + 1;
    },
    true,
  )

  -- The command, and its place in the ring cleared.
  unfoldable pub try_receive : CommandQueue A → CommandQueue A × Option A
  try_receive q = if q.count == 0 then (q, none) else (
    record {
      items = set_elem q.items q.head cleared;
      head = (q.head + 1) % queue_capacity;
      tail = q.tail;
      count = q.count - 1;
    },
    some (get_or q.items q.head cleared),
  )
