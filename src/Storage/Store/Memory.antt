-- ===== src/Storage/Store/Memory.antt =====
-- A storage in memory for the examples: it loses power after a number of calls.
use s3_rlcd_deck.Base.{ℕ, ◌-◌, not, Option, none, some, List, ◌==◌, if◌then◌else◌, arith}
use s3_rlcd_deck.Storage.Store.{ReadResult, ok, not_found, error, StorageAdapter}
use s3_rlcd_deck.Storage.Store.Laws.{Cells, cell, put, StorageLaws}

pub record Memory : Type 0 where
  pub held : Cells
  -- How many calls are left before the power fails.
  pub power : ℕ

abbrev pub cells_of : Memory → Cells
cells_of m = m.held

abbrev pub answer : Option (List ℕ) → ReadResult
answer none = not_found
answer (some bytes) = ok bytes

abbrev pub spend : Memory → Cells → Memory
spend m cs = record { held = if m.power == 0 then m.held else cs; power = m.power - 1 }

abbrev pub memory : StorageAdapter Memory
memory = record {
  read = λ m k n. (spend m m.held, if m.power == 0 then error else answer (cell m.held k));
  write = λ m k bytes. (spend m (put m.held k (some bytes)), not (m.power == 0));
  erase = λ m k. (spend m (put m.held k none), not (m.power == 0));
}

pub memory-StorageLaws : StorageLaws memory cells_of
memory-StorageLaws = record {
  read_keeps = λ m k n. ground arith;
  read_tells = λ m k n bytes e. ground arith;
  read_misses = λ m k n e. ground arith;
  write_puts = λ m k bytes e. ground arith;
  write_fails = λ m k bytes e. ground arith;
  erase_puts = λ m k e. ground arith;
  erase_fails = λ m k e. ground arith;
}
