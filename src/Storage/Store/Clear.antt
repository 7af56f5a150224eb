-- ===== src/Storage/Store/Clear.antt =====
-- `clear` of deck_transaction_store.cpp.
use s3_rlcd_deck.Base.{◌≡◌, ◌⊎◌, true, false, none, arith}
use s3_rlcd_deck.Storage.Store.{
  candidate, slot_0, slot_1, active_marker, metadata, StorageAdapter, Store,
}
use s3_rlcd_deck.Storage.Store.Commit.{erase_all, clear}
use s3_rlcd_deck.Storage.Store.Laws.{Cells, StorageLaws, recover}
use s3_rlcd_deck.Storage.Store.Invariant.{Inv}

abbrev pub no_cells : Cells
no_cells = record {
  candidate = none;
  slot_0 = none;
  slot_1 = none;
  active_marker = none;
  metadata = none;
}

module _ {S : Type 0} (sa : StorageAdapter S) (cells : S → Cells)
    (laws : StorageLaws sa cells) where
  erase_all-no_cells : (c : S) → (erase_all sa c).1 ≡ true → cells (erase_all sa c).0 ≡ no_cells
  unfolding erase_all
  erase_all-no_cells c h =
      let c1 = (sa.erase c active_marker).0 in
      let c2 = (sa.erase c1 candidate).0 in
      let c3 = (sa.erase c2 slot_0).0 in
      let c4 = (sa.erase c3 slot_1).0 in
      ground (
        arith,
        laws.erase_puts c active_marker,
        laws.erase_puts c1 candidate,
        laws.erase_puts c2 slot_0,
        laws.erase_puts c3 slot_1,
        laws.erase_puts c4 metadata,
      )

  -- Clearing a store, faulted or not, either says that it is done, and then nothing is left under
  -- any key, a boot finds no record, and the store is sound and free of faults; or it says that it
  -- failed, and the store is faulted.
  pub clear_forgets :
      (st : Store S)
      → let (u, done) = clear sa st in
        ((done ≡ true)
          × (cells u.context ≡ no_cells)
          × (u.storage_faulted ≡ false)
          × (u.has_active ≡ false)
          × (u.has_candidate ≡ false)
          × Inv cells u)
        ⊎ ((done ≡ false) × (u.storage_faulted ≡ true))
  unfolding clear recover
  clear_forgets st = ground (arith, erase_all-no_cells st.context)
