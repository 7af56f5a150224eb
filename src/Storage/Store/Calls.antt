-- ===== src/Storage/Store/Calls.antt =====
-- Sequences of calls of deck_transaction_store.cpp, and what a boot finds after them.
use mathlib.Core.Path.{subst}
use s3_rlcd_deck.Base.{
  ℕ, ◌^◌, ◌<◌, ◌≡◌, ◌⊎◌, ◌∙◌, sym, ap, inl, inr, refl, true, false, Option, none, some, List, [],
  ◌∷◌, arith, Option-cases, same_text_iff,
}
use s3_rlcd_deck.Storage.Record.{Options, OwnedRecord, DecodeResult, encode_record}
use s3_rlcd_deck.Storage.Store.{
  candidate, StorageAdapter, Store, Fetched, fetched, read_encoded_record, UpdateResult, updated,
  invalid_payload, storage_failure, no_candidate, staged, write_candidate, stage, next_generation,
}
use s3_rlcd_deck.Storage.Store.Commit.{
  commit, prepare_marker, write_slot, slot_written, switch_marker, finish_commit,
}
use s3_rlcd_deck.Storage.Store.Laws.{
  Cells, put, StorageLaws, stored, marker_in, recover, recover_from,
}
use s3_rlcd_deck.Storage.Marker.{DecodedMarker}
use s3_rlcd_deck.Storage.Store.Invariant.{Inv, write_cases, prepare_marker_same}
use s3_rlcd_deck.Storage.Store.Safety.{read_encoded_record_keeps, commit-Atomic}

stored-put_candidate :
    (o : Options) (cs : Cells) (v : Option (List ℕ)) (slot generation : ℕ)
    → stored o (put cs candidate v) slot generation ≡ stored o cs slot generation
unfolding stored
stored-put_candidate o cs v slot generation = ground arith

recover_from-put_candidate :
    (o : Options) (cs : Cells) (v : Option (List ℕ)) (m : Option DecodedMarker)
    → recover_from o (put cs candidate v) m ≡ recover_from o cs m
recover_from-put_candidate o cs v none = refl
recover_from-put_candidate o cs v (some m) = cc (
  stored-put_candidate o cs v m.active_slot m.active_generation,
  stored-put_candidate o cs v m.previous_slot m.previous_generation,
)

recover-put_candidate :
    (o : Options) (cs : Cells) (v : Option (List ℕ)) → recover o (put cs candidate v) ≡ recover o cs
unfolding recover
recover-put_candidate o cs v = recover_from-put_candidate o cs v (marker_in o cs)

module _ {S : Type 0} (sa : StorageAdapter S) (cells : S → Cells)
    (laws : StorageLaws sa cells) where
  -- Only the candidate's key may have changed.
  candidate-Inv :
      (st : Store S) (d : S) (v : Option (List ℕ))
      → Inv cells st
      → (cells d ≡ cells st.context) ⊎ (cells d ≡ put (cells st.context) candidate v)
      → Inv cells (record st { context = d })
        × (recover st.options (cells d) ≡ recover st.options (cells st.context))
  unfolding stored marker_in
  candidate-Inv st d v i changed =
      let same : recover st.options (cells d) ≡ recover st.options (cells st.context) =
        ground (arith, recover-put_candidate st.options (cells st.context) v) in
      (ground (arith, same), same)

  next_generation_bounds : (st : Store S) → (0 < next_generation st) × (next_generation st < 2 ^ 32)
  next_generation_bounds st = ground arith

  -- What `stage` leaves: the payload staged under the next generation, a faulted store, or the store
  -- as it was.
  abbrev pub Staged : Store S → List ℕ → Store S → UpdateResult → Type 0
  Staged st payload u result =
      ((result ≡ updated)
        × (u.has_candidate ≡ true)
        × (u.candidate.payload ≡ payload)
        × (u.candidate.generation ≡ next_generation st)
        × Inv cells u)
      ⊎ ((result ≡ storage_failure)
          × (u.storage_faulted ≡ true)
          × (u.candidate ≡ st.candidate)
          × (u.has_candidate ≡ st.has_candidate))
      ⊎ ((result ≡ invalid_payload) × (u ≡ st))

  staged-Staged :
      (st : Store S) (d : S) (payload : List ℕ) (f : Fetched)
      → Inv cells (record st { context = d })
      → let (u, result) = staged (record st { context = d }) payload (next_generation st) f in
        (u.context ≡ d) × (u.options ≡ st.options) × Staged st payload u result
  unfolding staged
  staged-Staged st d payload (fetched (DecodeResult.valid r)) i =
      ground (arith, same_text_iff r.payload payload, next_generation_bounds st)
  staged-Staged st d payload f i = ground arith

  -- Staging a payload never changes what a boot finds. Where it says that it is done, the payload is
  -- the candidate under the next generation; otherwise the candidate is the one before, and the
  -- store is faulted, or the payload was refused and nothing has changed.
  pub stage_keeps :
      (st : Store S) (payload : List ℕ)
      → Inv cells st
      → let (u, result) = stage sa st payload in
        (recover u.options (cells u.context) ≡ recover st.options (cells st.context))
        × Staged st payload u result
  unfolding stage write_candidate
  stage_keeps st payload i =
      elim (Option-cases (encode_record st.options payload (next_generation st))) [
        | inl e ↦ ground arith
        | inr (bytes, e) ↦
            let c = (sa.write st.context candidate bytes).0 in
            let (d, f) = read_encoded_record sa st.options c candidate in
            let reads = read_encoded_record_keeps sa cells laws st.options c candidate in
            let wrote = write_cases sa cells laws st.context candidate bytes in
            let kept = candidate-Inv st c (some bytes) i wrote in
            let kept' = candidate-Inv st d (some bytes) i (ground (arith, reads, wrote)) in
            ground (arith, kept.1, kept'.1, staged-Staged st d payload f kept'.0)
      ]

pub data Call : Type 0 where
  stages : List ℕ → Call
  commits : Call

unfoldable pub step : {S : Type 0} → StorageAdapter S → Store S → Call → Store S
step sa st (stages payload) = (stage sa st payload).0
step sa st commits = (commit sa st).0

unfoldable pub run : {S : Type 0} → StorageAdapter S → Store S → List Call → Store S
run sa st [] = st
run sa st (c ∷ cs) = run sa (step sa st c) cs

-- One of the calls stages this payload.
abbrev pub Stages : List ℕ → List Call → Type 0
Stages payload [] = ⊥
Stages payload (stages q ∷ cs) = (payload ≡ q) ⊎ Stages payload cs
Stages payload (commits ∷ cs) = Stages payload cs

module _ {S : Type 0} (sa : StorageAdapter S) (cells : S → Cells)
    (laws : StorageLaws sa cells) where
  abbrev found_by : Store S → Option (ℕ × OwnedRecord)
  found_by st = recover st.options (cells st.context)

  -- The new record of `found` was a candidate of `st`, or was staged by the calls.
  abbrev pub New : Store S → List Call → Option (ℕ × OwnedRecord) → Type 0
  New st cs none = ⊥
  New st cs (some (slot, r)) =
      ((st.has_candidate ≡ true) × (r.payload ≡ st.candidate.payload)) ⊎ Stages r.payload cs

  faulted-run : (st : Store S) (cs : List Call) → st.storage_faulted ≡ true → run sa st cs ≡ st
  unfolding run step stage commit
  faulted-run st [] h = refl
  faulted-run st (stages payload ∷ cs) h =
      let same : step sa st (stages payload) ≡ st = ground arith in
      ap (λ u. run sa u cs) same ∙ faulted-run st cs h
  faulted-run st (commits ∷ cs) h =
      let same : step sa st commits ≡ st = ground arith in
      ap (λ u. run sa u cs) same ∙ faulted-run st cs h

  New-stage :
      (st u : Store S) (payload : List ℕ) (cs : List Call) (found : Option (ℕ × OwnedRecord))
      → (u.candidate.payload ≡ payload)
        ⊎ ((u.candidate ≡ st.candidate) × (u.has_candidate ≡ st.has_candidate))
      → New u cs found
      → New st (stages payload ∷ cs) found
  New-stage st u payload cs none c n = n
  New-stage st u payload cs (some (slot, r)) c n = ground arith

  -- The candidate stays as it is until it is erased.
  write_slot_candidate :
      (st : Store S)
      → let u = (write_slot sa st).0 in
        (u.has_candidate ≡ false)
        ⊎ ((u.candidate ≡ st.candidate) × (u.has_candidate ≡ st.has_candidate))
  unfolding write_slot slot_written switch_marker finish_commit
  write_slot_candidate st = ground arith

  commit_candidate :
      (st : Store S)
      → let u = (commit sa st).0 in
        (u.has_candidate ≡ false)
        ⊎ ((u.candidate ≡ st.candidate) × (u.has_candidate ≡ st.has_candidate))
  unfolding commit
  commit_candidate st =
      ground
        (arith, prepare_marker_same sa cells laws st, write_slot_candidate (prepare_marker sa st).0)

  commit-has_candidate :
      (st : Store S) → ((commit sa st).1 ≡ no_candidate) ⊎ (st.has_candidate ≡ true)
  unfolding commit
  commit-has_candidate st = ground arith

  New-commit :
      (st u : Store S) (cs : List Call) (found : Option (ℕ × OwnedRecord))
      → (u.has_candidate ≡ false)
        ⊎ ((u.candidate ≡ st.candidate) × (u.has_candidate ≡ st.has_candidate))
      → New u cs found
      → New st (commits ∷ cs) found
  New-commit st u cs none c n = n
  New-commit st u cs (some (slot, r)) c n = ground arith

  -- Whatever payloads are staged and committed, and wherever any of these calls stops or fails, a
  -- boot finds the record that it would have found before them, or one whose payload was the
  -- candidate before them or was staged by one of them, whole.
  pub run_recovers :
      (st : Store S) (cs : List Call)
      → Inv cells st
      → let found = found_by (run sa st cs) in (found ≡ found_by st) ⊎ New st cs found
  unfolding run step
  run_recovers st [] i = inl refl
  run_recovers st (stages payload ∷ cs) i =
      let u = (stage sa st payload).0 in
      let (same, left) = stage_keeps sa cells laws st payload i in
      elim left [
        | inl (e, on, pay, next, kept) ↦ elim (run_recovers u cs kept) [
          | inl old ↦ inl (old ∙ same)
          | inr new ↦ inr (New-stage st u payload cs (found_by (run sa u cs)) (inl pay) new)
        ]
        | inr (inl (e, broken, c, h)) ↦ inl (ap found_by (faulted-run u cs broken) ∙ same)
        | inr (inr (e, back)) ↦ elim (run_recovers st cs i) [
          | inl old ↦ inl (ap (λ x. found_by (run sa x cs)) back ∙ old)
          | inr new ↦ inr (
              subst (λ x. New st (stages payload ∷ cs) (found_by (run sa x cs))) (sym back)
                (New-stage st st payload cs (found_by (run sa st cs)) (inr (refl, refl)) new))
        ]
      ]
  run_recovers st (commits ∷ cs) i =
      let u = (commit sa st).0 in
      let had = commit-has_candidate st in
      let c = commit_candidate st in
      elim (commit-Atomic sa cells laws st i) [
        | inl (e, done, active, kept) ↦ elim (run_recovers u cs kept) [
          | inl old ↦
              let on : st.has_candidate ≡ true = ground arith in
              inr (rw (old, done) (inl (on, refl)))
          | inr new ↦ inr (New-commit st u cs (found_by (run sa u cs)) c new)
        ]
        | inr (inl (e, broken, left)) ↦
            let stays : found_by (run sa u cs) ≡ found_by u =
              ap found_by (faulted-run u cs broken) in
            let on : st.has_candidate ≡ true = ground arith in
            elim left [
              | inl old ↦ inl (stays ∙ old)
              | inr new ↦ inr (rw (stays, new) (inl (on, refl)))
            ]
        | inr (inr (e, back)) ↦ elim (run_recovers st cs i) [
          | inl old ↦ inl (ap (λ x. found_by (run sa x cs)) back ∙ old)
          | inr new ↦ inr (
              subst (λ x. New st (commits ∷ cs) (found_by (run sa x cs))) (sym back)
                (New-commit st st cs (found_by (run sa st cs)) (inr (refl, refl)) new))
        ]
      ]
