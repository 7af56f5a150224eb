-- ===== src/Storage/Store/Faults.antt =====
-- Why a store is faulted from the start: a read of deck_transaction_store.cpp failed.
use mathlib.Core.Path.{subst}
use s3_rlcd_deck.Base.{
  ℕ, ◌+◌, ◌≡◌, ◌⊎◌, ◌∙◌, sym, ap, inl, inr, refl, true, false, some, List, [], ◌∷◌, arith,
  Option-cases, Bool-cases,
}
use s3_rlcd_deck.Storage.Record.{Options, DecodeResult, record_header_size, checksum_size}
use s3_rlcd_deck.Storage.Marker.{DecodedMarker, decode_marker, marker_size}
use s3_rlcd_deck.Storage.Store.{
  StorageKey, candidate, active_marker, of_generation, StorageAdapter, Store, Fetched, fetched,
  absent, failed, slot_key, is_failed, fetch, ReadResult, ok, not_found, error, read_encoded_record,
  candidate_loaded, load_candidate, previous_loaded, selected_loaded, marker_decoded, marker_loaded,
  load_active, create, read_previous, blank_store,
}
use s3_rlcd_deck.Storage.Store.Invariant.{ReadResult-cases}

module _ {S : Type 0} (sa : StorageAdapter S) where
  -- The context after some reads.
  unfoldable pub after_reads : S → List (StorageKey × ℕ) → S
  after_reads c [] = c
  after_reads c ((key, n) ∷ reads) = after_reads (sa.read c key n).0 reads

  -- A read that answers with an error, the first from a context or after other reads.
  abbrev pub FailedRead : S → Type 0
  FailedRead c =
      (reads : List (StorageKey × ℕ)) × (key : StorageKey) × (n : ℕ) × ((sa.read
          (after_reads c reads) key n).1
        ≡ error)

  FailedRead-read :
      (c : S) (key : StorageKey) (n : ℕ) → FailedRead (sa.read c key n).0 → FailedRead c
  unfolding after_reads
  FailedRead-read c key n (reads, k, m, e) = ((key, n) ∷ reads, k, m, e)

  fetch-failed : (o : Options) (r : ReadResult) → is_failed (fetch o r) ≡ true → r ≡ error
  fetch-failed o (ok bytes) e = absurd (ground arith)
  fetch-failed o not_found e = absurd (ground arith)
  fetch-failed o error e = refl

  read_encoded_record-FailedRead :
      (o : Options) (c : S) (key : StorageKey)
      → is_failed (read_encoded_record sa o c key).1 ≡ true
      → FailedRead c
  unfolding read_encoded_record after_reads
  read_encoded_record-FailedRead o c key e =
      let n = record_header_size + o.payload_capacity + checksum_size in
      ([], key, n, fetch-failed o (sa.read c key n).1 e)

  previous_loaded-faulted :
      (st : Store S) (m : DecodedMarker) (f g : Fetched)
      → (previous_loaded st m f g).storage_faulted ≡ true
      → (is_failed f ≡ true) ⊎ (is_failed g ≡ true) ⊎ (st.storage_faulted ≡ true)
  unfolding previous_loaded
  previous_loaded-faulted st m f g e = elim (Option-cases (of_generation g m.previous_generation)) [
    | inl e1 ↦ ground arith
    | inr (r, e1) ↦ ground arith
  ]

  read_previous-FailedRead :
      (o : Options) (c : S) (m : DecodedMarker)
      → is_failed (read_previous sa o c m).1 ≡ true
      → FailedRead c
  read_previous-FailedRead o c m e = elim (Bool-cases m.has_previous) [
    | inl there ↦
        read_encoded_record-FailedRead o c (slot_key m.previous_slot) (ground (arith, there, e))
    | inr missing ↦ absurd (ground (arith, missing, e))
  ]

  selected_loaded-FailedRead :
      (st : Store S) (m : DecodedMarker) (f : Fetched)
      → (selected_loaded sa st m f).storage_faulted ≡ true
      → (is_failed f ≡ true) ⊎ (st.storage_faulted ≡ true) ⊎ FailedRead st.context
  unfolding selected_loaded
  selected_loaded-FailedRead st m f e =
      let (c, g) = read_previous sa st.options st.context m in
      elim (Option-cases (of_generation f m.active_generation)) [
        | inr (r, e1) ↦ inr (inl (ground arith))
        | inl e1 ↦ elim (previous_loaded-faulted (record st { context = c }) m f g (ground arith)) [
          | inl here ↦ inl here
          | inr (inl there) ↦ inr (inr (read_previous-FailedRead st.options st.context m there))
          | inr (inr before) ↦ inr (inl before)
        ]
      ]

  marker_decoded-FailedRead :
      (st : Store S) (d : DecodeResult DecodedMarker)
      → (marker_decoded sa st d).storage_faulted ≡ true
      → (st.storage_faulted ≡ true) ⊎ FailedRead st.context
  unfolding marker_decoded read_encoded_record
  marker_decoded-FailedRead st (DecodeResult.valid m) e =
      let key = slot_key m.active_slot in
      let n = record_header_size + st.options.payload_capacity + checksum_size in
      let (c, f) = read_encoded_record sa st.options st.context key in
      elim (selected_loaded-FailedRead (record st { context = c }) m f e) [
        | inl here ↦ inr (read_encoded_record-FailedRead st.options st.context key here)
        | inr (inl before) ↦ inl before
        | inr (inr later) ↦ inr (FailedRead-read st.context key n later)
      ]
  marker_decoded-FailedRead st d e = inl (ground arith)

  load_active-FailedRead :
      (st : Store S)
      → (load_active sa st).storage_faulted ≡ true
      → (st.storage_faulted ≡ true) ⊎ FailedRead st.context
  unfolding load_active marker_loaded after_reads
  load_active-FailedRead st e =
      let (c, result) = sa.read st.context active_marker marker_size in
      elim (ReadResult-cases (sa.read st.context active_marker marker_size).1) [
        | inl (bytes, is) ↦
            let u = record st { context = c; marker_present = true } in
            elim (marker_decoded-FailedRead u (decode_marker st.options bytes) (ground arith)) [
              | inl before ↦ inl before
              | inr later ↦ inr (FailedRead-read st.context active_marker marker_size later)
            ]
        | inr (inl is) ↦ inl (ground arith)
        | inr (inr is) ↦ inr ([], active_marker, marker_size, is)
      ]

  load_candidate-FailedRead :
      (st : Store S)
      → (load_candidate sa st).storage_faulted ≡ true
      → (st.storage_faulted ≡ true) ⊎ FailedRead st.context
  unfolding load_candidate candidate_loaded
  load_candidate-FailedRead st e =
      let (c, f) = read_encoded_record sa st.options st.context candidate in
      elim (Bool-cases (is_failed f)) [
        | inl here ↦ inr (read_encoded_record-FailedRead st.options st.context candidate here)
        | inr fine ↦ inl (candidate_fine (record st { context = c }) f fine e)
      ]
    where
      candidate_fine :
          (u : Store S) (f : Fetched)
          → is_failed f ≡ false
          → (candidate_loaded u f).storage_faulted ≡ true
          → u.storage_faulted ≡ true
      candidate_fine u absent fine e = e
      candidate_fine u failed fine e = absurd (ground arith)
      candidate_fine u (fetched (DecodeResult.valid r)) fine e = e
      candidate_fine u (fetched d) fine e = ground arith

  -- A new store is faulted only where one of its reads failed.
  pub create-FailedRead :
      (c : S) (options : Options) (st : Store S)
      → create sa c options ≡ some st
      → st.storage_faulted ≡ true
      → FailedRead c
  unfolding create blank_store load_candidate candidate_loaded read_encoded_record
  create-FailedRead c options st made e =
      let blank = blank_store c options in
      let n = record_header_size + blank.options.payload_capacity + checksum_size in
      let read = load_candidate sa blank in
      let is : st ≡ load_active sa read = ground arith in
      elim (load_active-FailedRead read (ap (λ x. x.storage_faulted) (sym is) ∙ e)) [
        | inl before ↦ elim (load_candidate-FailedRead blank before) [
          | inl start ↦ absurd (ground (arith, start))
          | inr here ↦ here
        ]
        | inr later ↦ FailedRead-read c candidate n (subst (λ d. FailedRead d) (kept blank) later)
      ]
    where
      kept :
          (b : Store S)
          → (load_candidate sa b).context
            ≡ (sa.read b.context candidate
                (record_header_size + b.options.payload_capacity + checksum_size)).0
      kept b = ground arith
