-- ===== src/Storage/Store/Fixed.antt =====
-- The options of a store of deck_transaction_store.cpp are those that it was created with.
use s3_rlcd_deck.Base.{true, ℕ, ◌≡◌, ◌∙◌, refl, some, List, arith, Option-cases, inl, inr}
use s3_rlcd_deck.Storage.Record.{Options, DecodeResult, encode_record}
use s3_rlcd_deck.Storage.Marker.{DecodedMarker, decode_marker, marker_size}
use s3_rlcd_deck.Storage.Store.{
  StorageAdapter, Store, Fetched, ReadResult, capacity_of, blank_store, candidate_loaded,
  previous_loaded, staged, load_candidate, selected_loaded, marker_decoded, marker_loaded,
  load_active, create, write_candidate, stage, read_previous, read_encoded_record, next_generation,
  slot_key, candidate, active_marker,
}
use s3_rlcd_deck.Storage.Store.Commit.{
  commit, prepare_marker, write_slot, slot_written, switch_marker, finish_commit,
}

module _ {S : Type 0} where
  blank_store-options :
      (c : S) (options : Options)
      → (blank_store c options).options ≡ record options { payload_capacity = capacity_of options }
  unfolding blank_store
  blank_store-options c options = refl

  candidate_loaded-options :
      (st : Store S) (f : Fetched) → (candidate_loaded st f).options ≡ st.options
  unfolding candidate_loaded
  candidate_loaded-options st f = ground arith

  previous_loaded-options :
      (st : Store S) (m : DecodedMarker) (f g : Fetched)
      → (previous_loaded st m f g).options ≡ st.options
  unfolding previous_loaded
  previous_loaded-options st m f g = ground arith

  staged-options :
      (st : Store S) (payload : List ℕ) (generation : ℕ) (f : Fetched)
      → (staged st payload generation f).0.options ≡ st.options
  unfolding staged
  staged-options st payload generation f = ground arith

module _ {S : Type 0} (sa : StorageAdapter S) where
  selected_loaded-options :
      (st : Store S) (m : DecodedMarker) (f : Fetched)
      → (selected_loaded sa st m f).options ≡ st.options
  unfolding selected_loaded
  selected_loaded-options st m f =
      let (c, g) = read_previous sa st.options st.context m in
      ground (arith, previous_loaded-options (record st { context = c }) m f g)

  marker_decoded-options :
      (st : Store S) (d : DecodeResult DecodedMarker)
      → (marker_decoded sa st d).options ≡ st.options
  unfolding marker_decoded
  marker_decoded-options st (DecodeResult.valid m) =
      let (c, f) = read_encoded_record sa st.options st.context (slot_key m.active_slot) in
      selected_loaded-options (record st { context = c }) m f
  marker_decoded-options st d = refl

  marker_loaded-options :
      (st : Store S) (r : ReadResult) → (marker_loaded sa st r).options ≡ st.options
  unfolding marker_loaded
  marker_loaded-options st (ReadResult.ok bytes) =
      marker_decoded-options (record st { marker_present = true }) (decode_marker st.options bytes)
  marker_loaded-options st ReadResult.not_found = refl
  marker_loaded-options st ReadResult.error = refl

  load_candidate-options : (st : Store S) → (load_candidate sa st).options ≡ st.options
  unfolding load_candidate
  load_candidate-options st =
      let (c, f) = read_encoded_record sa st.options st.context candidate in
      candidate_loaded-options (record st { context = c }) f

  load_active-options : (st : Store S) → (load_active sa st).options ≡ st.options
  unfolding load_active
  load_active-options st =
      let (c, r) = sa.read st.context active_marker marker_size in
      marker_loaded-options (record st { context = c }) r

  -- The options of a new store are those given, with the default capacity for 0.
  pub create-options :
      (c : S) (options : Options) (st : Store S)
      → create sa c options ≡ some st
      → st.options ≡ record options { payload_capacity = capacity_of options }
  unfolding create
  create-options c options st e =
      let blank = blank_store c options in
      let base : blank.options ≡ record options { payload_capacity = capacity_of options } =
        blank_store-options c options in
      ground
        (arith, load_active-options (load_candidate sa blank) ∙ load_candidate-options blank ∙ base)

  pub stage-options :
      (st : Store S) (payload : List ℕ) → (stage sa st payload).0.options ≡ st.options
  unfolding stage write_candidate
  stage-options st payload =
      let kept = λ (bytes : List ℕ).
        let c = (sa.write st.context candidate bytes).0 in
        let (d, f) = read_encoded_record sa st.options c candidate in
        staged-options (record st { context = d }) payload (next_generation st) f in
      elim (Option-cases (encode_record st.options payload (next_generation st))) [
        | inl e ↦ ground arith
        | inr (bytes, e) ↦ ground (arith, kept bytes)
      ]

  pub commit-options : (st : Store S) → (commit sa st).0.options ≡ st.options
  unfolding commit write_slot slot_written switch_marker finish_commit prepare_marker
  commit-options st = ground arith
