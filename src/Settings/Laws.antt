-- ===== src/Settings/Laws.antt =====
-- What deck_device_settings.cpp promises over the transaction store: an offset that it said was
-- updated is there after a reset, and at any other time the old one or the new one.
use s3_rlcd_deck.Base.{
  ℕ, ◌≡◌, ◌⊎◌, ◌∙◌, sym, ap, inl, inr, true, false, Option, none, some, arith, Bool-cases,
}
use s3_rlcd_deck.Base.Int.{ℤ, pos, negsuc}
use s3_rlcd_deck.Storage.Record.{Options, OwnedRecord}
use s3_rlcd_deck.Storage.Store.{StorageAdapter, Store, stage}
use s3_rlcd_deck.Storage.Store
use s3_rlcd_deck.Storage.Store.Commit.{commit, next_slot}
use s3_rlcd_deck.Storage.Store.Laws.{Cells, StorageLaws, recover}
use s3_rlcd_deck.Storage.Store.Invariant.{Inv}
use s3_rlcd_deck.Storage.Store.Safety.{commit-Atomic}
use s3_rlcd_deck.Storage.Store.Load.{create_recovers}
use s3_rlcd_deck.Storage.Store.Calls.{stage_keeps}
use s3_rlcd_deck.Storage.Store.Fixed.{create-options, stage-options, commit-options}
use s3_rlcd_deck.Settings.{
  decode_offset, encode_offset, valid_offset, validate_payload, store_options, default_offset,
  create, submit_temperature_offset, snapshot, UpdateResult, updated, invalid_offset,
  storage_failure, is_updated,
}

-- An offset that is in range reads back from its two bytes, which the store accepts.
pub decode_offset-encode_offset :
    (offset : ℤ)
    → valid_offset offset ≡ true
    → (decode_offset (encode_offset offset) ≡ offset)
      × (validate_payload (encode_offset offset) ≡ true)
unfolding decode_offset encode_offset validate_payload
decode_offset-encode_offset (pos n) ok = ground arith
decode_offset-encode_offset (negsuc n) ok = ground arith

-- The options with which the store runs.
abbrev pub kept_options : Options
kept_options = record store_options { payload_capacity = 128 }

-- The offset of what a boot finds.
abbrev pub offset_of : Option (ℕ × OwnedRecord) → ℤ
offset_of none = default_offset
offset_of (some (slot, r)) = decode_offset r.payload

module _ {S : Type 0} (sa : StorageAdapter S) (cells : S → Cells)
    (laws : StorageLaws sa cells) where
  -- Settings whose storage has not failed.
  pub record IsSettings (st : Store S) : Type 0 where
    pub sound : Inv cells st
    pub fixed : st.options ≡ kept_options

  pub create-IsSettings :
      (c : S) (st : Store S) → create sa c ≡ some st → st.storage_faulted ≡ false → IsSettings st
  unfolding create
  create-IsSettings c st e sane = record {
    sound = elim ((create_recovers sa cells laws c store_options st e).2) [
      | inl broken ↦ cc (broken, sane)
      | inr i ↦ i
    ];
    fixed = create-options sa c store_options st e;
  }

  IsSettings-offset :
      (st : Store S)
      → IsSettings st
      → (snapshot st).temperature_offset_tenths_c
        ≡ offset_of (recover kept_options (cells st.context))
  unfolding snapshot Store.Commit.snapshot
  IsSettings-offset st i =
      let known : recover kept_options (cells st.context) ≡ recover st.options (cells st.context) =
        ap (λ o. recover o (cells st.context)) (sym i.fixed) in
      elim (Bool-cases st.has_active) [
        | inl on ↦ ground (arith, known, (i.sound.found on).1)
        | inr off ↦ ground (arith, known, (i.sound.home off).1)
      ]

  create-offset :
      (c : S) (v : Store S)
      → create sa c ≡ some v
      → v.storage_faulted ≡ false
      → (snapshot v).temperature_offset_tenths_c ≡ offset_of (recover kept_options (cells c))
  unfolding create
  create-offset c v e sane =
      let same = (create_recovers sa cells laws c store_options v e).0 in
      IsSettings-offset v (create-IsSettings c v e sane)
      ∙ ap (λ cs. offset_of (recover kept_options cs)) same

  abbrev found_by : Store S → Option (ℕ × OwnedRecord)
  found_by st = recover kept_options (cells st.context)

  -- What a commit of the staged offset leaves.
  commit-offset :
      (u : Store S) (offset : ℤ)
      → IsSettings u
      → u.candidate.payload ≡ encode_offset offset
      → valid_offset offset ≡ true
      → let (v, result) = commit sa u in
        ((result ≡ Store.UpdateResult.updated) × (offset_of (found_by v) ≡ offset) × IsSettings v)
        ⊎ ((is_updated result ≡ false)
            × ((found_by v ≡ found_by u) ⊎ (offset_of (found_by v) ≡ offset)))
  commit-offset u offset i staged ok =
      let (v, result) = commit sa u in
      let fixed : v.options ≡ kept_options = commit-options sa u ∙ i.fixed in
      let after : recover v.options (cells v.context) ≡ found_by v =
        ap (λ o. recover o (cells v.context)) fixed in
      let before : recover u.options (cells u.context) ≡ found_by u =
        ap (λ o. recover o (cells u.context)) i.fixed in
      let told : decode_offset u.candidate.payload ≡ offset =
        ap (λ p. decode_offset p) staged ∙ (decode_offset-encode_offset offset ok).0 in
      let new = λ (e : recover v.options (cells v.context) ≡ some (next_slot u, u.candidate)).
        ap (λ o. offset_of o) (sym after ∙ e) ∙ told in
      elim (commit-Atomic sa cells laws u i.sound) [
        | inl (done, at, act, kept) ↦ inl (done, new at, record { sound = kept; fixed = fixed })
        | inr (inl (e, broken, inl old)) ↦ inr (ground arith, inl (sym after ∙ old ∙ before))
        | inr (inl (e, broken, inr at)) ↦ inr (ground arith, inr (new at))
        | inr (inr (e, back)) ↦ inr (ground arith, inl (ap (λ x. found_by x) back))
      ]

  abbrev Submitted : Store S → ℤ → Store S → UpdateResult → Type 0
  Submitted st offset v result =
      ((result ≡ updated) × (offset_of (found_by v) ≡ offset) × IsSettings v)
      ⊎ ((result ≡ storage_failure)
          × ((found_by v ≡ found_by st) ⊎ (offset_of (found_by v) ≡ offset)))
      ⊎ ((result ≡ invalid_offset) × (v ≡ st))

  submit-Submitted :
      (st : Store S) (offset : ℤ)
      → IsSettings st
      → let (v, result) = submit_temperature_offset sa st offset in Submitted st offset v result
  unfolding submit_temperature_offset
  submit-Submitted st offset i =
      let (u, written) = stage sa st (encode_offset offset) in
      let (same, left) = stage_keeps sa cells laws st (encode_offset offset) i.sound in
      let fixed : u.options ≡ kept_options = stage-options sa st (encode_offset offset) ∙ i.fixed in
      let kept : found_by u ≡ found_by st =
        ap (λ o. recover o (cells u.context)) (sym fixed)
        ∙ same
        ∙ ap (λ o. recover o (cells st.context)) i.fixed in
      elim (Bool-cases (valid_offset offset)) [
        | inr bad ↦ inr (inr (ground arith, ground arith))
        | inl ok ↦ elim left [
          | inl (e, on, pay, next, sound) ↦
              let committed =
                commit-offset u offset (record { sound = sound; fixed = fixed }) pay ok in
              ground (arith, kept, committed)
          | inr (inl (e, broken, c, h)) ↦ ground (arith, kept)
          | inr (inr (e, back)) ↦ ground (arith, kept)
        ]
      ]

  -- Once a submit says that the offset is updated, the settings tell it, and so do those of any later
  -- boot that reads the storage without a failure.
  pub submit_temperature_offset_survives :
      (st v : Store S) (offset : ℤ)
      → IsSettings st
      → (submit_temperature_offset sa st offset).1 ≡ updated
      → create sa (submit_temperature_offset sa st offset).0.context ≡ some v
      → v.storage_faulted ≡ false
      → ((snapshot (submit_temperature_offset sa st offset).0).temperature_offset_tenths_c ≡ offset)
        × ((snapshot v).temperature_offset_tenths_c ≡ offset)
  submit_temperature_offset_survives st v offset i done boot sane =
      let (u, result) = submit_temperature_offset sa st offset in
      elim (submit-Submitted st offset i) [
        | inl (e, at, kept) ↦
            (IsSettings-offset u kept ∙ at, create-offset u.context v boot sane ∙ at)
        | inr (inl (e, left)) ↦ cc (e, done)
        | inr (inr (e, back)) ↦ cc (e, done)
      ]

  -- Wherever a submit stops, and whatever it says, a later boot that reads the storage without a
  -- failure tells the offset from before, or the one submitted.
  pub submit_temperature_offset_whole :
      (st v : Store S) (offset : ℤ)
      → IsSettings st
      → create sa (submit_temperature_offset sa st offset).0.context ≡ some v
      → v.storage_faulted ≡ false
      → ((snapshot v).temperature_offset_tenths_c ≡ (snapshot st).temperature_offset_tenths_c)
        ⊎ ((snapshot v).temperature_offset_tenths_c ≡ offset)
  submit_temperature_offset_whole st v offset i boot sane =
      let (u, result) = submit_temperature_offset sa st offset in
      let now = create-offset u.context v boot sane in
      let before = IsSettings-offset st i in
      elim (submit-Submitted st offset i) [
        | inl (e, at, kept) ↦ inr (now ∙ at)
        | inr (inl (e, inl old)) ↦ inl (now ∙ ap (λ o. offset_of o) old ∙ sym before)
        | inr (inl (e, inr at)) ↦ inr (now ∙ at)
        | inr (inr (e, back)) ↦ inl (now ∙ ap (λ x. offset_of (found_by x)) back ∙ sym before)
      ]
