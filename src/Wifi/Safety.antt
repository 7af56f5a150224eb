-- ===== src/Wifi/Safety.antt =====
-- Which calls of deck_wifi_config.cpp change what a boot finds.
use mathlib.Core.Path.{subst}
use s3_rlcd_deck.Base.{
  ℕ, ◌≡◌, ◌⊎◌, ◌∙◌, sym, ap, inl, inr, refl, Bool, true, Option, some, List, [], ◌∷◌, arith,
  Option-cases,
}
use s3_rlcd_deck.Storage.Record.{OwnedRecord}
use s3_rlcd_deck.Storage.Store.{StorageAdapter, Store, stage}
use s3_rlcd_deck.Storage.Store
use s3_rlcd_deck.Storage.Store.Laws.{Cells, StorageLaws, recover}
use s3_rlcd_deck.Storage.Store.Invariant.{Inv}
use s3_rlcd_deck.Storage.Store.Load.{create_recovers}
use s3_rlcd_deck.Storage.Store.Calls.{stage_keeps}
use s3_rlcd_deck.Wifi.Credentials.{Credentials, encode_credentials}
use s3_rlcd_deck.Wifi.Config.{
  ValidationAdapter, Config, ValidationResult, connected, authentication_refused, no_connection,
  refresh_store_state, set_storage_failure, active_connection, begin_validation, submit_valid,
  submit, validation_result, tick, payload_of, opened, create, store_options,
}

pub data Call : Type 0 where
  submits : Credentials → ℕ → Call
  results : ValidationResult → Call
  ticks : ℕ → Call
  connections : Bool → Call

-- No attempt to connect succeeds.
abbrev pub Unconnected : List Call → Type 0
Unconnected [] = Unit {0}
Unconnected (results connected ∷ cs) = ⊥
Unconnected (c ∷ cs) = Unconnected cs

Unconnected-cons :
    (c : Call) (cs : List Call) → Unconnected (c ∷ cs) → Unconnected (c ∷ []) × Unconnected cs
Unconnected-cons (submits credentials now_ms) cs never = (tt, never)
Unconnected-cons (results connected) cs never = absurd never
Unconnected-cons (results authentication_refused) cs never = (tt, never)
Unconnected-cons (results no_connection) cs never = (tt, never)
Unconnected-cons (ticks now_ms) cs never = (tt, never)
Unconnected-cons (connections online) cs never = (tt, never)

module _ {S V : Type 0} (sa : StorageAdapter S) (va : ValidationAdapter V) where
  unfoldable pub step : Config S V → Call → Config S V
  step config (submits credentials now_ms) = (submit sa va config credentials now_ms).0
  step config (results result) = (validation_result sa va config result).0
  step config (ticks now_ms) = (tick sa va config now_ms).0
  step config (connections online) = (active_connection config online).0

  unfoldable pub run : Config S V → List Call → Config S V
  unfolding step
  run config [] = config
  run config (c ∷ cs) = run (step config c) cs

module _ {S V : Type 0} (sa : StorageAdapter S) (va : ValidationAdapter V) (cells : S → Cells)
    (laws : StorageLaws sa cells) where
  -- The store of a configuration is sound, or the configuration knows that it failed.
  abbrev pub Sound : Config S V → Type 0
  Sound config = (config.storage_faulted ≡ true) ⊎ Inv cells config.store

  -- What a boot finds.
  abbrev pub found_by : Config S V → Option (ℕ × OwnedRecord)
  found_by config = recover config.store.options (cells config.store.context)

  set_storage_failure_lem :
      (config : Config S V)
      → ((set_storage_failure config).storage_faulted ≡ true)
        × ((set_storage_failure config).store ≡ config.store)
  unfolding set_storage_failure
  set_storage_failure_lem config = (refl, refl)

  begin_validation-store :
      (config : Config S V) (credentials : Credentials) (now_ms : ℕ)
      → (begin_validation sa va config credentials now_ms).0.store ≡ config.store
  unfolding begin_validation refresh_store_state
  begin_validation-store config credentials now_ms = ground arith

  submit_valid_keeps :
      (config : Config S V) (credentials : Credentials) (now_ms : ℕ)
      → Inv cells config.store
      → let u = (submit_valid sa va config credentials now_ms).0 in
        Sound u × (found_by u ≡ found_by config)
  unfolding submit_valid
  submit_valid_keeps config credentials now_ms i =
      let payload = payload_of (encode_credentials credentials) in
      let store = (stage sa config.store payload).0 in
      let left = record config { store = store } in
      let (same, outcome) = stage_keeps sa cells laws config.store payload i in
      let (fault, kept) = set_storage_failure_lem left in
      let failed : Sound (set_storage_failure left)
          × (found_by (set_storage_failure left) ≡ found_by config) =
        (inl fault, ap (λ x. recover x.options (cells x.context)) kept ∙ same) in
      elim outcome [
        | inl (e, on, pay, next, sound) ↦
            let there = begin_validation-store left credentials now_ms in
            rw e (
              inr (subst (λ x. Inv cells x) (sym there) sound),
              ap (λ x. recover x.options (cells x.context)) there ∙ same,
            )
        | inr (inl (e, broken, c, h)) ↦ rw e failed
        | inr (inr (e, rest)) ↦ rw e failed
      ]

  submit_keeps :
      (config : Config S V) (credentials : Credentials) (now_ms : ℕ)
      → Sound config
      → let u = (submit sa va config credentials now_ms).0 in
        Sound u × (found_by u ≡ found_by config)
  unfolding submit
  submit_keeps config credentials now_ms (inl broken) =
      let same : (submit sa va config credentials now_ms).0 ≡ config = ground arith in
      subst (λ x. Sound x × (found_by x ≡ found_by config)) (sym same) (inl broken, refl)
  submit_keeps config credentials now_ms (inr i) =
      ground (arith, submit_valid_keeps config credentials now_ms i)

  step_keeps :
      (config : Config S V) (c : Call)
      → Sound config
      → Unconnected (c ∷ [])
      → let u = step sa va config c in Sound u × (found_by u ≡ found_by config)
  unfolding step validation_result tick active_connection
  step_keeps config (submits credentials now_ms) i never = submit_keeps config credentials now_ms i
  step_keeps config (results connected) i never = absurd never
  step_keeps config (results authentication_refused) i never = ground (arith, i)
  step_keeps config (results no_connection) i never = ground (arith, i)
  step_keeps config (ticks now_ms) i never = ground (arith, i)
  step_keeps config (connections online) i never = ground (arith, i)

  run_keeps :
      (config : Config S V) (cs : List Call)
      → Sound config
      → Unconnected cs
      → found_by (run sa va config cs) ≡ found_by config
  unfolding run
  run_keeps config [] i never = refl
  run_keeps config (c ∷ cs) i never =
      let (first, others) = Unconnected-cons c cs never in
      let (kept, same) = step_keeps config c i first in
      run_keeps (step sa va config c) cs kept others ∙ same

  create-Sound :
      (c : S) (v : V) (timeout : ℕ) (config : Config S V)
      → create sa va c v timeout ≡ some config
      → Sound config
  unfolding create opened refresh_store_state Store.Commit.snapshot
  create-Sound c v timeout config e = elim (Option-cases (Store.create sa c store_options)) [
    | inl none_made ↦ ground arith
    | inr (store, made) ↦
        let found = create_recovers sa cells laws c store_options store made in
        ground (arith, found.2)
  ]

  -- Over a storage that may fail or lose power in any call, whatever credentials are submitted to a
  -- configuration that was just created, and whatever else happens: as long as no attempt to connect
  -- is reported to succeed and nothing is cleared, a boot finds the same record as before.
  pub run-create_keeps :
      (c : S) (v : V) (timeout : ℕ) (config : Config S V) (cs : List Call)
      → create sa va c v timeout ≡ some config
      → Unconnected cs
      → found_by (run sa va config cs) ≡ found_by config
  run-create_keeps c v timeout config cs new never =
      run_keeps config cs (create-Sound c v timeout config new) never
