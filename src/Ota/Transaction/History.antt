-- ===== src/Ota/Transaction/History.antt =====
-- Histories of a transaction: the calls of the OTA worker in sequence (deck_ota_transaction.cpp).
use mathlib.Core.Path.{subst}
use s3_rlcd_deck.Base.{
  ℕ, ◌<◌, ◌≡◌, ◌≢◌, ◌⊎◌, refl, ◌∙◌, Bool, true, false, some, List, [], ◌∷◌, arith, length,
  Option-cases, inl, inr,
}
use s3_rlcd_deck.Ota.Types.{
  Manifest, receiving, ready_to_reboot, FlashAdapter, CryptoAdapter, Options, is_receiving,
}
use s3_rlcd_deck.Ota.Transaction.{Transaction, create, refusal, offer, write, tick, finish_image}
use s3_rlcd_deck.Ota.Transaction.Laws.{FlashLaws, CryptoLaws, HasDigest, Accepted, Inv}
use s3_rlcd_deck.Ota.Transaction.Integrity.{offer-Inv, write-Inv, tick-Inv}

pub data Call : Type 0 where
  offers : Manifest → (now : ℕ) → Call
  writes : (offset : ℕ) → (chunk : List ℕ) → (final : Bool) → (now : ℕ) → Call
  ticks : (now : ℕ) → Call

abbrev pub AllFit : List Call → Type 0
AllFit [] = Unit {0}
AllFit (offers m now ∷ cs) = HasDigest m × AllFit cs
AllFit (c ∷ cs) = AllFit cs

module _ {F K : Type 0} (fl : FlashAdapter F) (cr : CryptoAdapter K) where
  unfoldable pub step : Transaction F K → Call → Transaction F K
  step t (offers m now) = (offer fl cr t m now).0
  step t (writes offset chunk final now) = (write fl cr t offset chunk final now).0
  step t (ticks now) = (tick fl cr t now).0

  unfoldable pub run : Transaction F K → List Call → Transaction F K
  unfolding step
  run t [] = t
  run t (c ∷ cs) = run (step t c) cs

  offer-options :
      (t : Transaction F K) (m : Manifest) (now : ℕ) → (offer fl cr t m now).0.options ≡ t.options
  unfolding offer
  offer-options t m now = elim (Option-cases (refusal t.options m)) [
    | inl e ↦ ground arith
    | inr (r, e) ↦ ground arith
  ]

  finish_image-options : (t : Transaction F K) → (finish_image fl cr t).0.options ≡ t.options
  unfolding finish_image
  finish_image-options t = elim (Option-cases (cr.hash_finish t.crypto).1) [
    | inl e ↦ ground arith
    | inr (d, e) ↦ ground arith
  ]

  write-options :
      (t : Transaction F K) (offset : ℕ) (chunk : List ℕ) (final : Bool) (now : ℕ)
      → (write fl cr t offset chunk final now).0.options ≡ t.options
  unfolding write
  write-options t offset chunk final now = ground arith

  step-options : (t : Transaction F K) (c : Call) → (step t c).options ≡ t.options
  unfolding step tick
  step-options t (offers m now) = offer-options t m now
  step-options t (writes offset chunk final now) = write-options t offset chunk final now
  step-options t (ticks now) = ground arith

  run-options : (t : Transaction F K) (cs : List Call) → (run t cs).options ≡ t.options
  unfolding run
  run-options t [] = refl
  run-options t (c ∷ cs) = run-options (step t c) cs ∙ step-options t c

module _ {F K : Type 0} (fl : FlashAdapter F) (cr : CryptoAdapter K) (image : F → List ℕ)
    (selected : F → Bool) (hashed : K → List ℕ) (sha256 : List ℕ → List ℕ)
    (Authentic : Manifest → Type 0) (flash : FlashLaws fl image selected)
    (crypto : CryptoLaws cr hashed sha256 Authentic) where
  abbrev Good : Transaction F K → Type 0
  Good t = Inv image selected hashed sha256 Authentic t

  create-Inv :
      (o : Options) (f : F) (k : K) (t : Transaction F K)
      → selected f ≡ false
      → create o f k ≡ some t
      → Good t
  unfolding create
  create-Inv o f k t s e = ground arith

  create-options :
      (o : Options) (f : F) (k : K) (t : Transaction F K) → create o f k ≡ some t → t.options ≡ o
  unfolding create
  create-options o f k t e = ground arith

  step-Inv : (t : Transaction F K) (c : Call) → AllFit (c ∷ []) → Good t → Good (step fl cr t c)
  unfolding step
  step-Inv t (offers m now) h v =
      offer-Inv fl cr image selected hashed sha256 Authentic flash crypto t m now h.0 v
  step-Inv t (writes offset chunk final now) h v =
      write-Inv fl cr image selected hashed sha256 Authentic flash crypto t offset chunk final now v
  step-Inv t (ticks now) h v =
      tick-Inv fl cr image selected hashed sha256 Authentic flash crypto t now v

  AllFit-head : (c : Call) (cs : List Call) → AllFit (c ∷ cs) → AllFit (c ∷ [])
  AllFit-head (offers m now) cs h = (h.0, tt)
  AllFit-head (writes offset chunk final now) cs h = tt
  AllFit-head (ticks now) cs h = tt

  AllFit-tail : (c : Call) (cs : List Call) → AllFit (c ∷ cs) → AllFit cs
  AllFit-tail (offers m now) cs h = h.1
  AllFit-tail (writes offset chunk final now) cs h = h
  AllFit-tail (ticks now) cs h = h

  run-Inv : (t : Transaction F K) (cs : List Call) → AllFit cs → Good t → Good (run fl cr t cs)
  unfolding run
  run-Inv t [] h v = v
  run-Inv t (c ∷ cs) h v =
      run-Inv (step fl cr t c) cs (AllFit-tail c cs h) (step-Inv t c (AllFit-head c cs h) v)

  -- With adapters that keep to their documentation and 32-byte digests in the manifests, after any
  -- calls on a created transaction over a partition that is not selected: if the partition is
  -- selected for the next boot, then the transaction is ready to reboot, the partition holds as
  -- many bytes as the manifest says with the digest that it says, and the manifest is authentic,
  -- for this board and protocol, strictly newer than the running version and within the capacity.
  pub selected_is_Accepted :
      (o : Options) (f : F) (k : K) (cs : List Call) {t : Transaction F K}
      → selected f ≡ false
      → create o f k ≡ some t
      → AllFit cs
      → selected (run fl cr t cs).flash ≡ true
      → let u = run fl cr t cs in
        (u.snapshot.state ≡ ready_to_reboot)
        × (length (image u.flash) ≡ u.manifest.image_length)
        × (sha256 (image u.flash) ≡ u.manifest.image_sha256)
        × Accepted Authentic o u.manifest
  selected_is_Accepted o f k cs {t} s e fit b =
      let v = run-Inv t cs fit (create-Inv o f k t s e) in
      let ready = v.boots b in
      (
        ready,
        (v.ready ready).0,
        (v.ready ready).1,
        subst (λ p. Accepted Authentic p (run fl cr t cs).manifest)
            (run-options fl cr t cs ∙ create-options o f k t e) (v.ready_accepted ready),
      )

  -- No resource leaks: after any such calls the partition and the hash are open exactly while the
  -- transaction is receiving, and an image that is still being received is incomplete.
  pub run-releases :
      (o : Options) (f : F) (k : K) (cs : List Call) {t : Transaction F K}
      → selected f ≡ false
      → create o f k ≡ some t
      → AllFit cs
      → let u = run fl cr t cs in
        (u.flash_open ≡ is_receiving u.snapshot.state)
        × (u.hash_open ≡ is_receiving u.snapshot.state)
        × ((u.snapshot.state ≢ receiving) ⊎ (u.snapshot.received_bytes < u.snapshot.image_length))
  run-releases o f k cs {t} s e fit = ground (arith, run-Inv t cs fit (create-Inv o f k t s e))
