-- ===== src/Ota/Transaction/Integrity.antt =====
-- What an update that reached the boot slot has gone through (deck_ota_transaction.cpp).
use s3_rlcd_deck.Base.{
  ℕ, ◌+◌, ◌%◌, ◌^◌, ◌≢◌, ◌≤◌, ◌≡◌, Bool, true, false, none, List, arith, u32_max, length,
  length-append, Option-cases, inl, inr,
}
use s3_rlcd_deck.Ota.Types.{Manifest, receiving, OtaResult, FlashAdapter, CryptoAdapter, Options}
use s3_rlcd_deck.Ota.Digest.{digest_equal_iff}
use s3_rlcd_deck.Ota.Transaction.{
  Transaction, fail, refusal, open_resources, offer, select_image, finish_image, store_chunk, write,
  tick, is_misplaced,
}
use s3_rlcd_deck.Ota.Transaction.Laws.{FlashLaws, CryptoLaws, HasDigest, Accepted, Inv}

refusal_accepts :
    (Authentic : Manifest → Type 0) (o : Options) (m : Manifest)
    → HasDigest m
    → Authentic m
    → refusal o m ≡ none
    → Accepted Authentic o m
unfolding refusal
refusal_accepts Authentic o m d a e = record {
  authentic = a;
  newer = ground arith;
  for_board = ground arith;
  understood = ground arith;
  nonempty = ground arith;
  fits = ground arith;
  digest = d;
}

module _ {F K : Type 0} (fl : FlashAdapter F) (cr : CryptoAdapter K) (image : F → List ℕ)
    (selected : F → Bool) (hashed : K → List ℕ) (sha256 : List ℕ → List ℕ)
    (Authentic : Manifest → Type 0) (flash : FlashLaws fl image selected)
    (crypto : CryptoLaws cr hashed sha256 Authentic) where
  abbrev Good : Transaction F K → Type 0
  Good t = Inv image selected hashed sha256 Authentic t

  fail-Inv :
      (t : Transaction F K) (r : OtaResult)
      → t.options.partition_capacity ≤ u32_max
      → selected t.flash ≡ false
      → Good (fail fl cr t r).0
  unfolding fail
  fail-Inv t r h s = ground (arith, flash.abort_selects t.flash)

  open_resources-Inv :
      (t : Transaction F K) (m : Manifest) (now : ℕ)
      → t.options.partition_capacity ≤ u32_max
      → selected t.flash ≡ false
      → t.flash_open ≡ false
      → Accepted Authentic t.options m
      → Good (open_resources fl cr t m now).0
  unfolding open_resources
  open_resources-Inv t m now h s closed a =
      let k = (cr.hash_begin t.crypto).0 in
      let f = (fl.begin t.flash m.image_length).0 in
      ground (
        arith,
        fail-Inv (record t { crypto = k }) OtaResult.flash_failure,
        fail-Inv (record t { crypto = k; hash_open = true; flash = f }) OtaResult.flash_failure,
        flash.begin_empties t.flash m.image_length,
        flash.begin_selects t.flash m.image_length,
        crypto.begin_empties t.crypto,
      )

  pub offer-Inv :
      (t : Transaction F K) (m : Manifest) (now : ℕ)
      → HasDigest m
      → Good t
      → Good (offer fl cr t m now).0
  unfolding offer
  offer-Inv t m now d v =
      let k = (cr.verify_manifest t.crypto m).0 in
      elim (Option-cases (refusal t.options m)) [
        | inl e ↦ ground (
          arith,
          refusal_accepts Authentic t.options m d,
          crypto.verified t.crypto m,
          open_resources-Inv (record t { crypto = k }) m now,
          fail-Inv (record t { crypto = k }) OtaResult.signature_rejected,
        )
        | inr (r, e) ↦ ground (arith, fail-Inv t r)
      ]

  select_image-Inv :
      (t : Transaction F K)
      → t.options.partition_capacity ≤ u32_max
      → selected t.flash ≡ false
      → t.hash_open ≡ false
      → length (image t.flash) ≡ t.manifest.image_length
      → sha256 (image t.flash) ≡ t.manifest.image_sha256
      → Accepted Authentic t.options t.manifest
      → Good (select_image fl cr t).0
  unfolding select_image
  select_image-Inv t h s closed whole digest a =
      let f = (fl.finish t.flash).0 in
      ground (
        arith,
        flash.finish_keeps t.flash,
        flash.select_keeps f,
        flash.finish_selects t.flash,
        flash.refused_selects f,
      )

  finish_image-Inv :
      (t : Transaction F K)
      → t.options.partition_capacity ≤ u32_max
      → selected t.flash ≡ false
      → length (image t.flash) ≡ t.manifest.image_length
      → hashed t.crypto ≡ image t.flash
      → Accepted Authentic t.options t.manifest
      → Good (finish_image fl cr t).0
  unfolding finish_image
  finish_image-Inv t h s whole same a =
      let k = (cr.hash_finish t.crypto).0 in
      let finished = record t { crypto = k; hash_open = false } in
      elim (Option-cases (cr.hash_finish t.crypto).1) [
        | inl e ↦ ground (arith, fail-Inv (record t { crypto = k }) OtaResult.flash_failure)
        | inr (d, e) ↦ ground (
          arith,
          crypto.finish_hashes t.crypto d,
          crypto.sha256_bytes (hashed t.crypto),
          crypto.length-sha256 (hashed t.crypto),
          digest_equal_iff d t.manifest.image_sha256,
          select_image-Inv finished,
          fail-Inv finished OtaResult.hash_mismatch,
        )
      ]

  -- The chunk continues the image, and is the last exactly where it completes it.
  abbrev Continues : Transaction F K → List ℕ → Bool → Type 0
  Continues t chunk final =
      (t.snapshot.received_bytes + length chunk ≤ t.manifest.image_length)
      × (final ≡ true → t.snapshot.received_bytes + length chunk ≡ t.manifest.image_length)
      × (final ≡ false → t.snapshot.received_bytes + length chunk ≢ t.manifest.image_length)

  store_chunk-Inv :
      (t : Transaction F K) (chunk : List ℕ) (final : Bool) (now : ℕ)
      → t.snapshot.state ≡ receiving
      → Continues t chunk final
      → Good t
      → Good (store_chunk fl cr t chunk final now).0
  unfolding store_chunk
  store_chunk-Inv t chunk final now e c v =
      let k = (cr.hash_update t.crypto chunk).0 in
      let f = (fl.write t.flash chunk).0 in
      let n = t.snapshot.received_bytes + length chunk in
      let stored = record t {
        crypto = k;
        flash = f;
        snapshot = record (t.snapshot) { received_bytes = n % 2 ^ 32 };
        last_activity_ms = now;
      } in
      ground (
        arith,
        crypto.update_appends t.crypto chunk,
        flash.write_appends t.flash chunk,
        flash.write_selects t.flash chunk,
        length-append (image t.flash) chunk,
        finish_image-Inv stored,
        fail-Inv (record t { crypto = k }) OtaResult.flash_failure,
        fail-Inv (record t { crypto = k; flash = f }) OtaResult.flash_failure,
      )

  placed-Continues :
      (t : Transaction F K) (offset : ℕ) (chunk : List ℕ) (final : Bool)
      → t.snapshot.state ≡ receiving
      → is_misplaced t offset (length chunk) final ≡ false
      → Good t
      → Continues t chunk final
  unfolding is_misplaced
  placed-Continues t offset chunk final e p v = ground arith

  pub write-Inv :
      (t : Transaction F K) (offset : ℕ) (chunk : List ℕ) (final : Bool) (now : ℕ)
      → Good t
      → Good (write fl cr t offset chunk final now).0
  unfolding write
  write-Inv t offset chunk final now v = ground (
    arith,
    fail-Inv t OtaResult.timed_out,
    fail-Inv t OtaResult.stale_offset,
    placed-Continues t offset chunk final,
    store_chunk-Inv t chunk final now,
  )

  pub tick-Inv : (t : Transaction F K) (now : ℕ) → Good t → Good (tick fl cr t now).0
  unfolding tick
  tick-Inv t now v = ground (arith, fail-Inv t OtaResult.timed_out)
