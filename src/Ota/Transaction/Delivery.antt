-- ===== src/Ota/Transaction/Delivery.antt =====
-- An update that is sent in order (deck_ota_transaction.cpp): the sender splits the image into
-- chunks, and every call of the adapters succeeds.
use mathlib.Core.List.{append-nil, append_assoc}
use mathlib.Core.Path.{subst}
use s3_rlcd_deck.Base.{
  ℕ, ◌+◌, ◌-◌, ◌≤◌, ◌<◌, ◌≡◌, sym, Bool, true, false, some, List, [], ◌∷◌, ◌++◌, arith, length,
  length-append,
}
use s3_rlcd_deck.Ota.Types.{
  Options, Manifest, receiving, ready_to_reboot, OtaResult, ok, FlashAdapter, CryptoAdapter,
}
use s3_rlcd_deck.Ota.Digest.{digest_equal_iff}
use s3_rlcd_deck.Ota.Transaction.{Transaction, write, max_chunk_bytes}
use s3_rlcd_deck.Ota.Transaction.Laws.{FlashLaws, CryptoLaws, Inv}
use s3_rlcd_deck.Ota.Transaction.Integrity.{write-Inv}

-- Every call of the adapters that an update in order makes succeeds.
pub record Succeeds {F K : Type 0} (fl : FlashAdapter F) (cr : CryptoAdapter K) : Type 0 where
  pub writes : (f : F) (d : List ℕ) → (fl.write f d).1 ≡ true
  pub finishes : (f : F) → (fl.finish f).1 ≡ true
  pub selects : (f : F) → (fl.select_boot f).1 ≡ true
  pub hashes : (k : K) (d : List ℕ) → (cr.hash_update k d).1 ≡ true
  pub digest : K → List ℕ
  pub digests : (k : K) → (cr.hash_finish k).1 ≡ some (digest k)

-- The bytes of the chunks, in order.
abbrev pub flatten : List (List ℕ) → List ℕ
flatten [] = []
flatten (c ∷ cs) = c ++ flatten cs

abbrev pub ChunksFit : List (List ℕ) → Type 0
ChunksFit [] = Unit {0}
ChunksFit (c ∷ cs) = (0 < length c) × (length c ≤ max_chunk_bytes) × ChunksFit cs

-- Neither time-out has come.
pub record InTime {F K : Type 0} (t : Transaction F K) (now : ℕ) : Type 0 where
  pub started : t.started_ms ≤ now
  pub within : now - t.started_ms < t.options.maximum_duration_ms
  pub later : t.last_activity_ms ≤ now
  pub active : now - t.last_activity_ms < t.options.inactivity_timeout_ms

-- Chunks, each with the time at which it comes.
abbrev pub Sending : Type 0
Sending = List (List ℕ × ℕ)

abbrev pub chunks_of : Sending → List (List ℕ)
chunks_of [] = []
chunks_of ((chunk, now) ∷ rest) = chunk ∷ chunks_of rest

-- Each chunk comes before the update has lasted too long, and soon enough after the one before it.
abbrev pub OnTime : ℕ → ℕ → ℕ → ℕ → Sending → Type 0
OnTime started maximum inactivity last [] = Unit {0}
OnTime started maximum inactivity last ((chunk, now) ∷ rest) =
    (started ≤ now)
    × (now - started < maximum)
    × (last ≤ now)
    × (now - last < inactivity)
    × OnTime started maximum inactivity now rest

module _ {F K : Type 0} (fl : FlashAdapter F) (cr : CryptoAdapter K) where
  -- The sender: each chunk goes to the offset that the ones before it reach; the last is final.
  unfoldable pub deliver : Transaction F K → ℕ → List ℕ → ℕ → Sending → Transaction F K × OtaResult
  deliver t offset chunk now [] = write fl cr t offset chunk true now
  deliver t offset chunk now ((next, later) ∷ rest) =
      deliver (write fl cr t offset chunk false now).0 (offset + length chunk) next later rest

module _ {F K : Type 0} (fl : FlashAdapter F) (cr : CryptoAdapter K) (image : F → List ℕ)
    (selected : F → Bool) (hashed : K → List ℕ) (sha256 : List ℕ → List ℕ)
    (Authentic : Manifest → Type 0) (flash : FlashLaws fl image selected)
    (crypto : CryptoLaws cr hashed sha256 Authentic) (yes_all : Succeeds fl cr) where
  abbrev Good : Transaction F K → Type 0
  Good t = Inv image selected hashed sha256 Authentic t

  -- One chunk that does not complete the image is stored.
  write_more :
      (t : Transaction F K) (offset : ℕ) (chunk : List ℕ) (now : ℕ)
      → Good t
      → t.snapshot.received_bytes ≡ offset
      → t.snapshot.state ≡ receiving
      → InTime t now
      → 0 < length chunk
      → length chunk ≤ max_chunk_bytes
      → t.snapshot.received_bytes + length chunk < t.manifest.image_length
      → let u = (write fl cr t offset chunk false now).0 in
        (u.snapshot.state ≡ receiving)
        × (u.snapshot.received_bytes ≡ offset + length chunk)
        × (image u.flash ≡ image t.flash ++ chunk)
        × (u.manifest ≡ t.manifest)
        × (u.options ≡ t.options)
        × (u.started_ms ≡ t.started_ms)
        × (u.last_activity_ms ≡ now)
  unfolding write
  write_more t offset chunk now v at e time pos small more = ground (
    arith,
    yes_all.hashes t.crypto chunk,
    yes_all.writes t.flash chunk,
    flash.write_appends t.flash chunk,
  )

  -- The chunk that completes the image, where the digest is the manifest's.
  write_last :
      (t : Transaction F K) (offset : ℕ) (chunk : List ℕ) (now : ℕ)
      → Good t
      → t.snapshot.received_bytes ≡ offset
      → t.snapshot.state ≡ receiving
      → InTime t now
      → 0 < length chunk
      → length chunk ≤ max_chunk_bytes
      → t.snapshot.received_bytes + length chunk ≡ t.manifest.image_length
      → sha256 (image t.flash ++ chunk) ≡ t.manifest.image_sha256
      → let (u, r) = write fl cr t offset chunk true now in
        (r ≡ ok) × (u.snapshot.state ≡ ready_to_reboot) × (image u.flash ≡ image t.flash ++ chunk)
  unfolding write
  write_last t offset chunk now v at e time pos small full digest =
      let f = (fl.write t.flash chunk).0 in
      let k = (cr.hash_update t.crypto chunk).0 in
      ground (
        arith,
        yes_all.hashes t.crypto chunk,
        yes_all.writes t.flash chunk,
        yes_all.digests k,
        yes_all.finishes f,
        yes_all.selects (fl.finish f).0,
        flash.write_appends t.flash chunk,
        flash.finish_keeps f,
        flash.select_keeps (fl.finish f).0,
        crypto.update_appends t.crypto chunk,
        crypto.finish_hashes k (yes_all.digest k),
        crypto.sha256_bytes (hashed k),
        crypto.length-sha256 (hashed k),
        digest_equal_iff (yes_all.digest k) t.manifest.image_sha256,
      )

  -- The rest of the image, sent in order from where the transaction stands, in chunks of at most
  -- 3072 bytes, each at a time of its own, the whole within the maximal duration and each within the
  -- inactivity time-out after the one before it, is accepted: where its length and digest are those
  -- of the manifest and every call of the adapters succeeds, the last write answers `ok`, the
  -- transaction is ready to reboot, and the partition holds what it held followed by the chunks in
  -- order.
  pub deliver_completes :
      (t : Transaction F K) (offset : ℕ) (chunk : List ℕ) (now : ℕ) (rest : Sending)
      → Good t
      → t.snapshot.received_bytes ≡ offset
      → t.snapshot.state ≡ receiving
      → OnTime t.started_ms t.options.maximum_duration_ms t.options.inactivity_timeout_ms
          t.last_activity_ms
          ((chunk, now) ∷ rest)
      → ChunksFit (chunk ∷ chunks_of rest)
      → offset + length (flatten (chunk ∷ chunks_of rest)) ≡ t.manifest.image_length
      → sha256 (image t.flash ++ flatten (chunk ∷ chunks_of rest)) ≡ t.manifest.image_sha256
      → let (u, r) = deliver fl cr t offset chunk now rest in
        (r ≡ ok)
        × (u.snapshot.state ≡ ready_to_reboot)
        × (image u.flash ≡ image t.flash ++ flatten (chunk ∷ chunks_of rest))
  unfolding deliver
  deliver_completes t offset chunk now [] v at e time fit full digest =
      let soon : InTime t now = record {
        started = time.0;
        within = time.1;
        later = time.2;
        active = time.3;
      } in
      ground (arith, append-nil chunk, write_last t offset chunk now v at e soon fit.0 fit.1)
  deliver_completes t offset chunk now ((next, later) ∷ rest) v at e time fit full digest =
      let soon : InTime t now = record {
        started = time.0;
        within = time.1;
        later = time.2;
        active = time.3;
      } in
      let u = (write fl cr t offset chunk false now).0 in
      let others = chunks_of rest in
      let left = flatten (next ∷ others) in
      let more =
        write_more t offset chunk now v at e soon fit.0 fit.1
          (omega (arith, length-append chunk left, length-append next (flatten others), fit.2)) in
      let (receives, received, stored, manifest, options, started, active) = more in
      let behind : OnTime u.started_ms u.options.maximum_duration_ms u.options.inactivity_timeout_ms
          u.last_activity_ms ((next, later) ∷ rest) =
        subst
          (λ x.
            OnTime u.started_ms u.options.maximum_duration_ms u.options.inactivity_timeout_ms x
              ((next, later) ∷ rest))
          (sym active)
          (subst
            (λ (o : Options).
              OnTime u.started_ms o.maximum_duration_ms o.inactivity_timeout_ms now
                ((next, later) ∷ rest))
            (sym options)
            (subst
              (λ x.
                OnTime x t.options.maximum_duration_ms t.options.inactivity_timeout_ms now
                  ((next, later) ∷ rest))
              (sym started) time.4)) in
      ground (
        arith,
        more,
        append_assoc (image t.flash) chunk left,
        length-append chunk left,
        write-Inv fl cr image selected hashed sha256 Authentic flash crypto t offset chunk false now
            v,
        deliver_completes u (offset + length chunk) next later rest,
        behind,
      )
