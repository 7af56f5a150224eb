-- ===== src/Ota/Transaction/Laws.antt =====
-- What deck_ota_transaction.cpp relies on in its adapters, and what holds of a transaction between
-- two calls.
use s3_rlcd_deck.Base.{
  same_text, ℕ, ◌≤◌, ◌<◌, ◌≡◌, Bool, true, false, some, List, [], ◌++◌, u32_max, length,
}
use s3_rlcd_deck.Ota.Types.{
  Manifest, receiving, ready_to_reboot, FlashAdapter, CryptoAdapter, Options, is_receiving,
}
use s3_rlcd_deck.Ota.Version.{c_str, strictly_newer}
use s3_rlcd_deck.Ota.Digest.{AllBytes}
use s3_rlcd_deck.Ota.Transaction.{Transaction}

-- The partition as its driver documents it: `begin` empties it, `write` appends, `finish` and the
-- selection of the boot slot leave the bytes alone, and only that selection, where it succeeds,
-- makes the partition the one that boots next.
pub record FlashLaws {F : Type 0} (fl : FlashAdapter F) (image : F → List ℕ) (selected : F → Bool)
    : Type 0 where
  pub begin_empties : (f : F) (n : ℕ) → (fl.begin f n).1 ≡ true → image (fl.begin f n).0 ≡ []
  pub write_appends :
      (f : F) (d : List ℕ) → (fl.write f d).1 ≡ true → image (fl.write f d).0 ≡ image f ++ d
  pub finish_keeps : (f : F) → image (fl.finish f).0 ≡ image f
  pub select_keeps : (f : F) → image (fl.select_boot f).0 ≡ image f
  pub begin_selects : (f : F) (n : ℕ) → selected (fl.begin f n).0 ≡ selected f
  pub write_selects : (f : F) (d : List ℕ) → selected (fl.write f d).0 ≡ selected f
  pub finish_selects : (f : F) → selected (fl.finish f).0 ≡ selected f
  pub abort_selects : (f : F) → selected (fl.abort f) ≡ selected f
  pub refused_selects :
      (f : F) → (fl.select_boot f).1 ≡ false → selected (fl.select_boot f).0 ≡ selected f

-- The hash as its library documents it: a digest of 32 bytes of all that was fed since `begin`; and
-- what the verified signature of a manifest stands for.
pub record CryptoLaws {K : Type 0} (cr : CryptoAdapter K) (hashed : K → List ℕ)
    (sha256 : List ℕ → List ℕ) (Authentic : Manifest → Type 0) : Type 0 where
  pub begin_empties : (k : K) → (cr.hash_begin k).1 ≡ true → hashed (cr.hash_begin k).0 ≡ []
  pub update_appends :
      (k : K) (d : List ℕ)
      → (cr.hash_update k d).1 ≡ true
      → hashed (cr.hash_update k d).0 ≡ hashed k ++ d
  pub finish_hashes : (k : K) (d : List ℕ) → (cr.hash_finish k).1 ≡ some d → d ≡ sha256 (hashed k)
  pub sha256_bytes : (xs : List ℕ) → AllBytes (sha256 xs)
  pub length-sha256 : (xs : List ℕ) → length (sha256 xs) ≡ 32
  pub verified : (k : K) (m : Manifest) → (cr.verify_manifest k m).1 ≡ true → Authentic m

-- The digest field of a manifest is an array of 32 bytes.
abbrev pub HasDigest : Manifest → Type 0
HasDigest m = AllBytes m.image_sha256 × (length m.image_sha256 ≡ 32)

-- The manifest is one that `offer` lets through.
pub record Accepted (Authentic : Manifest → Type 0) (o : Options) (m : Manifest) : Type 0 where
  pub authentic : Authentic m
  pub newer : strictly_newer m.version o.running_version ≡ true
  pub for_board : same_text (c_str m.board) (c_str o.board) ≡ true
  pub understood : m.minimum_protocol_version ≤ o.protocol_version
  pub nonempty : 0 < m.image_length
  pub fits : m.image_length ≤ o.partition_capacity
  pub digest : HasDigest m

module _ {F K : Type 0} (image : F → List ℕ) (selected : F → Bool) (hashed : K → List ℕ)
    (sha256 : List ℕ → List ℕ) (Authentic : Manifest → Type 0) where
  pub record Inv (t : Transaction F K) : Type 0 where
    pub closed :
        is_receiving t.snapshot.state ≡ false → (t.flash_open ≡ false) × (t.hash_open ≡ false)
    pub opened : t.snapshot.state ≡ receiving → (t.flash_open ≡ true) × (t.hash_open ≡ true)
    pub incomplete :
        t.snapshot.state ≡ receiving
        → (t.snapshot.received_bytes < t.manifest.image_length)
          × (t.snapshot.image_length ≡ t.manifest.image_length)
    pub received :
        t.snapshot.state ≡ receiving
        → (length (image t.flash) ≡ t.snapshot.received_bytes) × (hashed t.crypto ≡ image t.flash)
    pub accepted : t.snapshot.state ≡ receiving → Accepted Authentic t.options t.manifest
    pub ready :
        t.snapshot.state ≡ ready_to_reboot
        → (length (image t.flash) ≡ t.manifest.image_length)
          × (sha256 (image t.flash) ≡ t.manifest.image_sha256)
    pub ready_accepted :
        t.snapshot.state ≡ ready_to_reboot → Accepted Authentic t.options t.manifest
    pub bounded : t.options.partition_capacity ≤ u32_max
    pub boots : selected t.flash ≡ true → t.snapshot.state ≡ ready_to_reboot
