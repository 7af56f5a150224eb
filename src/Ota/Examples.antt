-- ===== src/Ota/Examples.antt =====
-- The theorems about firmware/components/ota_service at concrete inputs, and runs of the code.
use mathlib.Core.Option.{some-injective}
use s3_rlcd_deck.Base.{
  same_text, ℕ, ◌%◌, ◌≡◌, refl, sym, Bool, true, false, none, some, List, [], ◌∷◌, ◌++◌, arith,
  length,
}
use s3_rlcd_deck.Ota.Types.{
  Manifest, State, ready_to_reboot, ok, FlashAdapter, CryptoAdapter, Options, receiving,
}
use s3_rlcd_deck.Ota.Version.{Core, parse_semantic_core, strictly_newer, safe_version, safe_board}
use s3_rlcd_deck.Ota.Version.Order.{Newer, strictly_newer_iff}
use s3_rlcd_deck.Ota.Digest.{digest_equal}
use s3_rlcd_deck.Ota.Transaction.{Transaction, create, offer, write}
use s3_rlcd_deck.Ota.Transaction.Laws.{FlashLaws, CryptoLaws, Inv}
use s3_rlcd_deck.Ota.Transaction.History.{Call, offers, writes, run, selected_is_Accepted}
use s3_rlcd_deck.Ota.Transaction.Delivery.{deliver, deliver_completes, Succeeds}

-- "1.2.0", "1.10.0" and "2.0.0".
abbrev v1_2 : List ℕ
v1_2 = b'1' ∷ b'.' ∷ b'2' ∷ b'.' ∷ b'0' ∷ 0 ∷ []

abbrev v1_10 : List ℕ
v1_10 = b'1' ∷ b'.' ∷ b'1' ∷ b'0' ∷ b'.' ∷ b'0' ∷ 0 ∷ []

abbrev v2_0 : List ℕ
v2_0 = b'2' ∷ b'.' ∷ b'0' ∷ b'.' ∷ b'0' ∷ b'-' ∷ b'a' ∷ 0 ∷ []

parse_v1_10 : parse_semantic_core v1_10 ≡ some (1, 10, 0)
unfolding parse_semantic_core
parse_v1_10 = refl

parse_leading_zero : parse_semantic_core (b'1' ∷ b'.' ∷ b'0' ∷ b'2' ∷ b'.' ∷ b'0' ∷ 0 ∷ []) ≡ none
unfolding parse_semantic_core
parse_leading_zero = refl

newer_10 : strictly_newer v1_10 v1_2 ≡ true
unfolding strictly_newer
newer_10 = refl

newer_2 : strictly_newer v2_0 v1_10 ≡ true
unfolding strictly_newer
newer_2 = refl

strictly_newer_iff_example :
    (p : Core) × (q : Core) × (parse_semantic_core v1_10 ≡ some p)
    × (parse_semantic_core v1_2 ≡ some q)
    × Newer p q
strictly_newer_iff_example = (strictly_newer_iff v1_10 v1_2).0 newer_10

-- A partition in memory: its bytes, and whether it boots next.
abbrev Partition : Type 0
Partition = List ℕ × Bool

abbrev memory : FlashAdapter Partition
memory = record {
  begin = λ f n. (([], f.1), true);
  write = λ f d. ((f.0 ++ d, f.1), true);
  finish = λ f. (f, true);
  abort = λ f. f;
  select_boot = λ f. ((f.0, true), true);
}

memory_laws : FlashLaws memory (λ f. f.0) (λ f. f.1)
memory_laws = record {
  begin_empties = λ f n h. refl;
  write_appends = λ f d h. refl;
  finish_keeps = λ f. refl;
  select_keeps = λ f. refl;
  begin_selects = λ f n. refl;
  write_selects = λ f d. refl;
  finish_selects = λ f. refl;
  abort_selects = λ f. refl;
  refused_selects = λ f h. cc;
}

abbrev zeros : List ℕ
zeros =
    0 ∷ 0 ∷ 0 ∷ 0 ∷ 0 ∷ 0 ∷ 0 ∷ 0 ∷ 0 ∷ 0 ∷ 0 ∷ 0 ∷ 0 ∷ 0 ∷ 0 ∷ 0 ∷ 0 ∷ 0 ∷ 0 ∷ 0 ∷ 0 ∷ 0 ∷ 0 ∷ 0
    ∷ 0 ∷ 0 ∷ 0 ∷ 0 ∷ 0 ∷ 0 ∷ 0 ∷ []

-- A stand-in for the hash: the length, in the first of 32 bytes.
abbrev checksum : List ℕ → List ℕ
checksum xs = (length xs % 256) ∷ zeros

abbrev sums : CryptoAdapter (List ℕ)
sums = record {
  hash_begin = λ k. ([], true);
  hash_update = λ k d. (k ++ d, true);
  hash_finish = λ k. (k, some (checksum k));
  hash_abort = λ k. k;
  verify_manifest = λ k m. (k, true);
}

sums_laws : CryptoLaws sums (λ k. k) checksum (λ m. Unit {0})
sums_laws = record {
  begin_empties = λ k h. refl;
  update_appends = λ k d h. refl;
  finish_hashes = λ k d e. sym (some-injective (checksum k) d e);
  sha256_bytes = λ xs. omega arith;
  length-sha256 = λ xs. refl;
  verified = λ k m h. tt;
}

sums_succeed : Succeeds memory sums
sums_succeed = record {
  writes = λ f d. refl;
  finishes = λ f. refl;
  selects = λ f. refl;
  hashes = λ k d. refl;
  digest = checksum;
  digests = λ k. refl;
}

abbrev board_name : List ℕ
board_name = b'd' ∷ b'e' ∷ b'c' ∷ b'k' ∷ 0 ∷ []

abbrev options : Options
options = record {
  running_version = v1_2;
  board = board_name;
  protocol_version = 3;
  partition_capacity = 1000;
  inactivity_timeout_ms = 50;
  maximum_duration_ms = 500;
}

abbrev manifest : Manifest
manifest = record {
  version = v1_10;
  board = board_name;
  image_length = 5;
  image_sha256 = 5 ∷ zeros;
  signature = [];
  signing_key_id = 1;
  minimum_protocol_version = 2;
}

abbrev started : Transaction Partition (List ℕ)
started = record {
  options = options;
  flash = ([], false);
  crypto = [];
  manifest = record {
    version = [];
    board = [];
    image_length = 0;
    image_sha256 = [];
    signature = [];
    signing_key_id = 0;
    minimum_protocol_version = 0;
  };
  snapshot = record { state = State.idle; result = ok; received_bytes = 0; image_length = 0 };
  started_ms = 0;
  last_activity_ms = 0;
  flash_open = false;
  hash_open = false;
}

create_started : create options ([], false) [] ≡ some started
unfolding create safe_version safe_board
create_started = refl

abbrev update : List Call
update =
    offers manifest 10 ∷ writes 0 (1 ∷ 2 ∷ 3 ∷ []) false 20 ∷ writes 3 (4 ∷ 5 ∷ []) true 30 ∷ []

update_selects : (run memory sums started update).flash.1 ≡ true
unfolding run offer write strictly_newer safe_version safe_board same_text digest_equal
update_selects = refl

selected_is_Accepted_example : (run memory sums started update).snapshot.state ≡ ready_to_reboot
selected_is_Accepted_example =
    (selected_is_Accepted memory sums (λ f. f.0) (λ f. f.1) (λ k. k) checksum (λ m. Unit {0})
      memory_laws sums_laws options ([], false) [] update {t = started} refl create_started
      (omega arith) update_selects).0

abbrev offered : Transaction Partition (List ℕ)
offered = record started {
  manifest = manifest;
  snapshot = record { state = receiving; result = ok; received_bytes = 0; image_length = 5 };
  started_ms = 10;
  last_activity_ms = 10;
  flash_open = true;
  hash_open = true;
}

offer_started : offer memory sums started manifest 10 ≡ (offered, ok)
unfolding offer strictly_newer safe_version safe_board same_text
offer_started = refl

offered-Inv : Inv (λ f. f.0) (λ f. f.1) (λ k. k) checksum (λ m. Unit {0}) offered
unfolding strictly_newer same_text
offered-Inv = record {
  closed = λ e. cc;
  opened = λ e. (refl, refl);
  incomplete = λ e. (omega arith, refl);
  received = λ e. (refl, refl);
  accepted = λ e. record {
    authentic = tt;
    newer = refl;
    for_board = refl;
    understood = omega arith;
    nonempty = omega arith;
    fits = omega arith;
    digest = (omega arith, refl);
  };
  ready = λ e. cc;
  ready_accepted = λ e. cc;
  bounded = omega arith;
  boots = λ e. cc;
}

-- The second chunk is in time since the first one has started the inactivity time-out again.
deliver_completes_example :
    (deliver memory sums offered 0 (1 ∷ 2 ∷ 3 ∷ []) 55 ((4 ∷ 5 ∷ [], 100) ∷ [])).1 ≡ ok
deliver_completes_example =
    (deliver_completes memory sums (λ f. f.0) (λ f. f.1) (λ k. k) checksum (λ m. Unit {0})
      memory_laws sums_laws sums_succeed offered 0 (1 ∷ 2 ∷ 3 ∷ []) 55 ((4 ∷ 5 ∷ [], 100) ∷ [])
      offered-Inv refl refl (omega arith) (omega arith) refl refl).0
