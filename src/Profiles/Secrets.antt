-- ===== src/Profiles/Secrets.antt =====
-- What deck_companion_profiles.cpp tells of the stored set: the snapshot, and the secrets of a profile.
use s3_rlcd_deck.Base.{
  ℕ, Bool, not, ◌&&◌, ◌||◌, Option, none, some, List, [], ◌∷◌, ltb, ◌==◌, ◌!=◌, if◌then◌else◌,
  length, get_elem?,
}
use s3_rlcd_deck.Base.Int.{ℤ}
use s3_rlcd_deck.Storage.Store
use s3_rlcd_deck.Storage.Store.{Store}
use s3_rlcd_deck.Profiles.Text.{
  valid_profile_id_argument, profile_id_capacity, display_name_capacity, hub_address_capacity,
  token_capacity, fingerprint_capacity,
}
use s3_rlcd_deck.Profiles.Codec.{StoredProfile, StoredSet}
use s3_rlcd_deck.Profiles.Sets.{protocol_version, find_profile}
use s3_rlcd_deck.Profiles.Calls.{load_set}

pub data RecordStatus : Type 0 where
  empty valid recovered_previous corrupt unsupported_schema migration_failed io_error : RecordStatus

abbrev pub map_status : Store.RecordStatus → RecordStatus
map_status Store.RecordStatus.valid = valid
map_status Store.RecordStatus.recovered_previous = recovered_previous
map_status Store.RecordStatus.corrupt = corrupt
map_status Store.RecordStatus.unsupported_schema = unsupported_schema
map_status Store.RecordStatus.migration_failed = migration_failed
map_status Store.RecordStatus.io_error = io_error
map_status Store.RecordStatus.empty = empty

pub record ProfileView : Type 0 where
  pub version : ℕ
  pub profile_id : List ℕ
  pub display_name : List ℕ
  pub hub_address : List ℕ
  pub certificate_fingerprint : List ℕ
  pub priority : ℤ
  pub last_success_unix_ms : ℕ

pub record ProfileSecret : Type 0 where
  pub profile_id : List ℕ
  pub hub_address : List ℕ
  pub token : List ℕ
  pub certificate_fingerprint : List ℕ
  pub certificate_der : List ℕ
  pub protocol : ℕ

-- The views are as many as `count`.
pub record Snapshot : Type 0 where
  pub record_status : RecordStatus
  pub candidate_record_status : RecordStatus
  pub storage_faulted : Bool
  pub has_active : Bool
  pub generation : ℕ
  pub active_profile_id : List ℕ
  pub profiles : List ProfileView

-- `copy_string` succeeds.
abbrev pub fits : List ℕ → ℕ → Bool
fits text capacity = ltb (length text) capacity

unfoldable pub copy_secret : StoredProfile → Option ProfileSecret
copy_secret profile =
    if fits profile.profile_id profile_id_capacity
      && fits profile.hub_address hub_address_capacity
      && fits profile.token token_capacity
      && fits profile.certificate_fingerprint fingerprint_capacity
    then some (record {
      profile_id = profile.profile_id;
      hub_address = profile.hub_address;
      token = profile.token;
      certificate_fingerprint = profile.certificate_fingerprint;
      certificate_der = profile.certificate_der;
      protocol = protocol_version;
    })
    else none

unfoldable pub view_of : StoredProfile → Option ProfileView
view_of profile =
    if fits profile.profile_id profile_id_capacity
      && fits profile.display_name display_name_capacity
      && fits profile.hub_address hub_address_capacity
      && fits profile.certificate_fingerprint fingerprint_capacity
    then some (record {
      version = profile.version;
      profile_id = profile.profile_id;
      display_name = profile.display_name;
      hub_address = profile.hub_address;
      certificate_fingerprint = profile.certificate_fingerprint;
      priority = profile.priority;
      last_success_unix_ms = profile.last_success_unix_ms;
    })
    else none

abbrev pub more_views : Option ProfileView → Option (List ProfileView) → Option (List ProfileView)
more_views (some view) (some views) = some (view ∷ views)
more_views _ _ = none

unfoldable pub views_of : List StoredProfile → Option (List ProfileView)
unfolding view_of
views_of [] = some []
views_of (p ∷ profiles) = more_views (view_of p) (views_of profiles)

-- The identifier of the active profile, which is empty where there is none. A set that was loaded has
-- its active profile among the others.
abbrev pub id_at : Option StoredProfile → Option (List ℕ)
id_at none = none
id_at (some profile) =
    if fits profile.profile_id profile_id_capacity then some profile.profile_id else none

unfoldable pub active_id : StoredSet → Option (List ℕ)
active_id set =
    if length set.profiles != 0 then id_at (get_elem? set.profiles set.active_index) else some []

abbrev pub secret_at : List StoredProfile → Option ℕ → Option ProfileSecret
secret_at profiles none = none
secret_at profiles (some index) = elim (get_elem? profiles index) [
  | none ↦ none
  | some profile ↦ copy_secret profile
]

module _ {S : Type 0} where
  abbrev pub snapshot_with :
      Store S → StoredSet → Option (List ProfileView) → Option (List ℕ) → Option Snapshot
  snapshot_with st set (some views) (some id) =
      let stored = Store.Commit.snapshot st in
      some (record {
        record_status = map_status stored.record_status;
        candidate_record_status = map_status stored.candidate_record_status;
        storage_faulted = stored.storage_faulted;
        has_active = length set.profiles != 0;
        generation = if stored.has_active then stored.active.generation else 0;
        active_profile_id = id;
        profiles = views;
      })
  snapshot_with st set _ _ = none

  unfoldable pub snapshot : Store S → Option Snapshot
  unfolding views_of active_id Store.Commit.snapshot
  snapshot st = elim (load_set st) [
    | none ↦ none
    | some set ↦ snapshot_with st set (views_of set.profiles) (active_id set)
  ]

  unfoldable pub active_secret : Store S → Option ProfileSecret
  unfolding copy_secret
  active_secret st = elim (load_set st) [
    | none ↦ none
    | some set ↦
        if length set.profiles == 0 then none else secret_at set.profiles (some set.active_index)
  ]

  unfoldable pub secret_for : Store S → List ℕ → ℕ → Option ProfileSecret
  unfolding copy_secret Store.Commit.snapshot
  secret_for st profile_id expected_generation =
      let stored = Store.Commit.snapshot st in
      if not (valid_profile_id_argument profile_id) then none else elim (load_set st) [
        | none ↦ none
        | some set ↦
            if not stored.has_active || stored.active.generation != expected_generation
            then none
            else secret_at set.profiles (find_profile set.profiles profile_id)
      ]
