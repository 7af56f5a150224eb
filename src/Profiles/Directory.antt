-- ===== src/Profiles/Directory.antt =====
-- The sets of a pairing and of an activation in deck_companion_profiles.cpp, as directories.
use s3_rlcd_deck.Base.{
  ℕ, ◌+◌, ◌-◌, ltb, ◌≡◌, ◌∙◌, inl, inr, ap, refl, Option, none, some, List, get_or, same_text,
  if◌then◌else◌, arith, Bool-cases, Option-cases,
}
use s3_rlcd_deck.Profiles.Text.{c_text}
use s3_rlcd_deck.Profiles.Codec.{StoredProfile, StoredSet}
use s3_rlcd_deck.Profiles.Sets.{
  Credential, PairRequest, find_profile, newer, activated_set, paired_profile, array_prefix,
  paired_set, blank_profile,
}
use s3_rlcd_deck.Profiles.Lookup.{
  profile_of, find_profile-IsAt, find_profile-none, profile_of-set_elem, profile_of-append,
}
use s3_rlcd_deck.Profiles.Revocation.{
  active_of, id_of, get_elem?-set_elem, get_elem?-append, get_or-length,
}

-- The profile's last success is the later one of both times.
abbrev pub latest : ℕ → StoredProfile → StoredProfile
latest unix_ms p = record p {
  last_success_unix_ms = p.last_success_unix_ms + (unix_ms - p.last_success_unix_ms);
}

pub newer-latest : (unix_ms : ℕ) (p : StoredProfile) → newer unix_ms p ≡ latest unix_ms p
newer-latest unix_ms p =
    let e = λ (n : ℕ) (h : n ≡ p.last_success_unix_ms + (unix_ms - p.last_success_unix_ms)).
      ap (λ (m : ℕ). record p { last_success_unix_ms = m }) h in
    elim (Bool-cases (ltb p.last_success_unix_ms unix_ms)) [
      | inl later ↦ rw later (e unix_ms (ground arith))
      | inr earlier ↦ rw earlier (e p.last_success_unix_ms (ground arith))
    ]

-- What was known of an identifier before it was paired.
abbrev pub previous_of : Option StoredProfile → StoredProfile
previous_of none = blank_profile
previous_of (some p) = p

-- The profile that a pairing makes of the previous one, whose priority and last success it keeps.
abbrev pub renewed : StoredProfile → PairRequest → Credential → StoredProfile
renewed previous request credential = record previous {
  version = 1;
  profile_id = c_text credential.certificate_fingerprint;
  display_name = c_text request.hub_address;
  hub_address = c_text request.hub_address;
  token = c_text credential.token;
  certificate_fingerprint = c_text credential.certificate_fingerprint;
  certificate_der = array_prefix credential.certificate_der_size credential.certificate_der;
}

-- The set of a pairing, as a directory.
pub paired_set-lookup :
    (old : StoredSet) (request : PairRequest) (credential : Credential) (j : List ℕ)
    → let fingerprint = c_text credential.certificate_fingerprint in
      let new = paired_set old (find_profile old.profiles fingerprint) request credential in
      let previous = previous_of (profile_of old.profiles fingerprint) in
      (active_of new ≡ some fingerprint)
      × (profile_of new.profiles j ≡ (
          if same_text fingerprint j
          then some (renewed previous request credential)
          else profile_of old.profiles j))
unfolding paired_set active_of paired_profile
paired_set-lookup old request credential j =
    let fingerprint = c_text credential.certificate_fingerprint in
    let ps = old.profiles in
    elim (Option-cases (find_profile ps fingerprint)) [
      | inl e ↦
          let q = paired_profile blank_profile request credential in
          let fresh = find_profile-none ps fingerprint e in
          rw (e, fresh, get_or-length ps)
            (ap (λ o. id_of o) (get_elem?-append ps q), profile_of-append ps j q e)
      | inr (k, e) ↦
          let i = find_profile-IsAt ps fingerprint k e in
          let q = paired_profile (get_or ps k blank_profile) request credential in
          rw (e, i.at)
            (
              ap (λ o. id_of o) (get_elem?-set_elem ps k q i.bound),
              profile_of-set_elem ps fingerprint j k q e refl,
            )
    ]

pub activated_set-lookup :
    (old : StoredSet) (id j : List ℕ) (k unix_ms : ℕ)
    → find_profile old.profiles id ≡ some k
    → let new = activated_set old k unix_ms in
      let p = previous_of (profile_of old.profiles id) in
      (active_of new ≡ some id)
      × (profile_of new.profiles j
          ≡ (if same_text id j then some (latest unix_ms p) else profile_of old.profiles j))
unfolding activated_set active_of
activated_set-lookup old id j k unix_ms e =
    let i = find_profile-IsAt old.profiles id k e in
    let p = get_or old.profiles k blank_profile in
    let q = newer unix_ms p in
    let is = newer-latest unix_ms p in
    let mine : q.profile_id ≡ id = ap (λ x. x.profile_id) is ∙ i.has in
    let found = profile_of-set_elem old.profiles id j k q e mine in
    rw (i.at, ← is)
      (
        ap (λ o. id_of o) (get_elem?-set_elem old.profiles k q i.bound) ∙ ap (λ x. some x) mine,
        found,
      )
