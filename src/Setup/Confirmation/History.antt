-- ===== src/Setup/Confirmation/History.antt =====
-- Sequences of calls of deck_setup_confirmation.cpp: what is confirmed, and how often.
use mathlib.Core.Path.{subst}
use s3_rlcd_deck.Base.{
  ◌∙◌, refl, ◌==◌, take, Option-cases, ℕ, ◌+◌, ◌≤◌, ◌≡◌, ◌↔◌, ap, inl, inr, Bool, true, false,
  Option, none, some, List, [], ◌∷◌, ◌++◌, if◌then◌else◌, arith, Bool-cases,
}
use s3_rlcd_deck.Ota.Digest.{AllBytes}
use s3_rlcd_deck.Setup.Confirmation.{
  Options, Confirmation, ConfirmationResult, confirmed, expired, issued_with, tokens_equal, create,
  issue, consume,
}
use s3_rlcd_deck.Setup.Confirmation.Laws.{
  IsTextOf, token_tests_pass, token_tests_sound, RandomLaw, key_of, Inv, create-Inv, issue-Inv,
  consume-Inv,
}

pub data Call : Type 0 where
  issues : ℕ → ℕ → Call
  consumes : ℕ → Option (List ℕ) → ℕ → Call

abbrev pub is_confirmed : ConfirmationResult → Bool
is_confirmed confirmed = true
is_confirmed _ = false

abbrev pub is_granted : Option (List ℕ) → Bool
is_granted none = false
is_granted (some token) = true

-- A token that was given out: to which session, when, and its text.
pub record Grant : Type 0 where
  pub session_id : ℕ
  pub issued_at_ms : ℕ
  pub token : List ℕ

abbrev pub grant_of : ℕ → ℕ → Option (List ℕ) → Option Grant
grant_of session_id now_ms none = none
grant_of session_id now_ms (some token) =
    some (record { session_id = session_id; issued_at_ms = now_ms; token = token })

-- What an answer of `issue` makes of the token in force: without a session nothing is tried, and a
-- failure ends it.
abbrev pub granted : ℕ → ℕ → Option (List ℕ) → Option Grant → Option Grant
granted session_id now_ms answer g =
    if session_id == 0 then g else grant_of session_id now_ms answer

-- What an answer of `consume` leaves of it: a confirmation or an expiry ends it.
abbrev pub left_by : ConfirmationResult → Option Grant → Option Grant
left_by confirmed g = none
left_by expired g = none
left_by _ g = g

-- What a text must be to confirm.
abbrev pub Confirms : ℕ → Option Grant → ℕ → List ℕ → ℕ → Type 0
Confirms lifetime_ms none session_id text now_ms = ⊥
Confirms lifetime_ms (some g) session_id text now_ms =
    (g.issued_at_ms ≤ now_ms)
    × (now_ms ≤ g.issued_at_ms + lifetime_ms)
    × (session_id ≡ g.session_id)
    × IsTextOf (take 16 g.token) text

module _ {C : Type 0} where
  unfoldable pub step : Confirmation C → Call → Confirmation C
  step c (issues session_id now_ms) = (issue c session_id now_ms).0
  step c (consumes session_id token now_ms) = (consume c session_id token now_ms).0

  unfoldable pub run : Confirmation C → List Call → Confirmation C
  unfolding step
  run c [] = c
  run c (call ∷ calls) = run (step c call) calls

  step-Inv : (c : Confirmation C) (call : Call) → Inv c → Inv (step c call)
  unfolding step
  step-Inv c (issues session_id now_ms) i = issue-Inv c session_id now_ms i
  step-Inv c (consumes session_id token now_ms) i = consume-Inv c session_id token now_ms i

  run-Inv : (c : Confirmation C) (calls : List Call) → Inv c → Inv (run c calls)
  unfolding run
  run-Inv c [] i = i
  run-Inv c (call ∷ calls) i = run-Inv (step c call) calls (step-Inv c call i)

  consume-Confirms :
      (c : Confirmation C) (session_id now_ms : ℕ) (text : List ℕ)
      → Inv c
      → AllBytes text
      → ((consume c session_id (some text) now_ms).1 ≡ confirmed) ↔ (
          (c.issued ≡ true)
          × Confirms c.options.lifetime_ms
              (some (record {
                session_id = c.session_id;
                issued_at_ms = c.issued_at_ms;
                token = c.token;
              }))
              session_id
              text
              now_ms)
  unfolding consume
  consume-Confirms c session_id now_ms text i bytes = elim (Bool-cases c.issued) [
    | inr off ↦ ground arith
    | inl on ↦
        let key = key_of c in
        let pass = token_tests_pass key text (i.key_size on) (i.key_ok on) bytes in
        let sound = token_tests_sound key text (i.key_size on) (i.key_ok on) bytes in
        let moved : tokens_equal text c.token ≡ tokens_equal text (key ++ (0 ∷ [])) =
          ap (λ k. tokens_equal text k) (i.token_is on) in
        ground (arith, pass, sound, moved)
  ]

  -- The token in force after some calls, as their callers know it from the answers.
  unfoldable pub in_force : Confirmation C → Option Grant → List Call → Option Grant
  in_force c g [] = g
  in_force c g (issues session_id now_ms ∷ calls) =
      let (d, answer) = issue c session_id now_ms in
      in_force d (granted session_id now_ms answer g) calls
  in_force c g (consumes session_id token now_ms ∷ calls) =
      let (d, result) = consume c session_id token now_ms in in_force d (left_by result g) calls

  -- The state holds the token that its callers know of.
  abbrev Holds : Confirmation C → Option Grant → Type 0
  Holds c none = c.issued ≡ false
  Holds c (some g) =
      (c.issued ≡ true)
      × (c.session_id ≡ g.session_id)
      × (c.issued_at_ms ≡ g.issued_at_ms)
      × (c.token ≡ g.token)

  issued_with-Holds :
      (c : Confirmation C) (session_id now_ms : ℕ) (bytes : Option (List ℕ))
      → let (d, answer) = issued_with c session_id now_ms bytes in
        Holds d (grant_of session_id now_ms answer) × (d.options ≡ c.options)
  issued_with-Holds c session_id now_ms none = (refl, refl)
  issued_with-Holds c session_id now_ms (some bytes) = ((refl, refl, refl, refl), refl)

  issue-Holds :
      (c : Confirmation C) (session_id now_ms : ℕ) (g : Option Grant)
      → Holds c g
      → let (d, answer) = issue c session_id now_ms in
        Holds d (granted session_id now_ms answer g) × (d.options ≡ c.options)
  unfolding issue
  issue-Holds c session_id now_ms g h =
      let (context, bytes) = c.options.random c.context 8 in
      elim (Bool-cases (session_id == 0)) [
        | inl wrong ↦ rw wrong (h, refl)
        | inr right ↦
            rw right (issued_with-Holds (record c { context = context }) session_id now_ms bytes)
      ]

  consume-Holds :
      (c : Confirmation C) (session_id : ℕ) (token : Option (List ℕ)) (now_ms : ℕ)
      (g : Option Grant)
      → Holds c g
      → let (d, result) = consume c session_id token now_ms in
        Holds d (left_by result g) × (d.options ≡ c.options)
  unfolding consume
  consume-Holds c session_id token now_ms none h = ground (arith, h)
  consume-Holds c session_id token now_ms (some g) h = ground (arith, h)

  run-Holds :
      (c : Confirmation C) (g : Option Grant) (calls : List Call)
      → Holds c g
      → Holds (run c calls) (in_force c g calls) × ((run c calls).options ≡ c.options)
  unfolding run step in_force
  run-Holds c g [] h = (h, refl)
  run-Holds c g (issues session_id now_ms ∷ calls) h =
      let (d, answer) = issue c session_id now_ms in
      let (held, same) = issue-Holds c session_id now_ms g h in
      let (later, kept) = run-Holds d (granted session_id now_ms answer g) calls held in
      (later, kept ∙ same)
  run-Holds c g (consumes session_id token now_ms ∷ calls) h =
      let (d, result) = consume c session_id token now_ms in
      let (held, same) = consume-Holds c session_id token now_ms g h in
      let (later, kept) = run-Holds d (left_by result g) calls held in (later, kept ∙ same)

  -- The confirmations of a sequence of calls, and the tokens that it gives out.
  unfoldable pub confirmations : Confirmation C → List Call → ℕ
  confirmations c [] = 0
  confirmations c (issues session_id now_ms ∷ calls) =
      confirmations (issue c session_id now_ms).0 calls
  confirmations c (consumes session_id token now_ms ∷ calls) =
      let (d, result) = consume c session_id token now_ms in
      let rest = confirmations d calls in if is_confirmed result then rest + 1 else rest

  unfoldable pub grants : Confirmation C → List Call → ℕ
  grants c [] = 0
  grants c (issues session_id now_ms ∷ calls) =
      let (d, token) = issue c session_id now_ms in
      let rest = grants d calls in if is_granted token then rest + 1 else rest
  grants c (consumes session_id token now_ms ∷ calls) =
      grants (consume c session_id token now_ms).0 calls

  abbrev pending : Confirmation C → ℕ
  pending c = if c.issued then 1 else 0

  issue-pending :
      (c : Confirmation C) (session_id now_ms : ℕ)
      → let (d, token) = issue c session_id now_ms in
        pending d ≤ pending c + (if is_granted token then 1 else 0)
  unfolding issue
  issue-pending c session_id now_ms = ground arith

  consume-pending :
      (c : Confirmation C) (session_id : ℕ) (token : Option (List ℕ)) (now_ms : ℕ)
      → let (d, result) = consume c session_id token now_ms in
        pending d + (if is_confirmed result then 1 else 0) ≤ pending c
  unfolding consume
  consume-pending c session_id token now_ms = ground arith

  confirmations-pending :
      (c : Confirmation C) (calls : List Call) → confirmations c calls ≤ grants c calls + pending c
  unfolding confirmations grants
  confirmations-pending c [] = omega arith
  confirmations-pending c (issues session_id now_ms ∷ calls) =
      let d = (issue c session_id now_ms).0 in
      ground (arith, issue-pending c session_id now_ms, confirmations-pending d calls)
  confirmations-pending c (consumes session_id token now_ms ∷ calls) =
      let d = (consume c session_id token now_ms).0 in
      ground (arith, consume-pending c session_id token now_ms, confirmations-pending d calls)

  -- With a random adapter that gives the bytes it is asked for, and after any calls on a new
  -- confirmation, a text confirms exactly where a token was given out that no later answer of the
  -- calls has ended, the session is the one that it was given to, the time is within the lifetime
  -- from when it was given, and the text is its 16 digits and nothing more.
  pub consume-run-Confirms :
      (context : C) (options : Options C) (d : Confirmation C) (calls : List Call)
      (session_id now_ms : ℕ) (text : List ℕ)
      → RandomLaw options
      → create context options ≡ some d
      → AllBytes text
      → ((consume (run d calls) session_id (some text) now_ms).1 ≡ confirmed)
        ↔ Confirms options.lifetime_ms (in_force d none calls) session_id text now_ms
  unfolding create
  consume-run-Confirms context options d calls session_id now_ms text law new bytes =
      let (i, off) = create-Inv context options d law new in
      let c = run d calls in
      let confirms = consume-Confirms c session_id now_ms text (run-Inv d calls i) bytes in
      let (held, same) = run-Holds d none calls off in
      let lifetime : c.options.lifetime_ms ≡ options.lifetime_ms =
        ap (λ o. o.lifetime_ms) same ∙ ground arith in
      elim (Option-cases (in_force d none calls)) [
        | inl e ↦
            let gone : c.issued ≡ false = subst (λ g. Holds c g) e held in
            rw e (λ yes. cc (gone, (confirms.0 yes).0), λ no. absurd no)
        | inr (g, e) ↦
            let is : Holds c (some g) = subst (λ x. Holds c x) e held in
            rw (e, ← lifetime, ← is.1, ← is.2, ← is.3)
              (λ yes. (confirms.0 yes).1, λ ok. confirms.1 (is.0, ok))
      ]

  -- Over any calls on a new confirmation, no more is confirmed than tokens were given out: a token
  -- confirms once.
  pub confirmations-create :
      (context : C) (options : Options C) (d : Confirmation C) (calls : List Call)
      → create context options ≡ some d
      → confirmations d calls ≤ grants d calls
  unfolding create
  confirmations-create context options d calls new =
      let off : d.issued ≡ false = ground arith in
      ground (arith, confirmations-pending d calls, off)
