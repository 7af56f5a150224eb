-- ===== src/Serial/Session/Requests.antt =====
-- Requests for the Web lease: `request_web_at_epoch`, `web_activity` and the expiry of a lease in
-- deck_serial_session.cpp.
use s3_rlcd_deck.Base.{
  ℕ, ◌<◌, ◌≡◌, ◌⊎◌, Bool, true, false, ◌&&◌, some, arith, ltb, leb, saturating_add,
}
use s3_rlcd_deck.Serial.Session.{
  Hardware, Session, CommandResult, applied, no_change, stale_session, stale_request, is_disarmed,
  is_web_tx, expire_web_lease, accept_web_input,
}
use s3_rlcd_deck.Serial.Session.Commands.{request_web_at_epoch, web_activity, tick}
use s3_rlcd_deck.Serial.Session.Invariant.{Inv}

abbrev pub IsGranted : CommandResult → Type 0
IsGranted r = (r.code ≡ applied) ⊎ (r.code ≡ no_change)

-- The request is the first since the memory was cleared, or is newer.
abbrev pub IsFresh : {C : Type 0} → Session C → ℕ → Type 0
IsFresh s id = (s.has_last_request ≡ false) ⊎ (s.last_request_id < id)

module _ {C : Type 0} (hw : Hardware C) where
  -- Where a request was granted, the same request sent again, before its lease runs out, is
  -- answered with the same result and changes nothing, whatever its `enable` bit says.
  pub request_web_at_epoch_twice :
      (s : Session C) (epoch sid id : ℕ) (enable again : Bool) (now later : ℕ) {t : Session C}
      {r : CommandResult}
      → Inv s
      → request_web_at_epoch hw s epoch sid id enable now ≡ (t, some r)
      → IsGranted r
      → (is_web_tx t.state && leb t.lease_deadline_ms later) ≡ false
      → request_web_at_epoch hw t epoch sid id again later ≡ (t, some r)
  unfolding request_web_at_epoch
  request_web_at_epoch_twice s epoch sid id enable again now later v e g d = ground arith

  -- A request is granted only at the current transport epoch and session of an armed port, and
  -- only if it is fresh or repeats the last one.
  pub request_web_at_epoch_sound :
      (s : Session C) (epoch sid id : ℕ) (enable : Bool) (now : ℕ) {t : Session C}
      {r : CommandResult}
      → request_web_at_epoch hw s epoch sid id enable now ≡ (t, some r)
      → IsGranted r
      → (epoch ≡ s.web_transport_epoch)
        × (sid ≡ s.session_id)
        × (is_disarmed s.state ≡ false)
        × (IsFresh s id ⊎ (id ≡ s.last_request_id))
  unfolding request_web_at_epoch
  request_web_at_epoch_sound s epoch sid id enable now e g = ground arith

  -- A request that is answered as stale leaves the session as it was, but for a lease that had
  -- run out.
  pub request_web_at_epoch_refused :
      (s : Session C) (epoch sid id : ℕ) (enable : Bool) (now : ℕ) {t : Session C}
      {r : CommandResult}
      → request_web_at_epoch hw s epoch sid id enable now ≡ (t, some r)
      → (r.code ≡ stale_session) ⊎ (r.code ≡ stale_request)
      → (t ≡ s) ⊎ (t ≡ expire_web_lease hw s now)
  unfolding request_web_at_epoch
  request_web_at_epoch_refused s epoch sid id enable now e g = ground arith

  -- A fresh request that enables the Web at the current epoch and session of an armed port is
  -- granted: web input under its id is accepted after a tick at any later time before
  -- `now + timeout`, and refused from then on.
  pub request_web_at_epoch_term :
      (s : Session C) (id now later : ℕ)
      → Inv s
      → is_disarmed s.state ≡ false
      → IsFresh s id
      → 0 < id
      → let t = (request_web_at_epoch hw s s.web_transport_epoch s.session_id id true now).0 in
        accept_web_input (tick hw t later) s.session_id id
        ≡ ltb later (saturating_add now s.lease_timeout_ms)
  unfolding request_web_at_epoch accept_web_input tick
  request_web_at_epoch_term s id now later v armed fresh pos = ground arith

  -- Web activity that is accepted puts off the end of the lease to `now + timeout`; activity that
  -- is refused finds no such lease, or one that has run out.
  pub web_activity_term :
      (s : Session C) (sid lid now later : ℕ)
      → Inv s
      → let (t, accepted) = web_activity hw s sid lid now in
        (accepted ≡ accept_web_input (expire_web_lease hw s now) sid lid)
        × (accept_web_input (tick hw t later) sid lid
            ≡ (accepted && ltb later (saturating_add now s.lease_timeout_ms)))
  unfolding web_activity accept_web_input tick
  web_activity_term s sid lid now later v = ground arith
