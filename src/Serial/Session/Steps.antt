-- ===== src/Serial/Session/Steps.antt =====
-- Histories of the serial session: the calls that its one owner task makes, in sequence
-- (deck_serial_session.cpp).
use s3_rlcd_deck.Base.{ℕ, ◌^◌, ◌<◌, ◌≡◌, Bool, List, [], ◌∷◌, some}
use s3_rlcd_deck.Serial.Session.{
  Hardware, Session, create, accept_usb_input_generation, record_usb_rejection,
}
use s3_rlcd_deck.Serial.Session.Commands.{
  enter, exit, request_web_at_epoch, revoke_web_transport, web_activity, web_disconnect, tick,
}
use s3_rlcd_deck.Serial.Session.Invariant.{
  Inv, create-Inv, enter-Inv, exit-Inv, request_web_at_epoch-Inv, revoke_web_transport-Inv,
  web_activity-Inv, web_disconnect-Inv, expire_web_lease-Inv, accept_usb_input_generation-Inv,
  record_usb_rejection-Inv,
}

pub data Command : Type 0 where
  enters : (epoch : ℕ) → Command
  exits : (epoch : ℕ) → Command
  requests : (epoch session_id request_id : ℕ) → Bool → (now : ℕ) → Command
  revokes : (epoch : ℕ) → Command
  is_active : (session_id lease_id now : ℕ) → Command
  disconnects : (session_id lease_id : ℕ) → Command
  usb_input : (generation byte_count : ℕ) → Command
  usb_rejection : (byte_count : ℕ) → Command
  ticks : (now : ℕ) → Command

-- The byte counts of a command are 64-bit.
abbrev pub Fits : Command → Type 0
Fits (usb_input generation byte_count) = byte_count < 2 ^ 64
Fits (usb_rejection byte_count) = byte_count < 2 ^ 64
Fits _ = Unit {0}

abbrev pub AllFit : List Command → Type 0
AllFit [] = Unit {0}
AllFit (c ∷ cs) = Fits c × AllFit cs

module _ {C : Type 0} (hw : Hardware C) where
  unfoldable pub step : Session C → Command → Session C
  step s (enters epoch) = (enter hw s epoch).0
  step s (exits epoch) = (exit hw s epoch).0
  step s (requests epoch sid id enable now) = (request_web_at_epoch hw s epoch sid id enable now).0
  step s (revokes epoch) = (revoke_web_transport hw s epoch).0
  step s (is_active sid lid now) = (web_activity hw s sid lid now).0
  step s (disconnects sid lid) = (web_disconnect hw s sid lid).0
  step s (usb_input generation n) = (accept_usb_input_generation s generation n).0
  step s (usb_rejection n) = (record_usb_rejection s n).0
  step s (ticks now) = tick hw s now

  unfoldable pub run : Session C → List Command → Session C
  unfolding step
  run s [] = s
  run s (c ∷ cs) = run (step s c) cs

  pub step-Inv : (s : Session C) (c : Command) → Fits c → Inv s → Inv (step s c)
  unfolding step tick
  step-Inv s (enters epoch) h v = enter-Inv hw s epoch v
  step-Inv s (exits epoch) h v = exit-Inv hw s epoch v
  step-Inv s (requests epoch sid id enable now) h v =
      request_web_at_epoch-Inv hw s epoch sid id enable now v
  step-Inv s (revokes epoch) h v = revoke_web_transport-Inv hw s epoch v
  step-Inv s (is_active sid lid now) h v = web_activity-Inv hw s sid lid now v
  step-Inv s (disconnects sid lid) h v = web_disconnect-Inv hw s sid lid v
  step-Inv s (usb_input generation n) h v = accept_usb_input_generation-Inv s generation n h v
  step-Inv s (usb_rejection n) h v = record_usb_rejection-Inv s n h v
  step-Inv s (ticks now) h v = expire_web_lease-Inv hw s now v

  pub run-Inv : (s : Session C) (cs : List Command) → AllFit cs → Inv s → Inv (run s cs)
  unfolding run
  run-Inv s [] h v = v
  run-Inv s (c ∷ cs) h v = run-Inv (step s c) cs h.1 (step-Inv s c h.0 v)

  -- Whatever the adapter answers, every session that a created one reaches by calls with 64-bit
  -- byte counts satisfies the invariant: a lease exists exactly in WEB_TX and is the last request,
  -- an armed session has its driver installed and nonzero ids, and every counter fits its width.
  pub run-create-Inv :
      (c : C) (timeout : ℕ) (cs : List Command) {s : Session C}
      → create hw c timeout ≡ some s
      → AllFit cs
      → Inv (run s cs)
  run-create-Inv c timeout cs {s} h fit = run-Inv s cs fit (create-Inv hw c timeout h)
