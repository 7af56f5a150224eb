-- ===== src/Serial/Session/Safety.antt =====
-- What the fences of deck_serial_session.cpp keep out: the transmit line while disarmed, and
-- commands of an old control or transport epoch.
use s3_rlcd_deck.Base.{
  ℕ, ◌≤◌, ◌<◌, ◌≡◌, ◌≢◌, ◌⊎◌, Bool, true, false, List, [], ◌∷◌, none, some, arith,
  increment_nonzero, increment_nonzero_pos, increment_nonzero-ne,
}
use s3_rlcd_deck.Serial.Session.{
  Hardware, Session, disarmed, usb_tx, applied, stale_request, create, destroy, disarm, fill_result,
  accept_usb_input_generation, record_usb_rejection,
}
use s3_rlcd_deck.Serial.Session.Commands.{
  install, enter, exit, request_web_at_epoch, revoke_web_transport, web_activity, web_disconnect,
  tick,
}
use s3_rlcd_deck.Serial.Session.Invariant.{Inv}
use s3_rlcd_deck.Serial.Session.Steps.{
  Command, enters, exits, requests, revokes, is_active, disconnects, usb_input, usb_rejection,
  ticks, step, run,
}

-- The epochs of a session only grow.
abbrev pub Later : {C : Type 0} → Session C → Session C → Type 0
Later s t = (s.control_epoch ≤ t.control_epoch) × (s.web_transport_epoch ≤ t.web_transport_epoch)

module _ {C : Type 0} (hw : Hardware C) where
  step-Later : (s : Session C) (c : Command) → Later s (step hw s c)
  unfolding step enter exit request_web_at_epoch revoke_web_transport web_activity web_disconnect
      tick accept_usb_input_generation record_usb_rejection
  step-Later s (enters epoch) = ground arith
  step-Later s (exits epoch) = ground arith
  step-Later s (requests epoch sid id enable now) = ground arith
  step-Later s (revokes epoch) = ground arith
  step-Later s (is_active sid lid now) = ground arith
  step-Later s (disconnects sid lid) = ground arith
  step-Later s (usb_input generation n) = ground arith
  step-Later s (usb_rejection n) = ground arith
  step-Later s (ticks now) = ground arith

  run-Later : (s : Session C) (cs : List Command) → Later s (run hw s cs)
  unfolding run
  run-Later s [] = omega arith
  run-Later s (c ∷ cs) = omega (arith, step-Later s c, run-Later (step hw s c) cs)

  -- Where the adapter installs and removes the driver when asked, `enter` at the current control
  -- epoch opens a disarmed session for USB under a new session id and owner generation, also after
  -- an earlier failure that left the driver installed, and it takes USB bytes of that generation.
  pub enter_opens :
      (s : Session C) (n : ℕ)
      → Inv s
      → s.state ≡ disarmed
      → ((c : C) → (hw.uninstall_uart c).1 ≡ true)
      → ((c : C) (id : ℕ) → (hw.install_uart c id).1 ≡ true)
      → let (t, r) = enter hw s s.control_epoch in
        (r.code ≡ applied)
        × (t.state ≡ usb_tx)
        × (t.session_id ≢ s.session_id)
        × (t.owner_generation ≢ s.owner_generation)
        × (accept_usb_input_generation t t.owner_generation n ≡ (t, true))
  unfolding enter install accept_usb_input_generation
  enter_opens s n v e removes installs = ground (
    arith,
    removes s.context,
    installs s.context (increment_nonzero s.session_id),
    installs (hw.uninstall_uart s.context).0 (increment_nonzero s.session_id),
    increment_nonzero-ne s.session_id,
    increment_nonzero-ne s.owner_generation,
    increment_nonzero_pos s.owner_generation,
  )

  -- An exit at the current control epoch or a later one always disarms the port, also where the
  -- driver could not be removed; and no command that follows lets an `enter` with an earlier epoch
  -- through: it is answered as stale and changes nothing.
  pub exit-fences-enter :
      (s : Session C) (epoch old : ℕ) (cs : List Command)
      → s.control_epoch ≤ epoch
      → old < epoch
      → let t = (exit hw s epoch).0 in
        let u = run hw t cs in
        (t.state ≡ disarmed) × (enter hw u old ≡ (u, fill_result u stale_request 0))
  unfolding exit enter
  exit-fences-enter s epoch old cs h h' = ground (arith, run-Later (exit hw s epoch).0 cs)

  -- Once the Web transport of an epoch is revoked in favour of a later one, no request of an
  -- earlier epoch is granted again, whatever follows: it is stale and changes nothing.
  pub revoke_web_transport-fences-request :
      (s : Session C) (epoch old sid id : ℕ) (enable : Bool) (now : ℕ) (cs : List Command)
      → s.web_transport_epoch ≤ epoch
      → old < epoch
      → 0 < id
      → let u = run hw (revoke_web_transport hw s epoch).0 cs in
        request_web_at_epoch hw u old sid id enable now ≡ (u, some (fill_result u stale_request id))
  unfolding revoke_web_transport request_web_at_epoch
  revoke_web_transport-fences-request s epoch old sid id enable now cs h h' pos =
      ground (arith, run-Later (revoke_web_transport hw s epoch).0 cs)

-- The transmit line as the board sees it: the adapter's high-impedance call releases it, and
-- dropping the bytes that wait for the Web does not drive it.
module _ {C : Type 0} (hw : Hardware C) (driven : C → Bool)
    (released : (c : C) → driven (hw.set_tx_high_impedance c) ≡ false)
    (kept : (c : C) → driven c ≡ false → driven (hw.clear_web_tx c) ≡ false) where
  abbrev Quiet : Session C → Type 0
  Quiet s = s.state ≡ disarmed → driven s.context ≡ false

  install-Quiet : (s : Session C) → Quiet (install hw s).0
  unfolding install
  install-Quiet s =
      let c = (hw.install_uart s.context (increment_nonzero s.session_id)).0 in
      let d = (hw.uninstall_uart (hw.clear_web_tx (hw.clear_usb_tx c))).0 in
      ground (arith, released d)

  disarm-Quiet : (s : Session C) → Quiet (disarm hw s).0
  unfolding disarm
  disarm-Quiet s =
      let c = hw.clear_web_tx (hw.clear_usb_tx s.context) in
      ground (arith, released c, released (hw.uninstall_uart c).0)

  enter-Quiet : (s : Session C) (epoch : ℕ) → Quiet s → Quiet (enter hw s epoch).0
  unfolding enter
  enter-Quiet s epoch q =
      let c = (hw.uninstall_uart s.context).0 in
      ground (
        arith,
        released c,
        install-Quiet s,
        install-Quiet (record s { context = c; uart_installed = false }),
      )

  exit-Quiet : (s : Session C) (epoch : ℕ) → Quiet s → Quiet (exit hw s epoch).0
  unfolding exit
  exit-Quiet s epoch q = ground (arith, disarm-Quiet (record s { control_epoch = epoch }))

  step-Quiet : (s : Session C) (c : Command) → Quiet s → Quiet (step hw s c)
  unfolding step request_web_at_epoch revoke_web_transport web_activity web_disconnect tick
      accept_usb_input_generation record_usb_rejection
  step-Quiet s (enters epoch) q = enter-Quiet s epoch q
  step-Quiet s (exits epoch) q = exit-Quiet s epoch q
  step-Quiet s (requests epoch sid id enable now) q = ground arith
  step-Quiet s (revokes epoch) q = ground (arith, kept s.context)
  step-Quiet s (is_active sid lid now) q = ground arith
  step-Quiet s (disconnects sid lid) q = ground arith
  step-Quiet s (usb_input generation n) q = ground arith
  step-Quiet s (usb_rejection n) q = ground arith
  step-Quiet s (ticks now) q = ground arith

  run-Quiet : (s : Session C) (cs : List Command) → Quiet s → Quiet (run hw s cs)
  unfolding run
  run-Quiet s [] q = q
  run-Quiet s (c ∷ cs) q = run-Quiet (step hw s c) cs (step-Quiet s c q)

  -- Destroying a session releases the line in every case. It keeps the session for another try
  -- exactly where the driver was installed and the adapter fails to remove it; that session is
  -- disarmed, still has its driver, and holds no lease.
  pub destroy-releases :
      (s : Session C)
      → let (c, kept) = destroy hw s in
        (driven c ≡ false)
        × ((kept ≡ none)
            ⊎ (let t = (disarm hw s).0 in
                (kept ≡ some t)
                × (s.uart_installed ≡ true)
                × (t.state ≡ disarmed)
                × (t.uart_installed ≡ true)
                × (t.lease_id ≡ 0)))
  unfolding destroy
  destroy-releases s =
      let c = hw.clear_web_tx (hw.clear_usb_tx s.context) in
      ground (arith, released s.context, released c, released (hw.uninstall_uart c).0)

  -- If the adapter's high-impedance call releases the transmit line, and dropping Web bytes does
  -- not drive a released line, then the line is released whenever a session reached from a created
  -- one is disarmed, whatever the other calls of the adapter do or answer.
  pub run-create-releases :
      (c : C) (timeout : ℕ) (cs : List Command) {s : Session C}
      → create hw c timeout ≡ some s
      → (run hw s cs).state ≡ disarmed
      → driven (run hw s cs).context ≡ false
  unfolding create
  run-create-releases c timeout cs {s} h = run-Quiet s cs (ground (arith, released c))
