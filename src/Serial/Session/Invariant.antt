-- ===== src/Serial/Session/Invariant.antt =====
-- What holds of the serial session (deck_serial_session.cpp) between two commands.
use s3_rlcd_deck.Base.{
  ℕ, ◌^◌, ◌<◌, ◌≡◌, Bool, true, false, some, arith, increment_nonzero_pos, increment_nonzero-lt,
  saturating_add-lt,
}
use s3_rlcd_deck.Serial.Session.{
  disarmed, usb_tx, web_tx, Hardware, Session, is_disarmed, create, disarm, return_to_usb,
  expire_web_lease, accept_usb_input_generation, record_usb_rejection,
}
use s3_rlcd_deck.Serial.Session.Commands.{
  install, enter, exit, request_current, apply_request, request_web_at_epoch, revoke_web_transport,
  web_activity, web_disconnect,
}

pub record Inv {C : Type 0} (s : Session C) : Type 0 where
  pub no_lease_disarmed :
      s.state ≡ disarmed
      → (s.lease_id ≡ 0) × (s.lease_deadline_ms ≡ 0) × (s.has_last_request ≡ false)
  pub no_lease_usb : s.state ≡ usb_tx → (s.lease_id ≡ 0) × (s.lease_deadline_ms ≡ 0)
  pub lease_web :
      s.state ≡ web_tx
      → (0 < s.lease_id) × (s.lease_id ≡ s.last_request_id) × (s.has_last_request ≡ true)
  pub armed :
      is_disarmed s.state ≡ false
      → (s.uart_installed ≡ true) × (0 < s.session_id) × (0 < s.owner_generation)
  pub remembered :
      s.has_last_request ≡ true
      → (0 < s.last_request_id)
        × (s.last_request_result.request_id ≡ s.last_request_id)
        × (s.last_request_result.session_id ≡ s.session_id)
  pub session_id_fits : s.session_id < 2 ^ 64
  pub generation_fits : s.owner_generation < 2 ^ 64
  pub rejected_fits : s.usb_tx_rejected < 2 ^ 64
  pub failures_fit : s.uart_install_failures < 2 ^ 32

module _ {C : Type 0} where
  pub accept_usb_input_generation-Inv :
      (s : Session C) (g n : ℕ) → n < 2 ^ 64 → Inv s → Inv (accept_usb_input_generation s g n).0
  unfolding accept_usb_input_generation
  accept_usb_input_generation-Inv s g n h v =
      ground (arith, saturating_add-lt s.usb_tx_rejected n h)

  pub record_usb_rejection-Inv :
      (s : Session C) (n : ℕ) → n < 2 ^ 64 → Inv s → Inv (record_usb_rejection s n).0
  unfolding record_usb_rejection
  record_usb_rejection-Inv s n h v = ground (arith, saturating_add-lt s.usb_tx_rejected n h)

module _ {C : Type 0} (hw : Hardware C) where
  pub create-Inv : (c : C) (ms : ℕ) {s : Session C} → create hw c ms ≡ some s → Inv s
  unfolding create
  create-Inv c ms h = ground arith

  pub return_to_usb-Inv : (s : Session C) → Inv s → Inv (return_to_usb hw s)
  unfolding return_to_usb
  return_to_usb-Inv s v =
      ground
        (arith, increment_nonzero_pos s.owner_generation, increment_nonzero-lt s.owner_generation)

  pub expire_web_lease-Inv : (s : Session C) (now : ℕ) → Inv s → Inv (expire_web_lease hw s now)
  unfolding expire_web_lease
  expire_web_lease-Inv s now v =
      ground
        (arith, increment_nonzero_pos s.owner_generation, increment_nonzero-lt s.owner_generation)

  pub disarm-Inv : (s : Session C) → Inv s → Inv (disarm hw s).0
  unfolding disarm
  disarm-Inv s v =
      ground
        (arith, increment_nonzero_pos s.owner_generation, increment_nonzero-lt s.owner_generation)

  pub install-Inv : (s : Session C) → s.state ≡ disarmed → Inv s → Inv (install hw s).0
  unfolding install
  install-Inv s e v = ground (
    arith,
    increment_nonzero_pos s.owner_generation,
    increment_nonzero-lt s.owner_generation,
    increment_nonzero_pos s.session_id,
    increment_nonzero-lt s.session_id,
  )

  pub enter-Inv : (s : Session C) (epoch : ℕ) → Inv s → Inv (enter hw s epoch).0
  unfolding enter
  enter-Inv s epoch v = ground (
    arith,
    install-Inv s,
    install-Inv (record s { context = (hw.uninstall_uart s.context).0; uart_installed = false }),
  )

  pub exit-Inv : (s : Session C) (epoch : ℕ) → Inv s → Inv (exit hw s epoch).0
  unfolding exit
  exit-Inv s epoch v =
      ground
        (arith, increment_nonzero_pos s.owner_generation, increment_nonzero-lt s.owner_generation)

  pub apply_request-Inv :
      (s : Session C) (id : ℕ) (enable : Bool) (now : ℕ)
      → is_disarmed s.state ≡ false
      → 0 < id
      → Inv s
      → Inv (apply_request hw s id enable now).0
  unfolding apply_request
  apply_request-Inv s id enable now e h v =
      ground
        (arith, increment_nonzero_pos s.owner_generation, increment_nonzero-lt s.owner_generation)

  pub request_current-Inv :
      (s : Session C) (sid id : ℕ) (enable : Bool) (now : ℕ)
      → 0 < id
      → Inv s
      → Inv (request_current hw s sid id enable now).0
  unfolding request_current
  request_current-Inv s sid id enable now h v = ground (arith, apply_request-Inv s id enable now)

  pub request_web_at_epoch-Inv :
      (s : Session C) (epoch sid id : ℕ) (enable : Bool) (now : ℕ)
      → Inv s
      → Inv (request_web_at_epoch hw s epoch sid id enable now).0
  unfolding request_web_at_epoch
  request_web_at_epoch-Inv s epoch sid id enable now v = ground (
    arith,
    request_current-Inv (expire_web_lease hw s now) sid id enable now,
    expire_web_lease-Inv s now v,
  )

  pub revoke_web_transport-Inv :
      (s : Session C) (epoch : ℕ) → Inv s → Inv (revoke_web_transport hw s epoch).0
  unfolding revoke_web_transport
  revoke_web_transport-Inv s epoch v =
      ground
        (arith, increment_nonzero_pos s.owner_generation, increment_nonzero-lt s.owner_generation)

  pub web_activity-Inv :
      (s : Session C) (sid lid now : ℕ) → Inv s → Inv (web_activity hw s sid lid now).0
  unfolding web_activity
  web_activity-Inv s sid lid now v = ground (arith, expire_web_lease-Inv s now v)

  pub web_disconnect-Inv :
      (s : Session C) (sid lid : ℕ) → Inv s → Inv (web_disconnect hw s sid lid).0
  unfolding web_disconnect
  web_disconnect-Inv s sid lid v = ground (arith, return_to_usb-Inv s v)
