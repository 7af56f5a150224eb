-- ===== src/Serial/Session.antt =====
-- The ownership state machine of the serial port:
-- firmware/components/serial_service/deck_serial_session.cpp and its header.
-- Pointers are references here, so the tests for a null pointer are gone. A function that
-- mutates `*session` returns the new record; a result that the C code leaves unwritten, with
-- `false` returned, is `none`.
pub mod Commands
pub mod Invariant
pub mod Steps
pub mod Ownership
pub mod Requests
pub mod Safety
mod Examples
use s3_rlcd_deck.Base.{
  ℕ, Bool, true, false, not, ◌&&◌, ◌||◌, Option, none, some, leb, ◌==◌, ◌!=◌, if◌then◌else◌,
  increment_nonzero, saturating_add,
}

pub data State : Type 0 where
  disarmed usb_tx web_tx : State

pub data CommandCode : Type 0 where
  applied no_change stale_session stale_request : CommandCode
  uart_install_failed uart_uninstall_failed invalid : CommandCode

-- The hardware adapter: each call maps the context to a new one, with the call's answer.
pub record Hardware (C : Type 0) : Type 0 where
  pub install_uart : C → ℕ → C × Bool
  pub uninstall_uart : C → C × Bool
  pub set_tx_high_impedance : C → C
  pub clear_usb_tx : C → C
  pub clear_web_tx : C → C

pub record CommandResult : Type 0 where
  pub code : CommandCode
  pub state : State
  pub session_id : ℕ
  pub request_id : ℕ
  pub owner_generation : ℕ
  pub lease_id : ℕ

pub record Session (C : Type 0) : Type 0 where
  pub context : C
  pub lease_timeout_ms : ℕ
  pub state : State
  pub session_id : ℕ
  pub owner_generation : ℕ
  pub lease_id : ℕ
  pub lease_deadline_ms : ℕ
  pub usb_tx_rejected : ℕ
  pub control_epoch : ℕ
  pub web_transport_epoch : ℕ
  pub last_request_id : ℕ
  pub last_request_result : CommandResult
  pub uart_install_failures : ℕ
  pub uart_install_failed : Bool
  pub uart_installed : Bool
  pub has_last_request : Bool

abbrev pub is_disarmed : State → Bool
is_disarmed disarmed = true
is_disarmed _ = false

abbrev pub is_usb_tx : State → Bool
is_usb_tx usb_tx = true
is_usb_tx _ = false

abbrev pub is_web_tx : State → Bool
is_web_tx web_tx = true
is_web_tx _ = false

-- `==` on two states.
abbrev pub same_state : State → State → Bool
same_state disarmed t = is_disarmed t
same_state usb_tx t = is_usb_tx t
same_state web_tx t = is_web_tx t

-- The value-initialised `CommandResult` of a new session.
abbrev pub blank_result : CommandResult
blank_result = record {
  code = applied;
  state = disarmed;
  session_id = 0;
  request_id = 0;
  owner_generation = 0;
  lease_id = 0;
}

module _ {C : Type 0} where
  abbrev pub fill_result : Session C → CommandCode → ℕ → CommandResult
  fill_result s code request_id = record {
    code = code;
    state = s.state;
    session_id = s.session_id;
    request_id = request_id;
    owner_generation = s.owner_generation;
    lease_id = s.lease_id;
  }

  abbrev pub clear_web_lease : Session C → Session C
  clear_web_lease s = record s { lease_id = 0; lease_deadline_ms = 0 }

  -- Forgets the last request, as `disarm`, `enter` and the transport's revocation do.
  abbrev pub forget_request : Session C → Session C
  forget_request s = record s { has_last_request = false; last_request_id = 0 }

  pub accept_web_input : Session C → ℕ → ℕ → Bool
  accept_web_input s session_id lease_id =
      is_web_tx s.state
      && s.uart_installed
      && session_id != 0
      && session_id == s.session_id
      && lease_id != 0
      && lease_id == s.lease_id

  pub accept_usb_input_generation : Session C → ℕ → ℕ → Session C × Bool
  accept_usb_input_generation s owner_generation byte_count =
      if is_usb_tx s.state && owner_generation != 0 && owner_generation == s.owner_generation
      then (s, true)
      else (
        if not (is_disarmed s.state) && byte_count != 0
            then record s { usb_tx_rejected = saturating_add s.usb_tx_rejected byte_count }
            else s,
        false,
      )

  pub accept_usb_input : Session C → ℕ → Session C × Bool
  unfolding accept_usb_input_generation
  accept_usb_input s byte_count = accept_usb_input_generation s s.owner_generation byte_count

  pub record_usb_rejection : Session C → ℕ → Session C × Bool
  record_usb_rejection s byte_count =
      if byte_count == 0 || is_disarmed s.state
      then (s, false)
      else (record s { usb_tx_rejected = saturating_add s.usb_tx_rejected byte_count }, true)

module _ {C : Type 0} (hw : Hardware C) where
  -- `web_lease_timeout_ms == 0` is refused; every function of the adapter is present here.
  pub create : C → ℕ → Option (Session C)
  create context web_lease_timeout_ms =
      if web_lease_timeout_ms == 0
      then none
      else some (record {
        context = hw.set_tx_high_impedance context;
        lease_timeout_ms = web_lease_timeout_ms;
        state = disarmed;
        session_id = 0;
        owner_generation = 0;
        lease_id = 0;
        lease_deadline_ms = 0;
        usb_tx_rejected = 0;
        control_epoch = 0;
        web_transport_epoch = 0;
        last_request_id = 0;
        last_request_result = blank_result;
        uart_install_failures = 0;
        uart_install_failed = false;
        uart_installed = false;
        has_last_request = false;
      })

  pub return_to_usb : Session C → Session C
  return_to_usb s =
      if is_web_tx s.state
      then record s {
        context = hw.clear_web_tx s.context;
        lease_id = 0;
        lease_deadline_ms = 0;
        state = usb_tx;
        owner_generation = increment_nonzero s.owner_generation;
      }
      else s

  pub expire_web_lease : Session C → ℕ → Session C
  unfolding return_to_usb
  expire_web_lease s now_ms =
      if is_web_tx s.state && leb s.lease_deadline_ms now_ms then return_to_usb s else s

  -- `uninstall_uart` is called only where the driver is installed; its answer is `uninstalled`.
  uninstall_if : Bool → C → C × Bool
  uninstall_if installed c = if installed then hw.uninstall_uart c else (c, true)

  pub disarm : Session C → Session C × Bool
  unfolding uninstall_if
  disarm s =
      let (c, uninstalled) =
        uninstall_if s.uart_installed (hw.clear_web_tx (hw.clear_usb_tx s.context)) in
      (
        forget_request (
            clear_web_lease (record s {
              context = hw.set_tx_high_impedance c;
              state = disarmed;
              uart_installed = s.uart_installed && not uninstalled;
              owner_generation =
                  if is_disarmed s.state
                  then s.owner_generation
                  else increment_nonzero s.owner_generation;
            })),
        uninstalled,
      )

  -- `none` where the session is freed; otherwise it stays for another try.
  pub destroy : Session C → C × Option (Session C)
  unfolding disarm
  destroy s =
      let (s', uninstalled) = disarm s in
      if not (is_disarmed s.state) || s.uart_installed
      then (s'.context, if uninstalled then none else some s')
      else (hw.set_tx_high_impedance s.context, none)
