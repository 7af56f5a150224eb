-- ===== src/Serial/Session/Commands.antt =====
-- The commands of the serial session: the entry points of
-- firmware/components/serial_service/deck_serial_session.cpp from `enter` to `tick`.
use s3_rlcd_deck.Base.{
  ℕ, ◌+◌, Bool, true, false, not, ◌&&◌, ◌||◌, Option, none, some, ltb, ◌==◌, ◌!=◌, if◌then◌else◌,
  u32_max, increment_nonzero, saturating_add,
}
use s3_rlcd_deck.Serial.Session.{
  State, usb_tx, web_tx, CommandCode, applied, no_change, stale_session, stale_request,
  uart_uninstall_failed, Hardware, CommandResult, Session, is_disarmed, is_usb_tx, is_web_tx,
  same_state, fill_result, clear_web_lease, forget_request, return_to_usb, expire_web_lease, disarm,
}

-- The part of the session that readers receive.
pub record Snapshot : Type 0 where
  pub state : State
  pub session_id : ℕ
  pub owner_generation : ℕ
  pub lease_id : ℕ
  pub lease_deadline_ms : ℕ
  pub usb_tx_rejected : ℕ
  pub uart_install_failures : ℕ
  pub uart_install_failed : Bool
  pub uart_installed : Bool

module _ {C : Type 0} where
  unfoldable pub snapshot : Session C → Snapshot
  snapshot s = record {
    state = s.state;
    session_id = s.session_id;
    owner_generation = s.owner_generation;
    lease_id = s.lease_id;
    lease_deadline_ms = s.lease_deadline_ms;
    usb_tx_rejected = s.usb_tx_rejected;
    uart_install_failures = s.uart_install_failures;
    uart_install_failed = s.uart_install_failed;
    uart_installed = s.uart_installed;
  }

  -- A new session id, owned by USB; the caller has installed the driver.
  unfoldable pub entered : Session C → C → Session C
  entered s c = clear_web_lease (
      forget_request (record s {
        context = c;
        uart_install_failed = false;
        uart_installed = true;
        session_id = increment_nonzero s.session_id;
        owner_generation = increment_nonzero s.owner_generation;
        state = usb_tx;
        usb_tx_rejected = 0;
      }))

  -- The request repeats the last one, and nothing has changed since.
  abbrev pub is_current : Session C → Bool
  is_current s =
      s.owner_generation == s.last_request_result.owner_generation
      && same_state s.state s.last_request_result.state
      && s.lease_id == s.last_request_result.lease_id

module _ {C : Type 0} (hw : Hardware C) where
  -- `enter` from the call of `install_uart`, in state `disarmed` with no driver installed.
  unfoldable pub install : Session C → Session C × CommandResult
  unfolding entered
  install s =
      let (c, installed) = hw.install_uart s.context (increment_nonzero s.session_id) in
      let (d, uninstalled) = hw.uninstall_uart (hw.clear_web_tx (hw.clear_usb_tx c)) in
      let failed = record s {
        context = hw.set_tx_high_impedance d;
        uart_installed = not uninstalled;
        uart_install_failures =
            if s.uart_install_failures != u32_max
            then s.uart_install_failures + 1
            else s.uart_install_failures;
        uart_install_failed = true;
      } in
      if installed
      then (entered s c, fill_result (entered s c) applied 0)
      else (failed, fill_result failed CommandCode.uart_install_failed 0)

  -- `now_ms` is not used by the code.
  unfoldable pub enter : Session C → ℕ → Session C × CommandResult
  unfolding install
  enter s control_epoch =
      let (c, uninstalled) = hw.uninstall_uart s.context in
      let kept = record s { context = hw.set_tx_high_impedance c } in
      if control_epoch != s.control_epoch
      then (s, fill_result s stale_request 0)
      else if not (is_disarmed s.state)
      then (s, fill_result s no_change 0)
      else if s.uart_installed
      then if uninstalled
        then install (record s { context = c; uart_installed = false })
        else (kept, fill_result kept uart_uninstall_failed 0)
      else install s

  unfoldable pub exit : Session C → ℕ → Session C × CommandResult
  unfolding disarm
  exit s control_epoch =
      let t = record s { control_epoch = control_epoch } in
      let (t', uninstalled) = disarm hw t in
      if ltb control_epoch s.control_epoch
      then (s, fill_result s stale_request 0)
      else if is_disarmed s.state && not s.uart_installed
      then (t, fill_result t no_change 0)
      else (
        t',
        fill_result t'
            (if uninstalled
              then (if is_disarmed s.state then no_change else applied)
              else uart_uninstall_failed)
            0,
      )

  -- The answer to a request that repeats the last one.
  unfoldable pub replay : Session C → ℕ → CommandResult
  replay s request_id =
      if is_current s then s.last_request_result else fill_result s stale_request request_id

  -- The request is new: change the owner, and remember the result.
  unfoldable pub apply_request : Session C → ℕ → Bool → ℕ → Session C × CommandResult
  unfolding return_to_usb
  apply_request s request_id enable now_ms =
      let leased = record s {
        context = if is_usb_tx s.state then hw.clear_usb_tx s.context else s.context;
        state = web_tx;
        owner_generation = increment_nonzero s.owner_generation;
        lease_id = request_id;
        lease_deadline_ms = saturating_add now_ms s.lease_timeout_ms;
      } in
      let t = if enable then leased else return_to_usb hw s in
      let code = if same_state s.state t.state && not enable then no_change else applied in
      let result = fill_result t code request_id in
      (
        record t {
          last_request_id = request_id;
          last_request_result = result;
          has_last_request = true;
        },
        result,
      )

  -- The tests of `request_web_at_epoch` that follow the expiry of an old lease.
  unfoldable pub request_current : Session C → ℕ → ℕ → Bool → ℕ → Session C × CommandResult
  unfolding replay apply_request
  request_current s session_id request_id enable now_ms =
      if is_disarmed s.state || session_id != s.session_id
      then (s, fill_result s stale_session request_id)
      else if s.has_last_request && request_id == s.last_request_id
      then (s, replay s request_id)
      else if s.has_last_request && ltb request_id s.last_request_id
      then (s, fill_result s stale_request request_id)
      else apply_request s request_id enable now_ms

  unfoldable pub request_web_at_epoch :
      Session C → ℕ → ℕ → ℕ → Bool → ℕ → Session C × Option CommandResult
  unfolding request_current expire_web_lease
  request_web_at_epoch s web_transport_epoch session_id request_id enable now_ms =
      let (t, result) =
        request_current (expire_web_lease hw s now_ms) session_id request_id enable now_ms in
      if request_id == 0
      then (s, none)
      else if web_transport_epoch != s.web_transport_epoch
      then (s, some (fill_result s stale_request request_id))
      else (t, some result)

  unfoldable pub request_web : Session C → ℕ → ℕ → Bool → ℕ → Session C × Option CommandResult
  unfolding request_web_at_epoch
  request_web s session_id request_id enable now_ms =
      request_web_at_epoch s s.web_transport_epoch session_id request_id enable now_ms

  unfoldable pub revoke_web_transport : Session C → ℕ → Session C × CommandResult
  unfolding return_to_usb
  revoke_web_transport s web_transport_epoch =
      let t = return_to_usb hw (record s { web_transport_epoch = web_transport_epoch }) in
      let u = forget_request (record t {
        context = if is_web_tx s.state then t.context else hw.clear_web_tx t.context;
      }) in
      if ltb web_transport_epoch s.web_transport_epoch
      then (s, fill_result s stale_request 0)
      else (u, fill_result u (if is_web_tx s.state then applied else no_change) 0)

  unfoldable pub web_activity : Session C → ℕ → ℕ → ℕ → Session C × Bool
  unfolding expire_web_lease
  web_activity s session_id lease_id now_ms =
      let t = expire_web_lease hw s now_ms in
      if not (is_web_tx t.state)
        || t.session_id != session_id
        || t.lease_id != lease_id
        || lease_id == 0
      then (t, false)
      else (record t { lease_deadline_ms = saturating_add now_ms t.lease_timeout_ms }, true)

  unfoldable pub web_disconnect : Session C → ℕ → ℕ → Session C × Bool
  unfolding return_to_usb
  web_disconnect s session_id lease_id =
      if not (is_web_tx s.state)
        || s.session_id != session_id
        || s.lease_id != lease_id
        || lease_id == 0
      then (s, false)
      else (return_to_usb hw s, true)

  unfoldable pub tick : Session C → ℕ → Session C
  unfolding expire_web_lease
  tick s now_ms = expire_web_lease hw s now_ms
