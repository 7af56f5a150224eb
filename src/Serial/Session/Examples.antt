-- ===== src/Serial/Session/Examples.antt =====
-- The theorems about deck_serial_session.cpp at concrete sessions, and runs of the code.
use s3_rlcd_deck.Base.{
  ℕ, ◌≤◌, ◌<◌, ◌≡◌, ◌⊎◌, refl, Bool, true, false, inl, List, [], ◌∷◌, some, arith,
  increment_nonzero, saturating_add,
}
use s3_rlcd_deck.Serial.Session.{
  Hardware, Session, CommandResult, applied, stale_request, disarmed, usb_tx, web_tx, blank_result,
  create, fill_result, accept_usb_input_generation,
}
use s3_rlcd_deck.Serial.Session.Commands.{
  enter, exit, request_web_at_epoch, revoke_web_transport, tick,
}
use s3_rlcd_deck.Serial.Session.Invariant.{Inv}
use s3_rlcd_deck.Serial.Session.Steps.{
  Command, enters, requests, ticks, exits, usb_input, run, run-create-Inv,
}
use s3_rlcd_deck.Serial.Session.Ownership.{SameOwner, run-generation}
use s3_rlcd_deck.Serial.Session.Requests.{request_web_at_epoch_sound}
use s3_rlcd_deck.Serial.Session.Safety.{
  exit-fences-enter, revoke_web_transport-fences-request, run-create-releases,
}

-- A board whose context is whether the transmit line is driven, and which never fails.
abbrev board : Hardware Bool
board = record {
  install_uart = λ c id. (true, true);
  uninstall_uart = λ c. (c, true);
  set_tx_high_impedance = λ c. false;
  clear_usb_tx = λ c. c;
  clear_web_tx = λ c. c;
}

abbrev fresh : Session Bool
fresh = record {
  context = false;
  lease_timeout_ms = 100;
  state = disarmed;
  session_id = 0;
  owner_generation = 0;
  lease_id = 0;
  lease_deadline_ms = 0;
  usb_tx_rejected = 0;
  control_epoch = 0;
  web_transport_epoch = 0;
  last_request_id = 0;
  last_request_result = blank_result;
  uart_install_failures = 0;
  uart_install_failed = false;
  uart_installed = false;
  has_last_request = false;
}

abbrev open_usb : Session Bool
open_usb = record fresh {
  context = true;
  state = usb_tx;
  session_id = 1;
  owner_generation = 1;
  uart_installed = true;
}

abbrev web_result : CommandResult
web_result = record {
  code = applied;
  state = web_tx;
  session_id = 1;
  request_id = 7;
  owner_generation = 2;
  lease_id = 7;
}

abbrev open_web : Session Bool
open_web = record open_usb {
  state = web_tx;
  owner_generation = 2;
  lease_id = 7;
  lease_deadline_ms = 150;
  last_request_id = 7;
  last_request_result = web_result;
  has_last_request = true;
}

create-fresh : create board true 100 ≡ some fresh
unfolding create
create-fresh = refl

enter-fresh : (enter board fresh 0).0 ≡ open_usb
unfolding enter increment_nonzero
enter-fresh = refl

request_usb : request_web_at_epoch board open_usb 0 1 7 true 50 ≡ (open_web, some web_result)
unfolding request_web_at_epoch increment_nonzero saturating_add
request_usb = refl

fresh-Inv : Inv fresh
fresh-Inv = ground arith

open_usb-Inv : Inv open_usb
open_usb-Inv = ground arith

open_web-Inv : Inv open_web
open_web-Inv = ground arith

abbrev takeover : List Command
takeover = enters 0 ∷ requests 0 1 7 true 50 ∷ usb_input 1 3 ∷ ticks 200 ∷ exits 1 ∷ []

run-create-Inv_example : Inv (run board fresh takeover)
run-create-Inv_example =
    run-create-Inv board true 100 takeover {s = fresh} create-fresh (omega arith)

run-generation_example :
    let u = run board open_web (ticks 200 ∷ []) in
    (2 ≤ u.owner_generation) × (SameOwner open_web u ⊎ (2 < u.owner_generation))
run-generation_example =
    run-generation board open_web (ticks 200 ∷ []) open_web-Inv (omega arith) (omega arith)

request_web_at_epoch_sound_example : ◌≡◌ {A = ℕ} 1 open_usb.session_id
request_web_at_epoch_sound_example =
    (request_web_at_epoch_sound board open_usb 0 1 7 true 50 {t = open_web} {r = web_result}
      request_usb (inl refl)).1

request_old :
    request_web_at_epoch board open_web 0 1 6 true 60
    ≡ (open_web, some (fill_result open_web stale_request 6))
unfolding request_web_at_epoch
request_old = refl

exit-fences-enter_example :
    let u = run board (exit board open_web 5).0 (ticks 9 ∷ []) in
    enter board u 4 ≡ (u, fill_result u stale_request 0)
exit-fences-enter_example =
    (exit-fences-enter board open_web 5 4 (ticks 9 ∷ []) (omega arith) (omega arith)).1

revoke_web_transport-fences-request_example :
    let u = run board (revoke_web_transport board open_web 1).0 (ticks 9 ∷ []) in
    request_web_at_epoch board u 0 1 8 true 10 ≡ (u, some (fill_result u stale_request 8))
revoke_web_transport-fences-request_example =
    revoke_web_transport-fences-request board open_web 1 0 1 8 true 10 (ticks 9 ∷ []) (omega arith)
      (omega arith) (omega arith)

takeover_disarms : (run board fresh takeover).state ≡ disarmed
unfolding run enter request_web_at_epoch tick exit accept_usb_input_generation increment_nonzero
    saturating_add
takeover_disarms = refl

run-create-releases_example : (run board fresh takeover).context ≡ false
run-create-releases_example =
    run-create-releases board (λ c. c) (λ c. refl) (λ c e. e) true 100 takeover {s = fresh}
      create-fresh takeover_disarms
