-- ===== src/Serial/Session/Ownership.antt =====
-- The owner generation of deck_serial_session.cpp: it names who may transmit.
use s3_rlcd_deck.Base.{
  ℕ, ◌+◌, ◌*◌, ◌≤◌, ◌<◌, ◌≡◌, refl, ◌⊎◌, inl, Bool, true, false, List, [], ◌∷◌, arith, length,
  u64_max, increment_nonzero_next,
}
use s3_rlcd_deck.Serial.Session.{
  Hardware, Session, usb_tx, accept_usb_input_generation, record_usb_rejection, return_to_usb,
  expire_web_lease,
}
use s3_rlcd_deck.Serial.Session.Commands.{
  install, enter, exit, request_web_at_epoch, revoke_web_transport, web_activity, web_disconnect,
  tick,
}
use s3_rlcd_deck.Serial.Session.Steps.{
  Command, enters, exits, requests, revokes, is_active, disconnects, usb_input, usb_rejection,
  ticks, step, run, AllFit, step-Inv,
}
use s3_rlcd_deck.Serial.Session.Invariant.{Inv}

-- The same owner: state, lease and session are those of before.
abbrev pub SameOwner : {C : Type 0} → Session C → Session C → Type 0
SameOwner s t = (t.state ≡ s.state) × (t.lease_id ≡ s.lease_id) × (t.session_id ≡ s.session_id)

-- One call changes the owner at most twice: the old lease runs out, and a new one is granted.
abbrev pub Advances : {C : Type 0} → Session C → Session C → Type 0
Advances s t =
    (t.owner_generation ≤ s.owner_generation + 2)
    × (s.owner_generation ≤ t.owner_generation)
    × (SameOwner s t ⊎ (s.owner_generation < t.owner_generation))

module _ {C : Type 0} (hw : Hardware C) where
  return_to_usb-Advances :
      (s : Session C) → s.owner_generation + 1 ≤ u64_max → Advances s (return_to_usb hw s)
  unfolding return_to_usb
  return_to_usb-Advances s h = ground (arith, increment_nonzero_next s.owner_generation)

  expire_web_lease-Advances :
      (s : Session C) (now : ℕ)
      → s.owner_generation + 1 ≤ u64_max
      → Advances s (expire_web_lease hw s now)
  unfolding expire_web_lease
  expire_web_lease-Advances s now h = ground (arith, increment_nonzero_next s.owner_generation)

  install-Advances :
      (s : Session C) → s.owner_generation + 1 ≤ u64_max → Advances s (install hw s).0
  unfolding install
  install-Advances s h = ground (arith, increment_nonzero_next s.owner_generation)

  enter-Advances :
      (s : Session C) (epoch : ℕ)
      → s.owner_generation + 1 ≤ u64_max
      → Advances s (enter hw s epoch).0
  unfolding enter
  enter-Advances s epoch h = ground (
    arith,
    install-Advances s,
    install-Advances
        (record s { context = (hw.uninstall_uart s.context).0; uart_installed = false }),
  )

  exit-Advances :
      (s : Session C) (epoch : ℕ)
      → Inv s
      → s.owner_generation + 1 ≤ u64_max
      → Advances s (exit hw s epoch).0
  unfolding exit
  exit-Advances s epoch v h = ground (arith, increment_nonzero_next s.owner_generation)

  request_web_at_epoch-Advances :
      (s : Session C) (epoch sid id : ℕ) (enable : Bool) (now : ℕ)
      → s.owner_generation + 2 ≤ u64_max
      → Advances s (request_web_at_epoch hw s epoch sid id enable now).0
  unfolding request_web_at_epoch
  request_web_at_epoch-Advances s epoch sid id enable now h = ground (
    arith,
    increment_nonzero_next s.owner_generation,
    increment_nonzero_next (s.owner_generation + 1),
  )

  revoke_web_transport-Advances :
      (s : Session C) (epoch : ℕ)
      → s.owner_generation + 1 ≤ u64_max
      → Advances s (revoke_web_transport hw s epoch).0
  unfolding revoke_web_transport
  revoke_web_transport-Advances s epoch h =
      ground (arith, increment_nonzero_next s.owner_generation)

  step-Advances :
      (s : Session C) (c : Command)
      → Inv s
      → s.owner_generation + 2 ≤ u64_max
      → Advances s (step hw s c)
  unfolding step web_activity web_disconnect tick accept_usb_input_generation record_usb_rejection
  step-Advances s (enters epoch) v h = enter-Advances s epoch (omega arith)
  step-Advances s (exits epoch) v h = exit-Advances s epoch v (omega arith)
  step-Advances s (requests epoch sid id enable now) v h =
      request_web_at_epoch-Advances s epoch sid id enable now h
  step-Advances s (revokes epoch) v h = revoke_web_transport-Advances s epoch (omega arith)
  step-Advances s (is_active sid lid now) v h = ground (arith, expire_web_lease-Advances s now)
  step-Advances s (disconnects sid lid) v h = ground (arith, return_to_usb-Advances s)
  step-Advances s (usb_input generation n) v h = ground arith
  step-Advances s (usb_rejection n) v h = ground arith
  step-Advances s (ticks now) v h = expire_web_lease-Advances s now (omega arith)

  -- Over any calls with 64-bit byte counts, too few to wrap the counter, the owner generation
  -- never falls, and it has risen unless the state, the lease and the session are what they were.
  pub run-generation :
      (s : Session C) (cs : List Command)
      → Inv s
      → AllFit cs
      → s.owner_generation + 2 * length cs ≤ u64_max
      → (s.owner_generation ≤ (run hw s cs).owner_generation)
        × (SameOwner s (run hw s cs) ⊎ (s.owner_generation < (run hw s cs).owner_generation))
  unfolding run
  run-generation s [] v fit h = (omega arith, inl (refl, refl, refl))
  run-generation s (c ∷ cs) v fit h =
      let one = step-Advances s c v (omega arith) in
      let rest =
        run-generation (step hw s c) cs (step-Inv hw s c fit.0 v) fit.1 (omega (arith, one)) in
      ground (arith, one, rest)

  -- USB bytes stamped with the generation of their receipt are accepted after any such calls only
  -- if USB was the owner when they came, and the session and the lease are still the same.
  pub accept_usb_input_generation_fenced :
      (s : Session C) (cs : List Command) (n : ℕ)
      → Inv s
      → AllFit cs
      → s.owner_generation + 2 * length cs ≤ u64_max
      → (accept_usb_input_generation (run hw s cs) s.owner_generation n).1 ≡ true
      → (s.state ≡ usb_tx) × SameOwner s (run hw s cs)
  unfolding accept_usb_input_generation
  accept_usb_input_generation_fenced s cs n v fit h e = ground (arith, run-generation s cs v fit h)
