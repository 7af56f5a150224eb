-- ===== src/Lib.antt =====
-- A verification library of the deck's firmware core: a desk device that receives firmware updates
-- over an authenticated link to a Companion on the desktop, shares one serial port between its USB
-- host and the Companion's Web terminal, and chooses which Companion to connect to.
--
-- The parts, each in its own module, named for the code under firmware/components:
--
--   Serial (serial_service). Serial.Session is deck_serial_session.cpp and its header: who may
--     transmit on the port. One owner task makes every call, in the states DISARMED, USB_TX and
--     WEB_TX. `Session` is the C struct; `create`, `disarm`, `destroy` and the input tests stand in
--     Session.antt, the commands from `enter` to `tick` in Session/Commands.antt, each named as the
--     function after `deck_serial_session_`. Session/Invariant and Session/Steps hold the invariant
--     and the sequences of calls; Ownership, Requests and Safety the theorems, by subject.
--     Serial.Router is deck_serial_router.cpp, the blocks that the sinks share: Router.antt has its
--     pool and sinks, Router/Calls its operations. Ring, Chain, Filling, Shares, Drops and Enqueue are
--     on the rings and the free list, Creation, Preservation and History on what any calls leave, Fifo
--     and Steps on the queues of the sinks, Replay and Reading on the history that a reader follows.
--
--   Ota (ota_service). Ota.Transaction is deck_ota_transaction.cpp: a manifest is offered, the image
--     is written in chunks, checked and selected for the next boot. Ota.Version and Ota.Digest are
--     its parser and comparisons, Ota.Types its header. Transaction/Laws states what the adapters
--     promise, Integrity the invariant, History what any sequence of calls leaves, Delivery what an
--     update in order achieves. Ota.Fence is deck_ota_transport_fence.h and .cpp: the one atomic word
--     that orders the worker's commit against a transport abort. Fence.antt has what each method does
--     in one step; Fence/Loops the compare-and-exchange code, with the words that the other threads
--     leave as a list of attempts; Fence/Safety the sequences of steps. Ota.BootHealth is
--     deck_ota_boot_health.cpp.
--
--   Companion (companion_link). Companion.Request is deck_serial_request_tracker.cpp, the ids of the
--     requests in flight; Companion.Authority is deck_companion_transport_authority.cpp, what a
--     transport may do before it is active; Companion.Failover is deck_companion_failover.cpp, the
--     choice of the hub, with Failover/Choice on `best_unattempted` and Failover/Rounds on rounds.
--     Companion.Timing is deck_companion_link_timing.cpp, the heartbeats and the trusted clock, with
--     its theorems in Timing/Laws. Companion.LinkFrame is deck_companion_link_frame.cpp, which puts
--     messages together: LinkFrame/Laws has what any chunks leave, LinkFrame/Delivery what a message
--     that is sent in order achieves. Companion.SerialFrame is deck_serial_frame.cpp, the binary frames
--     of serial data and their order.
--
--   Storage (transaction_store). Storage.Store is deck_transaction_store.cpp, which keeps one versioned
--     record in two slots, with a marker that names the active one. Storage.Bytes has its words and
--     checksum, Record and Marker the two encodings. Store.antt has `create` and `stage`, Store/Commit
--     the `commit` and `clear`. Store/Laws states what the storage promises and what a boot would find
--     in it, `recover`; Invariant, Load, Faults, Safety, Calls and Clear have the theorems, by
--     operation. A boot that fails to read the newest slot takes the record before it, where there
--     is one, and marks a fault.
--
--   Settings (device_settings) is deck_device_settings.cpp, the temperature offset, and the first client
--     of the store: Settings/Laws has what it promises over a storage that may fail.
--
--   Wifi (wifi_config) is deck_wifi_config.cpp, the second client of the store. Wifi.Credentials is its
--     encoding, with the round trip in Wifi/Encoding, Wifi.Config its state and operations. Wifi/Safety
--     has which calls change what a boot finds, Wifi/Adoption how credentials become the active ones.
--
--   Profiles (companion_profiles) is deck_companion_profiles.cpp, the paired Companions, and the third
--     client of the store. Profiles.Text has its texts and addresses, Codec the bytes of a set, Sets the
--     sets that the calls make, Calls the operations, Secrets the snapshot and the secrets. Fields,
--     Encoding and RoundTrip are on the bytes, Scanning and Address on addresses, Lookup, Revocation,
--     Directory and Made on a set as a directory, Typed on its numbers; Laws, Outcomes,
--     Survival and Atomicity say what the calls leave to a boot whose reads do not fail.
--
--   Setup (setup_mode). Setup.CommandQueue is deck_setup_command_queue.cpp, with the places of its ring
--     in CommandQueue/Ring and its queue in CommandQueue/Fifo. Setup.ResponseBarrier is
--     deck_setup_response_barrier.cpp: ResponseBarrier/Slots follows one response among the slots, Kept
--     and Calls the generations, Tracking the response over any calls.
--     Setup.Confirmation is deck_setup_confirmation.cpp, with its texts in Confirmation/Laws and its
--     sequences of calls in Confirmation/History. Setup.Mode is deck_setup_mode.cpp.
--
--   Board (board_support). Board.ButtonInput is deck_button_input.cpp, with its events counted in
--     ButtonInput/Presses.
--
--   Base holds what these share: the tests on numbers, machine words (`increment_nonzero` and
--     `saturating_add` of deck_serial_session.cpp), lists, bits of a byte, and integers.
--
-- How they meet: the Companion's messages reach the session and the transaction through the serial
-- and OTA services, under the epochs that the fence and the session check; the transport authority
-- says which messages are let through, and the request tracker gives them ids. The services are task
-- loops around these components and are not modelled.
--
-- Conventions. A pointer is a reference, so the tests for a null pointer are gone. A function that
-- changes `*object` returns the new record; an output that the code leaves unwritten is `none`. A
-- 64-bit or 32-bit number is a native natural number, its wrap-around or saturation written out, and
-- the invariants and hypotheses bound the values that stay free. A call through an adapter maps the
-- adapter's context to a new one, with the answer; code outside the repository (UART driver, flash,
-- crypto, storage, random source) is such a parameter, and what a theorem needs of it is a named
-- hypothesis; in the router a flag tells whether an allocation succeeds. Nothing runs on fuel: the
-- loops of the code run over lists or a count that the state holds, and those of the fence over the
-- attempts that they make.
--
-- Not modelled: the tasks, queues and drivers of ESP-IDF, FreeRTOS and LVGL, JSON parsing with a
-- vendor library, the setup web server, and the desktop Companion.
pub mod Base
pub mod Serial
pub mod Storage
pub mod Setup
pub mod Settings
pub mod Wifi
pub mod Profiles
pub mod Board
pub mod Ota
pub mod Companion
