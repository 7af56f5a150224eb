-- ===== src/Ota/BootHealth.antt =====
-- The verdict on a freshly booted image: firmware/components/ota_service/deck_ota_boot_health.cpp.
use s3_rlcd_deck.Base.{
  ℕ, ◌≤◌, ◌<◌, ◌≡◌, ◌↔◌, Bool, true, false, not, ◌&&◌, ◌||◌, arith, leb, ◌==◌, if◌then◌else◌,
}

pub record BootHealth : Type 0 where
  pub pending_verify : Bool
  pub display_ready : Bool
  pub peripherals_ready : Bool
  pub wifi_subsystem_ready : Bool
  pub companion_subsystem_ready : Bool
  pub fatal_failure : Bool
  pub elapsed_ms : ℕ
  pub deadline_ms : ℕ

pub data Decision : Type 0 where
  not_pending wait mark_valid rollback : Decision

abbrev pub all_ready : BootHealth → Bool
all_ready h =
    h.display_ready && h.peripherals_ready && h.wifi_subsystem_ready && h.companion_subsystem_ready

unfoldable pub decide : BootHealth → Decision
decide h =
    if not h.pending_verify
    then not_pending
    else if h.fatal_failure || h.deadline_ms == 0 || leb h.deadline_ms h.elapsed_ms
    then rollback
    else if all_ready h
    then mark_valid
    else wait

-- An image on trial is kept exactly where every subsystem is ready before the deadline and nothing
-- failed for good.
pub decide-mark_valid :
    (h : BootHealth)
    → (decide h ≡ mark_valid) ↔ (
        (h.pending_verify ≡ true)
        × (all_ready h ≡ true)
        × (h.fatal_failure ≡ false)
        × (h.elapsed_ms < h.deadline_ms))
unfolding decide
decide-mark_valid h = ground arith

-- From its deadline on an image on trial is rolled back, whatever it reports: it never goes on
-- waiting, and is never kept so late.
pub decide_settles :
    (h : BootHealth) (later : ℕ)
    → h.pending_verify ≡ true
    → h.deadline_ms ≤ later
    → decide (record h { elapsed_ms = later }) ≡ rollback
unfolding decide
decide_settles h later p d = ground arith
