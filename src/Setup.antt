-- ===== src/Setup.antt =====
-- The setup mode: firmware/components/setup_mode.
pub mod CommandQueue
pub mod ResponseBarrier
pub mod Confirmation
pub mod Mode
mod Examples
