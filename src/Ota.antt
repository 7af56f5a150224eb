-- ===== src/Ota.antt =====
-- Firmware updates over the air: firmware/components/ota_service.
pub mod Version
pub mod Digest
pub mod Types
pub mod Transaction
pub mod BootHealth
pub mod Fence
mod Examples
