-- ===== src/Serial.antt =====
-- The serial service's control logic: firmware/components/serial_service.
pub mod Session
pub mod Router
