-- ===== src/Wifi.antt =====
-- The Wi-Fi configuration: firmware/components/wifi_config.
pub mod Credentials
pub mod Config
pub mod Encoding
pub mod Safety
pub mod Adoption
mod Examples
