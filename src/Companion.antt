-- ===== src/Companion.antt =====
-- The link to the Companion: firmware/components/companion_link.
pub mod Request
pub mod Authority
pub mod Failover
pub mod Timing
pub mod LinkFrame
pub mod SerialFrame
