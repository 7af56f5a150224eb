-- ===== src/Storage.antt =====
-- The crash-safe store of one versioned record: firmware/components/transaction_store.
pub mod Bytes
pub mod Record
pub mod Marker
pub mod Store
