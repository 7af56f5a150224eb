-- ===== src/Profiles.antt =====
-- The companion profiles: firmware/components/companion_profiles/deck_companion_profiles.cpp, over
-- the transaction store.
pub mod Text
pub mod Codec
pub mod Fields
pub mod Encoding
pub mod RoundTrip
pub mod Sets
pub mod Calls
pub mod Secrets
pub mod Lookup
pub mod Laws
pub mod Revocation
pub mod Typed
pub mod Outcomes
pub mod Directory
pub mod Made
pub mod Survival
pub mod Atomicity
pub mod Scanning
pub mod Address
mod Examples
