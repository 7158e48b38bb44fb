-- ===== src/Tests.antt =====
-- Runs at concrete inputs, and the theorems at inputs that meet their hypotheses.
pub mod Postcard
pub mod Slots
mod Proto
pub mod Store
mod Server
mod Client
mod Keeper
mod Ranges
mod ProviderCache
mod SignedRecord
mod LookupCache
pub mod Crates
mod Blobs
mod Collection
mod Servers
mod Pkarr
mod Hints
