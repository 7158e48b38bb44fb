-- ===== src/Discovery.antt =====
-- The crate iroh-mainline-endpoint-discovery: clients of the address index.
pub mod Client
pub mod Keeper
pub mod LookupCache
pub mod SignedRecord
pub mod Mutable
pub mod ServerList
pub mod Servers
pub mod Pkarr
