-- ===== src/Gateway.antt =====
-- iroh-link-gateway: the HTTP gateway that serves blobs by their hash.
pub mod Ranges
pub mod Lru
pub mod Stream
pub mod Http
pub mod Urls
pub mod Blobs
pub mod Collection
pub mod Redirect
pub mod Hints
pub mod ProviderCache
