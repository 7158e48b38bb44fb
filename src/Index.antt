-- ===== src/Index.antt =====
-- The crate udp-addr-index: the address index server.
pub mod Store
pub mod Token
pub mod Rate
pub mod Server
