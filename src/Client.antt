-- ===== src/Client.antt =====
-- crates/qomicex-connector/src/client.rs: the entry to the library.
pub mod RelayCache
pub mod Rooms
