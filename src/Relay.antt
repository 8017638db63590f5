-- ===== src/Relay.antt =====
-- crates/qomicex-connector/src/relay: where the relay nodes come from.
pub mod Nodes
pub mod Parse
pub mod Provider
