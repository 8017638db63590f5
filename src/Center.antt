-- ===== src/Center.antt =====
-- crates/qomicex-connector/src/center: the host's side.
pub mod Players
pub mod Registry
pub mod Connection
pub mod Accept
pub mod Room
pub mod Server
pub mod Host
