-- ===== src/EasyTier.antt =====
-- crates/qomicex-connector/src/easytier: the network node of a room or of a guest.
pub mod Config
pub mod Waiting
pub mod Instance
pub mod Peers
