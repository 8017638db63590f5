-- ===== src/Models.antt =====
-- crates/qomicex-connector/src/models: the data that the parts exchange.
pub mod Protocol
pub mod Player
pub mod Network
pub mod RoomCode
