-- ===== src/Core.antt =====
-- crates/qomicex-connector/src/core: the wire format, negotiation, discovery and the heartbeat.
pub mod Serializer
pub mod Negotiator
pub mod Discovery
pub mod Heartbeat
