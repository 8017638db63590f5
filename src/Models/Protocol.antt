-- ===== src/Models/Protocol.antt =====
-- crates/qomicex-connector/src/models/protocol.rs
use qomicex_connector_rust.Base.{ℕ, Text, Bytes, Bool, ◌==◌}

pub record ProtocolRequest : Type 0 where
  pub namespace : Text
  pub request_type : Text
  pub body : Bytes

pub record ProtocolResponse : Type 0 where
  pub status : ℕ
  pub body : Bytes

unfoldable pub is_success : ProtocolResponse → Bool
is_success r = r.status == 0
