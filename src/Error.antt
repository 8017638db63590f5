-- ===== src/Error.antt =====
-- crates/qomicex-connector/src/error.rs
use qomicex_connector_rust.Base.{Text}
use qomicex_connector_rust.Base.Result.{Result}

pub data ScaffoldingError : Type 0 where
  room_code_invalid : Text → ScaffoldingError
  easy_tier_start : Text → ScaffoldingError
  easy_tier_timeout : Text → ScaffoldingError
  center_not_found : Text → ScaffoldingError
  center_connection : Text → ScaffoldingError
  protocol : Text → ScaffoldingError
  protocol_not_negotiated : Text → ScaffoldingError
  heartbeat_timeout : Text → ScaffoldingError

-- `Display`: the message alone.
unfoldable pub fmt : ScaffoldingError → Text
fmt (room_code_invalid msg) = msg
fmt (easy_tier_start msg) = msg
fmt (easy_tier_timeout msg) = msg
fmt (center_not_found msg) = msg
fmt (center_connection msg) = msg
fmt (protocol msg) = msg
fmt (protocol_not_negotiated msg) = msg
fmt (heartbeat_timeout msg) = msg

-- What a fallible function of the library returns.
abbrev pub Outcome {ℓ} : Type ℓ → Type ℓ
Outcome A = Result ScaffoldingError A
