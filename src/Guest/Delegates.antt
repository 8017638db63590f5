-- ===== src/Guest/Delegates.antt =====
-- A custom protocol of a room, made by `new_json_req` of protocols/mod.rs, under the calls of a guest. How
-- requests and responses are encoded is a parameter.
use qomicex_connector_rust.Base.Result.{Result}
use qomicex_connector_rust.Guest.Session.{Guest}
