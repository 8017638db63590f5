-- ===== src/Center/Connection/Isolation.antt =====
-- A connection writes only its own entries of the tables, and leaves none behind.
use qomicex_connector_rust.Base.{ℕ, ◌≡◌, Text, false, none, Map, lookup, text_eq}
use qomicex_connector_rust.Json.{JsonApi}
use qomicex_connector_rust.Protocols.{ProtocolHandler}
use qomicex_connector_rust.Core.Serializer.Stream.{Stream}
use qomicex_connector_rust.Center.Registry.{ClientRegistry}
use qomicex_connector_rust.Center.Connection.{Room, Round, serve_loop}

-- The tables say of a client what they said before, and no token has been cancelled.
pub record Untouched (id : Text) (r q : ClientRegistry) : Type 0 where
  pub heartbeat : lookup id q.last_heartbeat ≡ lookup id r.last_heartbeat
  pub active : lookup id q.active_clients ≡ lookup id r.active_clients
  pub machine : lookup id q.client_machine ≡ lookup id r.client_machine
  pub ip : lookup id q.client_ip ≡ lookup id r.client_ip
  pub tokens : q.cancelled ≡ r.cancelled

-- No table has an entry of the client.
pub record Absent (id : Text) (r : ClientRegistry) : Type 0 where
  pub heartbeat : lookup id r.last_heartbeat ≡ none
  pub active : lookup id r.active_clients ≡ none
  pub machine : lookup id r.client_machine ≡ none
  pub ip : lookup id r.client_ip ≡ none

module _ (client_id other : Text) (apart : text_eq client_id other ≡ false) where
  module _ (S : Type 0) (J : JsonApi) (protocols : Map (ProtocolHandler S)) where
    module _ (rounds : ℕ → Round) (write_error : Text) where
      abbrev behind : ℕ → ℕ → Stream → Room S → Room S
      behind fuel i st room =
          (serve_loop S J protocols client_id rounds write_error fuel i st room).1
