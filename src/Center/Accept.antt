-- ===== src/Center/Accept.antt =====
-- The accept loop of crates/qomicex-connector/src/center/tcp_server.rs and the connections that it
-- spawns, as steps that interleave: each connection is a task of its own over the shared tables and the
-- handlers' shared state. An address that is accepted is not that of an open connection.
pub mod Tables
pub mod Interleaving
use qomicex_connector_rust.Base.{
  ℕ, Text, Bool, true, false, not, List, [], ◌∷◌, ◌++◌, ◌≡◌, contains, text_eq, if◌then◌else◌, Map,
}
use qomicex_connector_rust.Json.{JsonApi}
use qomicex_connector_rust.Models.Protocol.{ProtocolRequest}
use qomicex_connector_rust.Protocols.{ProtocolHandler}
use qomicex_connector_rust.Center.Registry.{
  ClientRegistry, empty_registry, register, cleanup, heartbeat_check, disconnect_machine,
}
use qomicex_connector_rust.Center.Connection.{Room, Round, serve_request}

-- A server that runs: the room, the clients whose tasks run, the texts that were sent as disconnect
-- events, and whether its token is cancelled.
pub record Serving (S : Type 0) : Type 0 where
  pub room : Room S
  pub clients : List Text
  pub events : List Text
  pub cancelled : Bool

-- The server behind its bind.
abbrev pub fresh_serving : {S : Type 0} → S → Serving S
fresh_serving shared = record {
  room = record { shared = shared; registry = empty_registry };
  clients = [];
  events = [];
  cancelled = false;
}

unfoldable pub without_client : Text → List Text → List Text
without_client id [] = []
without_client id (c ∷ cs) =
    let rest = without_client id cs in if text_eq c id then rest else c ∷ rest

module _ {S : Type 0} where
  with_registry : ClientRegistry → Serving S → Serving S
  with_registry r s = record s { room = record s.room { registry = r } }

  -- The task of a connection begins with its registration.
  unfoldable pub accept : (client_id ip : Text) (conn_ct : ℕ) → Serving S → Serving S
  unfolding with_registry
  accept client_id ip conn_ct s =
      record (with_registry (register client_id ip conn_ct s.room.registry) s) {
        clients = client_id ∷ s.clients;
      }

  -- The task of a connection ends with its cleanup, which sends an event.
  unfoldable pub finish : Text → Serving S → Serving S
  unfolding with_registry
  finish client_id s =
      let (message, r) = cleanup client_id s.room.registry in
      record (with_registry r s) {
        clients = without_client client_id s.clients;
        events = s.events ++ message ∷ [];
      }

  unfoldable pub check : ℕ → Serving S → Serving S
  unfolding with_registry
  check now s = with_registry (heartbeat_check now s.room.registry) s

  unfoldable pub kick : Text → Serving S → Serving S
  unfolding with_registry
  kick machine_id s = with_registry (disconnect_machine machine_id s.room.registry).1 s

  module _ (J : JsonApi) (protocols : Map (ProtocolHandler S)) where
    -- A connection answers one request.
    unfoldable pub answer : Text → Round → ProtocolRequest → Serving S → Serving S
    answer client_id round req s = record s {
      room = serve_request S J protocols client_id round req s.room;
    }

    pub data Step : Serving S → Serving S → Type 0 where
      accepts :
          {s : Serving S} (client_id ip : Text) (conn_ct : ℕ)
          → s.cancelled ≡ false
          → contains s.clients client_id ≡ false
          → Step s (accept client_id ip conn_ct s)
      answers :
          {s : Serving S} (client_id : Text) (round : Round) (req : ProtocolRequest)
          → contains s.clients client_id ≡ true
          → Step s (answer client_id round req s)
      finishes :
          {s : Serving S} (client_id : Text)
          → contains s.clients client_id ≡ true
          → Step s (finish client_id s)
      checks : {s : Serving S} (now : ℕ) → Step s (check now s)
      kicks : {s : Serving S} (machine_id : Text) → Step s (kick machine_id s)
      stops : {s : Serving S} → Step s (record s { cancelled = true })

    -- What a server comes to, however its connections interleave.
    pub data Served (shared : S) : Serving S → Type 0 where
      begin : Served shared (fresh_serving shared)
      next : {s s' : Serving S} → Served shared s → Step s s' → Served shared s'
