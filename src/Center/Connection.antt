-- ===== src/Center/Connection.antt =====
-- `handle_client` of crates/qomicex-connector/src/center/client_conn.rs, and the protocol table of
-- tcp_server.rs. What the environment decides in each round of the loop comes as a record: whether
-- one of the tokens is cancelled before a request is complete; whether, if not, the client stays silent
-- on an open connection, so that neither a request nor the end of the stream ever comes; the time of the
-- answer, and whether the answer can be written. Between two rounds other connections may change the room; a theorem
-- about one round holds for every room.
pub mod Rounds
pub mod Isolation
use qomicex_connector_rust.Base.{
  ℕ, zero, suc, ◌+◌, Text, Bytes, codes, Bool, true, false, ◌&&◌, List, [], ◌∷◌, ◌++◌, Option, none,
  some, length, if◌then◌else◌, text_eq, utf8, Map, lookup, insert,
}
use qomicex_connector_rust.Base.Result.{Result, ok, err}
use qomicex_connector_rust.Error.{Outcome, ScaffoldingError, fmt}
use qomicex_connector_rust.Models.Protocol.{ProtocolRequest, ProtocolResponse, is_success}
use qomicex_connector_rust.Json.{JsonApi}
use qomicex_connector_rust.Protocols.{ProtocolHandler, response, value_to_string}
use qomicex_connector_rust.Core.Serializer.{type_text, serialize_response}
use qomicex_connector_rust.Core.Serializer.Stream.{Stream, deserialize_request_async}
use qomicex_connector_rust.Center.Registry.{ClientRegistry, register, record_heartbeat, cleanup}

-- The handlers' shared state and the connection tables.
pub record Room (S : Type 0) : Type 0 where
  pub shared : S
  pub registry : ClientRegistry

pub record Round : Type 0 where
  pub cancelled : Bool
  pub silent : Bool
  pub now : ℕ
  pub written : Bool

-- How a connection's loop ended: by a token, or by an error of the stream or of a frame; or that it has
-- not, and waits for the client.
pub data Closing : Type 0 where
  by_token : Closing
  by_error : Text → Closing
  waits : Closing

-- Whether the loop was left, so that the end of `handle_client` runs.
unfoldable pub has_left : Option Closing → Bool
has_left none = false
has_left (some waits) = false
has_left (some by_token) = true
has_left (some (by_error e)) = true

module _ (S : Type 0) where
  -- `TcpServer::new`: a later handler of the same key replaces an earlier one.
  unfoldable pub protocol_table :
      List (ProtocolHandler S) → Map (ProtocolHandler S) → Map (ProtocolHandler S)
  protocol_table [] table = table
  protocol_table (p ∷ ps) table = protocol_table ps (insert p.key p table)

  dispatch : Option (ProtocolHandler S) → ProtocolRequest → S → ProtocolResponse × S
  dispatch none req s = (response 255 (utf8 (codes "未知协议: " ++ type_text req)), s)
  dispatch (some handler) req s = handler.handle req s

  -- The response to a request, and the shared state after it.
  unfoldable pub respond : Map (ProtocolHandler S) → ProtocolRequest → S → ProtocolResponse × S
  unfolding dispatch
  respond protocols req s = dispatch (lookup (type_text req) protocols) req s

  module _ (J : JsonApi) where
    reported : Result Text J.Value → Option Text
    reported (err e) = none
    reported (ok root) = elim (J.get root (codes "machine_id")) [
      | none ↦ none
      | some mid ↦ elim (value_to_string J mid) [ none ↦ some [] | some t ↦ some t ]
    ]

    -- The machine id in the body of a ping.
    unfoldable pub machine_id_of : Bytes → Option Text
    unfolding reported
    machine_id_of body = reported (J.from_slice body)

    -- The tables behind an answer that was written.
    unfoldable pub after_response :
        Text → ℕ → ProtocolRequest → ProtocolResponse → ClientRegistry → ClientRegistry
    after_response client_id now req resp r =
        if text_eq (type_text req) (codes "c:player_ping") && is_success resp
        then record_heartbeat client_id now (machine_id_of req.body) r
        else r

    module _ (protocols : Map (ProtocolHandler S)) (client_id : Text) where
      -- The room after a request, where the answer can be written or not.
      unfoldable pub serve_request : Round → ProtocolRequest → Room S → Room S
      serve_request round req room =
          let (resp, s) = respond protocols req room.shared in
          record {
            shared = s;
            registry =
                (if round.written
                  then after_response client_id round.now req resp room.registry
                  else room.registry);
          }

      -- The loop, on fuel, with what it writes and how it ends; `none` where the fuel ran out.
      unfoldable pub serve_loop :
          (ℕ → Round)
          → (write_error : Text) → ℕ
          → ℕ
          → Stream
          → Room S
          → Bytes × Room S × Option Closing
      serve_loop rounds write_error zero i stream room = ([], room, none)
      serve_loop rounds write_error (suc fuel) i stream room = elim (rounds i).cancelled [
        | true ↦ ([], room, some by_token)
        | false ↦ elim (rounds i).silent [
          | true ↦ ([], room, some waits)
          | false ↦ elim (deserialize_request_async stream) [
            | err e ↦ ([], room, some (by_error (fmt e)))
            | ok (req, stream') ↦
                let frame = serialize_response (respond protocols req room.shared).0 in
                let room' = serve_request (rounds i) req room in
                let (out, end, closing) =
                  serve_loop rounds write_error fuel (suc i) stream' room' in
                elim (rounds i).written [
                  | false ↦ ([], room', some (by_error write_error))
                  | true ↦ (frame ++ out, end, closing)
                ]
          ]
        ]
      ]

      -- The end of `handle_client`, behind its loop.
      leave_loop : Bytes × Room S × Option Closing → Bytes × Room S × Option Text × Option Closing
      unfolding has_left
      leave_loop (out, end, closing) = elim (has_left closing) [
        | false ↦ (out, end, none, closing)
        | true ↦
            let (message, registry) = cleanup client_id end.registry in
            (out, record end { registry = registry }, some message, closing)
      ]

      -- The whole of `handle_client`: the bytes written, the room, the disconnect event, and how the
      -- loop ended. A loop that waits leaves the room as it is, without the event.
      unfoldable pub handle_client :
          (ip : Text)
          → (conn_ct : ℕ) → (ℕ → Round)
          → (write_error : Text) → Stream
          → Room S
          → Bytes × Room S × Option Text × Option Closing
      unfolding leave_loop
      handle_client ip conn_ct rounds write_error stream room =
          let start = record room { registry = register client_id ip conn_ct room.registry } in
          leave_loop (serve_loop rounds write_error (suc (length stream.pending)) 0 stream start)
