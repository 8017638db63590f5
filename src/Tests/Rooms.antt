-- ===== src/Tests/Rooms.antt =====
-- Connections and handlers of a room at concrete inputs.
use qomicex_connector_rust.Center.Room.{protocols_of}
use qomicex_connector_rust.Base.{take}
use qomicex_connector_rust.Base.{
  ℕ, ◌≡◌, refl, codes, true, false, List, [], ◌∷◌, ◌++◌, none, some, arith, lookup, text_eq,
  text_eq_iff,
}
use qomicex_connector_rust.Models.Protocol.{ProtocolRequest}
use qomicex_connector_rust.Core.Serializer.{type_text}
use qomicex_connector_rust.Core.Serializer.Stream.{eof}
use qomicex_connector_rust.Core.Serializer.Frames.{stream}
use qomicex_connector_rust.Protocols.{ProtocolHandler, response}
use qomicex_connector_rust.Center.Registry.{ClientRegistry, heartbeat_check}
use qomicex_connector_rust.Center.Registry.Timeouts.{overdue, Owns, Dropped, heartbeat_check_exact}
use qomicex_connector_rust.Center.Connection.{
  Room, Round, by_error, protocol_table, respond, serve_loop,
}
use qomicex_connector_rust.Center.Connection.Rounds.{answers, frames, serve_loop-frames}
use qomicex_connector_rust.Center.Room.{Shared}
use qomicex_connector_rust.Center.Room.Keys.{start-respond}
use qomicex_connector_rust.Center.Server.{
  TcpServer, Slot, opened, running, fresh_server, Reachable, begin, next, take_server, serve,
  center_disconnect, center_source_ip,
}
use qomicex_connector_rust.Center.Server.Reach.{Reachable-running}
use qomicex_connector_rust.Tests.Codec.{a_request, a_request-IsSendable}
use qomicex_connector_rust.Tests.Setting.{
  echo, toy_json, a_config, surroundings, nobody, a_room, a_room_started,
}

-- Two connections, of which the first one's ping is old.
abbrev two_clients : ClientRegistry
two_clients = record {
  last_heartbeat = (codes "a", 1000) ∷ [];
  active_clients = (codes "a", 1) ∷ (codes "b", 2) ∷ [];
  client_machine = [];
  client_ip = [];
  cancelled = λ t. false;
}

a-Owns : Owns two_clients (codes "a") 1
unfolding lookup text_eq
a-Owns = (refl, λ j e. ground (arith, text_eq_iff (codes "a") j))

-- The same with a machine that one of them has reported.
abbrev busy_registry : ClientRegistry
busy_registry = record two_clients { client_machine = (codes "a", codes "m1") ∷ [] }

abbrev five_handlers : List (ProtocolHandler (Shared (Unit {0})))
five_handlers = take 5 a_room.protocols

echo_last : a_room.protocols ≡ five_handlers ++ echo ∷ []
unfolding protocols_of
echo_last = refl

abbrev echo_request : ProtocolRequest
echo_request = record { namespace = codes "x"; request_type = codes "echo"; body = 5 ∷ [] }

echo_request_type : type_text echo_request ≡ echo.key
unfolding type_text
echo_request_type = refl

start-respond_example :
    respond
      (Shared (Unit {0}))
      (protocol_table (Shared (Unit {0})) a_room.protocols [])
      echo_request
      nobody
    ≡ (response 0 (5 ∷ []), nobody)
start-respond_example =
    start-respond toy_json surroundings a_config nobody a_room a_room_started five_handlers [] echo
      echo_request nobody echo_last echo_request_type

heartbeat_check_example :
    Dropped
      (overdue 20000 (lookup (codes "a") two_clients.last_heartbeat))
      (heartbeat_check 20000 two_clients)
      (codes "a")
      1
heartbeat_check_example = heartbeat_check_exact 20000 two_clients (codes "a") 1 (tt, tt) a-Owns refl

abbrev empty_room : Room (Unit {0})
empty_room = record { shared = tt; registry = two_clients }

abbrev calm : ℕ → Round
calm i = record { cancelled = false; silent = false; now = i; written = true }

serve_loop-frames_example :
    serve_loop
      (Unit {0})
      toy_json
      []
      (codes "c")
      calm
      (codes "broken")
      2
      0
      (stream
        (frames (Unit {0}) toy_json [] (codes "c") calm (codes "broken") (a_request ∷ []))
        eof)
      empty_room
    ≡ (
      (answers
          (Unit {0})
          toy_json
          []
          (codes "c")
          calm
          (codes "broken")
          0
          (a_request ∷ [])
          empty_room).0,
      (answers
          (Unit {0})
          toy_json
          []
          (codes "c")
          calm
          (codes "broken")
          0
          (a_request ∷ [])
          empty_room).1,
      some (by_error (codes "流提前结束: 期望读取 1 字节")),
    )
serve_loop-frames_example =
    serve_loop-frames (Unit {0}) toy_json [] (codes "c") calm (codes "broken") (a_request ∷ []) 2 0
      empty_room (a_request-IsSendable, tt) (refl, refl, refl, (refl, refl)) (omega arith)

-- A server that has a connection of the machine `m1`.
abbrev busy_server : TcpServer
busy_server = record { registry = busy_registry; listening = true }

abbrev running_slot : Slot
running_slot = record (opened 1 (λ t. false)) {
  tcp_server = none;
  task = running (some busy_server);
}

running_slot-Reachable : Reachable 1 running_slot
running_slot-Reachable =
    next (next (begin (λ t. false)) (take_server refl)) (serve fresh_server busy_server refl)

Reachable-running_example :
    (center_disconnect (codes "m1") running_slot ≡ (false, running_slot))
    × (center_source_ip (codes "m1") running_slot ≡ none)
Reachable-running_example =
    Reachable-running 1 running_slot (some busy_server) (codes "m1") running_slot-Reachable refl
