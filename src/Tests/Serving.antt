-- ===== src/Tests/Serving.antt =====
-- A server with two connections at concrete inputs.
use qomicex_connector_rust.Base.{refl, codes, true, false, contains, text_eq, [], Map}
use qomicex_connector_rust.Protocols.{ProtocolHandler}
use qomicex_connector_rust.Center.Connection.{Round, protocol_table}
use qomicex_connector_rust.Center.Room.{Shared}
use qomicex_connector_rust.Center.Accept.{
  Serving, fresh_serving, accept, finish, answer, check, Served, begin, next, accepts, answers,
  finishes, checks,
}
use qomicex_connector_rust.Center.Accept.Interleaving.{IsOpenOnly, Served-IsOpenOnly}
use qomicex_connector_rust.Tests.Setting.{toy_json, nobody, a_room}
use qomicex_connector_rust.Tests.Codec.{a_request}

abbrev table : Map (ProtocolHandler (Shared (Unit {0})))
table = protocol_table (Shared (Unit {0})) a_room.protocols []

abbrev round : Round
round = record { cancelled = false; silent = false; now = 5; written = true }

abbrev two_connected : Serving (Shared (Unit {0}))
two_connected =
    accept (codes "b") (codes "10.0.0.2") 2
      (accept (codes "a") (codes "10.0.0.1") 1 (fresh_serving nobody))

abbrev one_left : Serving (Shared (Unit {0}))
one_left =
    check 20000
      (finish (codes "a") (answer toy_json table (codes "b") round a_request two_connected))

was_served : Served toy_json table nobody one_left
unfolding accept contains text_eq answer
was_served =
    next
      (next
        (next
          (next (next begin (accepts (codes "a") (codes "10.0.0.1") 1 refl refl))
            (accepts (codes "b") (codes "10.0.0.2") 2 refl refl))
          (answers (codes "b") round a_request refl))
        (finishes (codes "a") refl))
      (checks 20000)

Served-IsOpenOnly_example : IsOpenOnly one_left
Served-IsOpenOnly_example = Served-IsOpenOnly toy_json table nobody one_left was_served
