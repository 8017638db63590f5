-- ===== src/Guest/Tcp.antt =====
-- crates/qomicex-connector/src/guest/tcp_client.rs. A connection is the bytes that have arrived on it and
-- are unread. What the network does while a request is under way comes as a record: whether the write
-- goes through, the bytes that arrive before the deadline, and how the stream ends before it, if it
-- does. A read that waits past the deadline has consumed what arrived.
pub mod Laws
use qomicex_connector_rust.Base.{
  Text, Bytes, codes, Bool, true, false, List, [], ◌∷◌, ◌++◌, Option, none, some,
}
use qomicex_connector_rust.Base.Result.{Result, ok, err}
use qomicex_connector_rust.Error.{Outcome, ScaffoldingError, center_connection}
use qomicex_connector_rust.Models.Protocol.{ProtocolRequest, ProtocolResponse}
use qomicex_connector_rust.Core.Serializer.{type_text}
use qomicex_connector_rust.Core.Serializer.Stream.{Stream, Ending, eof, deserialize_response_async}

pub record TcpClient : Type 0 where
  pub stream : Option Bytes

abbrev pub disconnected : TcpClient
disconnected = record { stream = none }

pub record Exchange : Type 0 where
  pub written : Result Text (Unit {0})
  pub arrives : Bytes
  pub ending : Option Ending

unfoldable pub is_connected : TcpClient → Bool
is_connected c = elim c.stream [ none ↦ false | some bytes ↦ true ]

unfoldable pub disconnect : TcpClient → TcpClient
disconnect c = disconnected

-- The connection attempt's own result is a parameter.
unfoldable pub connect : Text → Result Text (Unit {0}) → TcpClient → Outcome (Unit {0}) × TcpClient
connect address (ok u) c = (ok tt, record { stream = some [] })
connect address (err e) c =
    (err (center_connection (codes "无法连接到联机中心 " ++ address ++ codes ": " ++ e)), c)

-- The outcome of a read that was not completed.
unfoldable pub incomplete : Text → Option Ending → ScaffoldingError → ScaffoldingError
incomplete key none e = center_connection (codes "读取响应超时: " ++ key)
incomplete key (some ending) e = e

unfoldable pub ending_of : Option Ending → Ending
ending_of none = eof
ending_of (some ending) = ending

read_response : Text → Exchange → Bytes → Outcome ProtocolResponse × TcpClient
unfolding incomplete ending_of
read_response key ex unread =
    let st : Stream = record { pending = unread ++ ex.arrives; ending = ending_of ex.ending } in
    elim (deserialize_response_async st) [
      | ok (response, rest) ↦ (ok response, record { stream = some rest.pending })
      | err e ↦ (err (incomplete key ex.ending e), record { stream = some [] })
    ]

send_on : Text → Exchange → Option Bytes → Outcome ProtocolResponse × TcpClient
unfolding read_response
send_on key ex none = (err (center_connection (codes "未连接到联机中心")), disconnected)
send_on key ex (some unread) = elim ex.written [
  | err e ↦ (
    err (center_connection (codes "TCP 发送失败: " ++ key ++ codes ": " ++ e)),
    record { stream = some unread },
  )
  | ok u ↦ read_response key ex unread
]

unfoldable pub send : ProtocolRequest → Exchange → TcpClient → Outcome ProtocolResponse × TcpClient
unfolding send_on
send req ex c = send_on (type_text req) ex c.stream
