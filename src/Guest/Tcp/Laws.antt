-- ===== src/Guest/Tcp/Laws.antt =====
-- What a request on a connection is answered.
use qomicex_connector_rust.Base.{
  ◌≡◌, refl, sym, ap, ◌∙◌, Bytes, codes, [], ◌++◌, append-nil, none, some, ◌^◌, ◌<◌, length, arith,
}
use qomicex_connector_rust.Base.Result.{ok, err}
use qomicex_connector_rust.Error.{center_connection}
use qomicex_connector_rust.Models.Protocol.{ProtocolRequest, ProtocolResponse}
use qomicex_connector_rust.Core.Serializer.{serialize_response, type_text}
use qomicex_connector_rust.Core.Serializer.Stream.{
  eof, deserialize_response_async, read_exact_async,
}
use qomicex_connector_rust.Core.Serializer.Frames.{
  deserialize_response_async-serialize_response, stream,
}
use qomicex_connector_rust.Guest.Tcp.{TcpClient, Exchange, send, ending_of, incomplete}

-- A connection with nothing unread.
abbrev pub idle : TcpClient
idle = record { stream = some [] }

-- An exchange in which the write goes through and `bytes` arrive.
abbrev pub arriving : Bytes → Exchange
arriving bytes = record { written = ok tt; arrives = bytes; ending = none }

-- If a frame stands at the front of what is unread and what arrives, the request is answered with its
-- response, and what is behind the frame stays unread.
send_front :
    (req : ProtocolRequest) (r : ProtocolResponse) (unread later rest : Bytes)
    → unread ++ later ≡ serialize_response r ++ rest
    → length r.body < 2 ^ 32
    → send req (arriving later) (record { stream = some unread })
      ≡ (ok r, record { stream = some rest })
unfolding send ending_of
send_front req r unread later rest e h =
    let parsed : deserialize_response_async (stream (unread ++ later) eof)
        ≡ ok (r, stream rest eof) =
      ap (λ bytes. deserialize_response_async (stream bytes eof)) e
      ∙ deserialize_response_async-serialize_response r rest eof h in
    ground arith

-- On a connection with nothing unread a request is answered with the response whose frame arrives,
-- if its body is shorter than 4 GiB, and then there is again nothing unread.
pub send-serialize_response :
    (req : ProtocolRequest) (r : ProtocolResponse)
    → length r.body < 2 ^ 32
    → send req (arriving (serialize_response r)) idle ≡ (ok r, idle)
send-serialize_response req r h =
    send_front req r [] (serialize_response r) [] (sym (append-nil (serialize_response r))) h

silent :
    (req : ProtocolRequest)
    → send req (arriving []) idle
      ≡ (err (center_connection (codes "读取响应超时: " ++ type_text req)), idle)
unfolding send ending_of incomplete deserialize_response_async read_exact_async
silent req = refl

-- If nothing arrives before the deadline of a request, it fails with a timeout. When its response,
-- with a body shorter than 4 GiB, arrives with the response to the next request behind it, it is
-- taken for the response to that request, whose own response stays unread.
pub send_late :
    (first second : ProtocolRequest) (late r : ProtocolResponse)
    → length late.body < 2 ^ 32
    → (let (outcome, waiting) = send first (arriving []) idle in
        (outcome ≡ err (center_connection (codes "读取响应超时: " ++ type_text first)))
        × (send second (arriving (serialize_response late ++ serialize_response r)) waiting
            ≡ (ok late, record { stream = some (serialize_response r) })))
send_late first second late r h = rw (silent first) (
  refl,
  send_front second late [] (serialize_response late ++ serialize_response r) (serialize_response r)
      refl h,
)
