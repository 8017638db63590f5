-- ===== src/Core/Serializer/Stream.antt =====
-- The readers of core/protocol_serializer.rs that take a stream.
use qomicex_connector_rust.Base.{
  ℕ, Text, Bytes, codes, [], ◌++◌, length, take, drop, ltb, ◌==◌, if◌then◌else◌, decimal,
  utf8_lossy,
}
use qomicex_connector_rust.Base.Result.{ok, err, ◌>>=◌}
use qomicex_connector_rust.Error.{Outcome, protocol}
use qomicex_connector_rust.Models.Protocol.{ProtocolRequest, ProtocolResponse}
use qomicex_connector_rust.Core.Serializer.{split_type_str, first_byte, word}

-- How a stream goes on behind the bytes that will arrive: its end, or an error with its message.
pub data Ending : Type 0 where
  eof : Ending
  failed : Text → Ending

-- A stream is the bytes that are still to arrive and its ending.
pub record Stream : Type 0 where
  pub pending : Bytes
  pub ending : Ending

-- The error of a read of `count` bytes that the stream cuts short.
abbrev pub cut_short : ℕ → Ending → Text
cut_short count eof = codes "流提前结束: 期望读取 " ++ decimal count ++ codes " 字节"
cut_short count (failed e) = codes "读取流失败: " ++ e

-- The bytes read, and the stream behind them.
unfoldable pub read_exact_async : Stream → ℕ → Outcome (Bytes × Stream)
read_exact_async r count =
    if count == 0
    then ok ([], r)
    else if ltb (length r.pending) count
    then err (protocol (cut_short count r.ending))
    else ok (take count r.pending, record r { pending = drop count r.pending })

unfoldable pub deserialize_request_async : Stream → Outcome (ProtocolRequest × Stream)
deserialize_request_async r = do
  (type_len, r1) ← read_exact_async r 1
  (type_bytes, r2) ← read_exact_async r1 (first_byte type_len)
  (len_buf, r3) ← read_exact_async r2 4
  (body, r4) ← read_exact_async r3 (word len_buf)
  (namespace, request_type) ← split_type_str (utf8_lossy type_bytes)
  ok (record { namespace = namespace; request_type = request_type; body = body }, r4)

unfoldable pub deserialize_response_async : Stream → Outcome (ProtocolResponse × Stream)
deserialize_response_async r = do
  (status, r1) ← read_exact_async r 1
  (len_buf, r2) ← read_exact_async r1 4
  (body, r3) ← read_exact_async r2 (word len_buf)
  ok (record { status = first_byte status; body = body }, r3)
