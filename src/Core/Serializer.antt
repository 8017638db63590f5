-- ===== src/Core/Serializer.antt =====
-- crates/qomicex-connector/src/core/protocol_serializer.rs: request and response frames, read from
-- a buffer with a cursor or from a stream.
pub mod Stream
pub mod Frames
pub mod Reading
pub mod RoundTrip
pub mod Consumption
use qomicex_connector_rust.Base.{
  ℕ, ◌+◌, ◌-◌, ◌%◌, ◌^◌, Text, Bytes, codes, List, [], ◌∷◌, ◌++◌, map, Option, none, some, length,
  take, drop, ltb, ◌==◌, if◌then◌else◌, decimal, utf8_lossy, split_char, be32, from_be32,
}
use qomicex_connector_rust.Base.Result.{Result, ok, err, ◌>>=◌}
use qomicex_connector_rust.Error.{Outcome, ScaffoldingError, protocol}
use qomicex_connector_rust.Models.Protocol.{ProtocolRequest, ProtocolResponse}

-- A character that is not ASCII becomes `?`.
unfoldable pub ascii_bytes : Text → Bytes
ascii_bytes s = map (λ c. if ltb c 0x80 then c else b'?') s

-- `format!("{namespace}:{request_type}")`
abbrev pub type_text : ProtocolRequest → Text
type_text req = req.namespace ++ b':' ∷ req.request_type

-- `as u8` and `as u32` drop the high bits.
unfoldable pub serialize_request : ProtocolRequest → Bytes
serialize_request req =
    let type_bytes = ascii_bytes (type_text req) in
    (length type_bytes % 2 ^ 8) ∷ (type_bytes ++ be32 (length req.body % 2 ^ 32) ++ req.body)

unfoldable pub serialize_response : ProtocolResponse → Bytes
serialize_response resp = resp.status ∷ (be32 (length resp.body % 2 ^ 32) ++ resp.body)

-- The bytes read, and the cursor behind them.
unfoldable pub read_exact : Bytes → ℕ → ℕ → Outcome (Bytes × ℕ)
read_exact bytes offset count =
    let remaining = length bytes - offset in
    if count == 0
    then ok ([], offset)
    else if ltb remaining count
    then err (
        protocol (
          codes "流提前结束: 期望读取 "
          ++ decimal count
          ++ codes " 字节，实际读取 "
          ++ decimal remaining
          ++ codes " 字节"))
    else ok (take count (drop offset bytes), offset + count)

or_invalid_type : Text → Option (Text × Text) → Outcome (Text × Text)
or_invalid_type type_str none = err (protocol (codes "无效的请求类型格式: " ++ type_str))
or_invalid_type type_str (some parts) = ok parts

-- The namespace and the request type, at the first `:`.
unfoldable pub split_type_str : Text → Outcome (Text × Text)
unfolding or_invalid_type
split_type_str type_str = or_invalid_type type_str (split_char b':' type_str)

-- `buf[0]`, of a buffer that `read_exact` has filled.
abbrev pub first_byte : Bytes → ℕ
first_byte [] = 0
first_byte (b ∷ bs) = b

-- `u32::from_be_bytes([buf[0], buf[1], buf[2], buf[3]])`
abbrev pub word : Bytes → ℕ
word (a ∷ b ∷ c ∷ d ∷ bs) = from_be32 a b c d
word bs = 0

unfoldable pub parse_request : Bytes → Outcome ProtocolRequest
parse_request bytes = do
  (type_len, o1) ← read_exact bytes 0 1
  (type_bytes, o2) ← read_exact bytes o1 (first_byte type_len)
  (len_buf, o3) ← read_exact bytes o2 4
  (body, o4) ← read_exact bytes o3 (word len_buf)
  (namespace, request_type) ← split_type_str (utf8_lossy type_bytes)
  ok (record { namespace = namespace; request_type = request_type; body = body })

unfoldable pub parse_response : Bytes → Outcome ProtocolResponse
parse_response bytes = do
  (status, o1) ← read_exact bytes 0 1
  (len_buf, o2) ← read_exact bytes o1 4
  (body, o3) ← read_exact bytes o2 (word len_buf)
  ok (record { status = first_byte status; body = body })
