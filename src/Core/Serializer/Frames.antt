-- ===== src/Core/Serializer/Frames.antt =====
-- Frames that are read back from a stream, whatever follows them on it.
use qomicex_connector_rust.Base.{
  ℕ, ◌%◌, ◌^◌, ◌<◌, ◌≡◌, refl, ◌∙◌, Text, Bytes, [], ◌∷◌, ◌++◌, length, take-append, drop-append,
  length-append, arith, All, All-append, IsAscii, Lacks, utf8_lossy-ascii, split_char-append,
  from_be32-be32, be32, append_assoc,
}
use qomicex_connector_rust.Base.Result.{ok}
use qomicex_connector_rust.Models.Protocol.{ProtocolRequest, ProtocolResponse}
use qomicex_connector_rust.Core.Serializer.{
  ascii_bytes, type_text, serialize_request, serialize_response, split_type_str, word,
}
use qomicex_connector_rust.Core.Serializer.Stream.{
  Stream, Ending, read_exact_async, deserialize_request_async, deserialize_response_async,
}

abbrev pub stream : Bytes → Ending → Stream
stream bytes e = record { pending = bytes; ending = e }

-- A read of as many bytes as `xs` has takes `xs` off the front.
pub read_exact_async-append :
    (xs ys : Bytes) (e : Ending)
    → read_exact_async (stream (xs ++ ys) e) (length xs) ≡ ok (xs, stream ys e)
unfolding read_exact_async
read_exact_async-append [] ys e = refl
read_exact_async-append (x ∷ xs) ys e =
    ground (arith, length-append xs ys, take-append xs ys, drop-append xs ys)

read_byte :
    (b : ℕ) (ys : Bytes) (e : Ending)
    → read_exact_async (stream (b ∷ ys) e) 1 ≡ ok (b ∷ [], stream ys e)
read_byte b ys e = read_exact_async-append (b ∷ []) ys e

read_word :
    (n : ℕ) (ys : Bytes) (e : Ending)
    → read_exact_async (stream (be32 n ++ ys) e) 4 ≡ ok (be32 n, stream ys e)
unfolding be32
read_word n ys e = read_exact_async-append (be32 n) ys e

word-be32 : (n : ℕ) → n < 2 ^ 32 → word (be32 (n % 2 ^ 32)) ≡ n
unfolding be32
word-be32 n h = from_be32-be32 (n % 2 ^ 32) (omega arith) ∙ omega arith

ascii_bytes-ascii : (s : Text) → All IsAscii s → ascii_bytes s ≡ s
unfolding ascii_bytes
ascii_bytes-ascii [] h = refl
ascii_bytes-ascii (c ∷ s) h = ground (arith, ascii_bytes-ascii s h.1)

split_type_str-type_text :
    (namespace request_type : Text)
    → Lacks b':' namespace
    → split_type_str (namespace ++ b':' ∷ request_type) ≡ ok (namespace, request_type)
unfolding split_type_str
split_type_str-type_text namespace request_type h =
    rw (split_char-append b':' namespace request_type h)

-- What a sender relies on: the type is ASCII, its namespace has no `:`, and the lengths fit.
pub record IsSendable (req : ProtocolRequest) : Type 0 where
  pub ascii_namespace : All IsAscii req.namespace
  pub ascii_type : All IsAscii req.request_type
  pub no_colon : Lacks b':' req.namespace
  pub short_type : length (type_text req) < 2 ^ 8
  pub short_body : length req.body < 2 ^ 32

type_text-IsAscii : (req : ProtocolRequest) → IsSendable req → All IsAscii (type_text req)
type_text-IsAscii req s =
    All-append IsAscii req.namespace (b':' ∷ req.request_type) s.ascii_namespace
      (omega arith, s.ascii_type)

-- A response whose body is shorter than 4 GiB is read back from a stream that begins with its
-- frame, and nothing behind the frame is touched.
pub deserialize_response_async-serialize_response :
    (resp : ProtocolResponse) (rest : Bytes) (e : Ending)
    → length resp.body < 2 ^ 32
    → deserialize_response_async (stream (serialize_response resp ++ rest) e)
      ≡ ok (resp, stream rest e)
unfolding deserialize_response_async serialize_response
deserialize_response_async-serialize_response resp rest e h =
    rw (read_byte, append_assoc, read_word, word-be32 (length resp.body) h, read_exact_async-append)

-- A sendable request, one with an ASCII type shorter than 256 characters, a namespace without `:`
-- and a body shorter than 4 GiB, is read back from a stream that begins with its frame, and
-- nothing behind the frame is touched.
pub deserialize_request_async-serialize_request :
    (req : ProtocolRequest) (rest : Bytes) (e : Ending)
    → IsSendable req
    → deserialize_request_async (stream (serialize_request req ++ rest) e) ≡ ok (req, stream rest e)
unfolding deserialize_request_async serialize_request
deserialize_request_async-serialize_request req rest e s =
    let short : length (type_text req) % 2 ^ 8 ≡ length (type_text req) =
      omega (arith, s.short_type) in
    rw (
      ascii_bytes-ascii (type_text req) (type_text-IsAscii req s),
      read_byte,
      short,
      append_assoc,
      append_assoc,
      read_exact_async-append (type_text req),
      read_word,
      word-be32 (length req.body) s.short_body,
      read_exact_async-append req.body,
      utf8_lossy-ascii (type_text req) (type_text-IsAscii req s),
      split_type_str-type_text req.namespace req.request_type s.no_colon,
    )
