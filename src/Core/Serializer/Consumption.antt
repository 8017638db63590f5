-- ===== src/Core/Serializer/Consumption.antt =====
-- A request that is read takes at least one byte off the stream.
use qomicex_connector_rust.Base.{ℕ, ◌+◌, ◌<◌, ◌≡◌, Bytes, arith, length, utf8_lossy}
use qomicex_connector_rust.Base.Result.{ok, >>=_ensures}
use qomicex_connector_rust.Models.Protocol.{ProtocolRequest}
use qomicex_connector_rust.Core.Serializer.{split_type_str, first_byte, word}
use qomicex_connector_rust.Core.Serializer.Stream.{
  Stream, read_exact_async, deserialize_request_async,
}
use qomicex_connector_rust.Core.Serializer.Reading.{length-drop}

length-read_exact_async :
    (r : Stream) (count : ℕ) (out : Bytes) (r' : Stream)
    → read_exact_async r count ≡ ok (out, r')
    → length r'.pending + count ≡ length r.pending
unfolding read_exact_async
length-read_exact_async r count out r' h = ground (arith, length-drop count r.pending)

pub length-deserialize_request_async :
    (r : Stream) (req : ProtocolRequest) (r' : Stream)
    → deserialize_request_async r ≡ ok (req, r')
    → length r'.pending < length r.pending
unfolding deserialize_request_async
length-deserialize_request_async r req r' =
    >>=_ensures IsShorter (read_exact_async r 1) _
      (λ (t, r1) e1.
        >>=_ensures IsShorter (read_exact_async r1 (first_byte t)) _ λ (type_bytes, r2) e2.
          >>=_ensures IsShorter (read_exact_async r2 4) _ λ (len_buf, r3) e3.
            >>=_ensures IsShorter (read_exact_async r3 (word len_buf)) _ λ (body, r4) e4.
              >>=_ensures IsShorter (split_type_str (utf8_lossy type_bytes)) _ λ parts e5 q e6.
                let e : r4 ≡ q.1 = cc in
                rw (← e) (
                  omega (
                    arith,
                    length-read_exact_async r 1 t r1 e1,
                    length-read_exact_async r1 (first_byte t) type_bytes r2 e2,
                    length-read_exact_async r2 4 len_buf r3 e3,
                    length-read_exact_async r3 (word len_buf) body r4 e4,
                  )))
      (req, r')
  where
    IsShorter : ProtocolRequest × Stream → Type 0
    IsShorter p = length p.1.pending < length r.pending
