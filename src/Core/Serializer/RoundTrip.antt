-- ===== src/Core/Serializer/RoundTrip.antt =====
-- What the buffer parsers make of the frames that the program writes.
use qomicex_connector_rust.Base.{
  ℕ, suc, ◌+◌, ◌^◌, ◌<◌, ◌≤◌, ◌≡◌, ◌≢◌, ap, ◌∙◌, Text, Bytes, [], ◌∷◌, ◌++◌, some, length, take,
  arith, length-append, length-utf8_lossy, utf8_lossy, split_char_sound, Option-cases, inl, inr,
  split_char, zero, drop,
}
use qomicex_connector_rust.Base.Result.{ok, err, >>=_ensures}
use qomicex_connector_rust.Error.{Outcome}
use qomicex_connector_rust.Models.Protocol.{ProtocolRequest, ProtocolResponse}
use qomicex_connector_rust.Core.Serializer.{
  serialize_request, serialize_response, parse_request, parse_response, type_text, split_type_str,
  first_byte, read_exact,
}
use qomicex_connector_rust.Core.Serializer.Stream.{eof}
use qomicex_connector_rust.Core.Serializer.Frames.{
  IsSendable, deserialize_request_async-serialize_request,
  deserialize_response_async-serialize_response,
}
use qomicex_connector_rust.Core.Serializer.Reading.{
  value, value_of, parse_request-deserialize_request_async,
  parse_response-deserialize_response_async,
}

value-eq-some {ℓ} : {A : Type ℓ} (m : Outcome A) {a : A} → value m ≡ some a → m ≡ ok a
value-eq-some (ok b) h = cc
value-eq-some (err e) h = cc

-- A request with an ASCII type shorter than 256 characters, a namespace without `:` and a body
-- shorter than 4 GiB is parsed back from its frame, also where more bytes follow.
pub parse_request-serialize_request :
    (req : ProtocolRequest) (rest : Bytes)
    → IsSendable req
    → parse_request (serialize_request req ++ rest) ≡ ok req
parse_request-serialize_request req rest s =
    value-eq-some (parse_request (serialize_request req ++ rest)) (
      parse_request-deserialize_request_async (serialize_request req ++ rest) eof
      ∙ ap value_of (deserialize_request_async-serialize_request req rest eof s))

-- A response whose body is shorter than 4 GiB is parsed back from its frame, also where more bytes
-- follow.
pub parse_response-serialize_response :
    (resp : ProtocolResponse) (rest : Bytes)
    → length resp.body < 2 ^ 32
    → parse_response (serialize_response resp ++ rest) ≡ ok resp
parse_response-serialize_response resp rest s =
    value-eq-some (parse_response (serialize_response resp ++ rest)) (
      parse_response-deserialize_response_async (serialize_response resp ++ rest) eof
      ∙ ap value_of (deserialize_response_async-serialize_response resp rest eof s))

length-take_le : (n : ℕ) (xs : Bytes) → length (take n xs) ≤ n
length-take_le zero xs = omega arith
length-take_le (suc n) [] = omega arith
length-take_le (suc n) (x ∷ xs) = omega (arith, length-take_le n xs)

-- A read returns no more bytes than were asked for.
read_exact-le :
    (bytes : Bytes) (offset count : ℕ) (out : Bytes) (o : ℕ)
    → read_exact bytes offset count ≡ ok (out, o)
    → length out ≤ count
unfolding read_exact
read_exact-le bytes offset count out o h = ground (arith, length-take_le count (drop offset bytes))

length-split_type_str :
    (t a b : Text) → split_type_str t ≡ ok (a, b) → length t ≡ length a + suc (length b)
unfolding split_type_str
length-split_type_str t a b h = elim (Option-cases (split_char b':' t)) [
  | inl e ↦ ground arith
  | inr ((a', b'), e) ↦ ground (
    arith,
    ap length (split_char_sound b':' t {a = a'} {b = b'} e).0,
    length-append a' (b':' ∷ b'),
  )
]

read_first :
    (len : ℕ) (bytes t : Bytes) (o : ℕ)
    → read_exact (len ∷ bytes) 0 1 ≡ ok (t, o)
    → first_byte t ≡ len
unfolding read_exact
read_first len bytes t o h = ground arith

-- The request that a parser returns has a type that its length byte can count.
parse_request-short_type :
    (len : ℕ) (bytes : Bytes) (req : ProtocolRequest)
    → parse_request (len ∷ bytes) ≡ ok req
    → length (type_text req) ≤ len
unfolding parse_request
parse_request-short_type len bytes = >>=_ensures IsShort (read_exact frame 0 1) _ λ (t, o1) e1.
    >>=_ensures IsShort (read_exact frame o1 (first_byte t)) _ λ (type_bytes, o2) e2.
      >>=_ensures IsShort (read_exact frame o2 4) _ λ (len_buf, o3) e3.
        >>=_ensures IsShort (read_exact frame o3 _) _ λ (body, o4) e4.
          >>=_ensures IsShort (split_type_str (utf8_lossy type_bytes)) _ λ (a, b) e5 req e6.
            let e : req.namespace ≡ a = cc in
            let e' : req.request_type ≡ b = cc in
            rw (e, e')
              (omega (
                arith,
                length-append a (b':' ∷ b),
                length-split_type_str _ a b e5,
                length-utf8_lossy type_bytes,
                read_exact-le frame o1 (first_byte t) type_bytes o2 e2,
                read_first len bytes t o1 e1,
              ))
  where
    frame : Bytes
    frame = len ∷ bytes

    IsShort : ProtocolRequest → Type 0
    IsShort r = length (type_text r) ≤ len

-- A request whose type text is 256 characters or longer is not read back: the length byte has
-- wrapped around.
pub parse_request-oversize :
    (req : ProtocolRequest) (rest : Bytes)
    → 2 ^ 8 ≤ length (type_text req)
    → parse_request (serialize_request req ++ rest) ≢ ok req
unfolding serialize_request
parse_request-oversize req rest h e = omega (arith, parse_request-short_type _ _ req e)
