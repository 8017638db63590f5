-- ===== src/Core/Serializer/Reading.antt =====
-- The buffer parsers and the stream parsers accept the same frames.
use qomicex_connector_rust.Base.{
  ℕ, zero, suc, ◌+◌, ◌-◌, ◌≡◌, refl, Text, Bytes, [], ◌∷◌, Option, none, some, length, take, drop,
  arith, utf8_lossy,
}
use native.Mathlib.Nat.{zero-add, suc-add}
use qomicex_connector_rust.Base.Result.{ok, err, ◌>>=◌}
use qomicex_connector_rust.Error.{Outcome}
use qomicex_connector_rust.Models.Protocol.{ProtocolRequest}
use qomicex_connector_rust.Core.Serializer.{
  read_exact, parse_request, parse_response, split_type_str, first_byte, word,
}
use qomicex_connector_rust.Core.Serializer.Stream.{
  Stream, Ending, read_exact_async, deserialize_request_async, deserialize_response_async,
}
use qomicex_connector_rust.Core.Serializer.Frames.{stream}

pub length-drop : (n : ℕ) (xs : Bytes) → length (drop n xs) ≡ length xs - n
length-drop zero xs = omega arith
length-drop (suc n) [] = omega arith
length-drop (suc n) (x ∷ xs) = omega (arith, length-drop n xs)

drop-nil : (n : ℕ) → drop {A = ℕ} n [] ≡ []
drop-nil zero = refl
drop-nil (suc n) = refl

drop-drop : (m n : ℕ) (xs : Bytes) → drop n (drop m xs) ≡ drop (m + n) xs
drop-drop zero n xs = rw zero-add
drop-drop (suc m) n [] = rw (drop-nil, drop-nil)
drop-drop (suc m) n (x ∷ xs) = rw suc-add (drop-drop m n xs)

-- What a parser returns, without the message of an error.
abbrev pub value {ℓ} : {A : Type ℓ} → Outcome A → Option A
value (ok a) = some a
value (err e) = none

-- The same for a parser that returns the rest of the stream too.
abbrev pub value_of {ℓ} : {A : Type ℓ} → Outcome (A × Stream) → Option A
value_of (ok (a, r)) = some a
value_of (err e) = none

module _ {ℓ} {A : Type ℓ} (bytes : Bytes) (e : Ending) where
  -- A read at the cursor and a read of the rest agree, and so do the parsers that go on from them.
  read_agrees :
      (offset count : ℕ) (f : Bytes × ℕ → Outcome A) (g : Bytes × Stream → Outcome (A × Stream))
      → ((out : Bytes) (o : ℕ) → value (f (out, o)) ≡ value_of (g (out, stream (drop o bytes) e)))
      → value (read_exact bytes offset count >>= f)
        ≡ value_of (read_exact_async (stream (drop offset bytes) e) count >>= g)
  unfolding read_exact read_exact_async
  read_agrees offset count f g agree = ground (
    arith,
    length-drop offset bytes,
    drop-drop offset count bytes,
    agree [] offset,
    agree (take count (drop offset bytes)) (offset + count),
  )

abbrev request : Bytes → Text × Text → ProtocolRequest
request body (a, b) = record { namespace = a; request_type = b; body = body }

split_agrees :
    (t : Text) (body : Bytes) (r : Stream)
    → value (split_type_str t >>= λ p. ok (request body p))
      ≡ value_of (split_type_str t >>= λ p. ok (request body p, r))
unfolding split_type_str
split_agrees t body r = ground arith

-- On the same bytes, however the stream ends behind them, the parser of a buffer and that of a
-- stream return the same response or both return an error.
pub parse_response-deserialize_response_async :
    (bytes : Bytes) (e : Ending)
    → value (parse_response bytes) ≡ value_of (deserialize_response_async (stream bytes e))
unfolding parse_response deserialize_response_async
parse_response-deserialize_response_async bytes e = read_agrees bytes e 0 1 _ _ λ status o1.
    read_agrees bytes e o1 4 _ _
      λ len_buf o2. read_agrees bytes e o2 (word len_buf) _ _ λ body o3. refl

-- On the same bytes, however the stream ends behind them, the parser of a buffer and that of a
-- stream return the same request or both return an error.
pub parse_request-deserialize_request_async :
    (bytes : Bytes) (e : Ending)
    → value (parse_request bytes) ≡ value_of (deserialize_request_async (stream bytes e))
unfolding parse_request deserialize_request_async
parse_request-deserialize_request_async bytes e = read_agrees bytes e 0 1 _ _ λ type_len o1.
    read_agrees bytes e o1 (first_byte type_len) _ _ λ type_bytes o2.
      read_agrees bytes e o2 4 _ _ λ len_buf o3.
        read_agrees bytes e o3 (word len_buf) _ _
          λ body o4. split_agrees (utf8_lossy type_bytes) body _
