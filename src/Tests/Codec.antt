-- ===== src/Tests/Codec.antt =====
-- The codecs and the room codes at concrete inputs.
use qomicex_connector_rust.Base.{
  ℕ, zero, suc, strip_prefix, ◌^◌, ◌≤◌, ◌≡◌, ◌≢◌, refl, Text, Bytes, codes, true, [], ◌∷◌, ◌++◌,
  arith, length,
}
use qomicex_connector_rust.Base.Int.{divides, ◌-ℤ◌, ◌+ℤ◌}
use qomicex_connector_rust.Base.Result.{ok}
use qomicex_connector_rust.Models.Protocol.{ProtocolRequest, ProtocolResponse}
use qomicex_connector_rust.Models.RoomCode.{
  RoomCode, parse, captures, group, in_class, validate_checksum, encode8, checksum, find, char_at,
}
use qomicex_connector_rust.Models.RoomCode.Format.{
  IsGroup, layout, room, parse-layout, Found, parse_sound,
}
use qomicex_connector_rust.Models.RoomCode.Generate.{passes}
use qomicex_connector_rust.Core.Serializer.{parse_request, serialize_request, type_text}
use qomicex_connector_rust.Core.Serializer.Stream.{eof, deserialize_request_async}
use qomicex_connector_rust.Core.Serializer.Frames.{
  stream, IsSendable, deserialize_request_async-serialize_request,
}
use qomicex_connector_rust.Core.Serializer.Reading.{
  value, value_of, parse_request-deserialize_request_async,
}
use qomicex_connector_rust.Core.Serializer.RoundTrip.{parse_request-oversize}

abbrev pub a_request : ProtocolRequest
a_request = record { namespace = codes "c"; request_type = codes "ping"; body = 66 ∷ [] }

abbrev pub a_response : ProtocolResponse
a_response = record { status = 0; body = 7 ∷ 8 ∷ [] }

pub a_request-IsSendable : IsSendable a_request
unfolding type_text
a_request-IsSendable = record {
  ascii_namespace = ground arith;
  ascii_type = ground arith;
  no_colon = ground arith;
  short_type = omega arith;
  short_body = omega arith;
}

deserialize_request_example :
    deserialize_request_async (stream (serialize_request a_request ++ 1 ∷ []) eof)
    ≡ ok (a_request, stream (1 ∷ []) eof)
deserialize_request_example =
    deserialize_request_async-serialize_request a_request (1 ∷ []) eof a_request-IsSendable

abbrev some_bytes : Bytes
some_bytes = 3 ∷ b'a' ∷ b':' ∷ b'b' ∷ 0 ∷ 0 ∷ 0 ∷ 0 ∷ []

both_readers_example :
    value (parse_request some_bytes) ≡ value_of (deserialize_request_async (stream some_bytes eof))
both_readers_example = parse_request-deserialize_request_async some_bytes eof

abbrev zeros : ℕ → Text
zeros zero = []
zeros (suc n) = b'0' ∷ zeros n

abbrev long_request : ProtocolRequest
long_request = record { namespace = codes "c"; request_type = zeros 300; body = [] }

long_request_long : 2 ^ 8 ≤ length (type_text long_request)
unfolding type_text
long_request_long = omega arith

parse_request-oversize_example :
    parse_request (serialize_request long_request ++ []) ≢ ok long_request
parse_request-oversize_example = parse_request-oversize long_request [] long_request_long

g4j1-IsGroup : IsGroup (codes "G4J1")
unfolding in_class
g4j1-IsGroup = (refl, ground arith)

parse-layout_example :
    parse (layout (codes "G4J1") (codes "G4J1") (codes "G4J1") (codes "G4J1"))
    ≡ ok (room (codes "G4J1") (codes "G4J1") (codes "G4J1") (codes "G4J1"))
parse-layout_example =
    parse-layout (codes "G4J1") (codes "G4J1") (codes "G4J1") (codes "G4J1") g4j1-IsGroup
      g4j1-IsGroup g4j1-IsGroup g4j1-IsGroup

abbrev a_code : Text
a_code = codes "U/G4J1-JZUE-TVUE-XBUB"

abbrev a_room : RoomCode
a_room = room (codes "G4J1") (codes "JZUE") (codes "TVUE") (codes "XBUB")

a_code_parsed : parse a_code ≡ ok a_room
unfolding parse captures group in_class strip_prefix
a_code_parsed = refl

parse_sound_example :
    (gs : Text × Text × Text × Text) × Found a_code gs × (a_room ≡ room gs.0 gs.1 gs.2 gs.3)
parse_sound_example = parse_sound a_code a_room a_code_parsed

abbrev pub even_bytes : Bytes
even_bytes = 1 ∷ 1 ∷ 1 ∷ 1 ∷ 2 ∷ 2 ∷ 2 ∷ 2 ∷ []

pub even_bytes_pass : passes even_bytes ≡ true
unfolding validate_checksum checksum encode8 find char_at divides ◌-ℤ◌ ◌+ℤ◌
even_bytes_pass = refl
