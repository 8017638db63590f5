-- ===== src/Guest/Calls.antt =====
-- The calls of custom protocols: `send_json` and `send_json_req` against a room.
use qomicex_connector_rust.Base.{◌≡◌, refl, Text, Bytes, false, [], some, contains}
use qomicex_connector_rust.Base.Result.{Result, ok, err, is_ok}
use qomicex_connector_rust.Error.{Outcome}
use qomicex_connector_rust.Json.{JsonApi}
use qomicex_connector_rust.Models.Protocol.{ProtocolRequest}
use qomicex_connector_rust.Core.Serializer.{serialize_request}
use qomicex_connector_rust.Core.Serializer.Stream.{Stream, eof, deserialize_request_async}
use qomicex_connector_rust.Core.Serializer.Frames.{stream}
use qomicex_connector_rust.Center.Room.{start, Surroundings, CenterConfig, Shared, Started}
use qomicex_connector_rust.Guest.Tcp.{Exchange}
use qomicex_connector_rust.Guest.Keys.{ensure_negotiated}
use qomicex_connector_rust.Guest.Session.{Guest}
use qomicex_connector_rust.Guest.Requests.{send_json, send_json_req}
use qomicex_connector_rust.Guest.Dialogue.{answered}

-- A call of a protocol that was not negotiated fails whatever the network would do, and leaves the
-- guest and its connection alone, with a payload or without.
pub send_json-unnegotiated :
    {Resp : Type 0} (from_slice : Bytes → Result Text Resp) (key : Text)
    (payload : Result Text Bytes) (ex : Exchange) (g : Guest)
    → contains g.negotiated key ≡ false
    → (is_ok (send_json from_slice key ex g).0 ≡ false)
      × ((send_json from_slice key ex g).1 ≡ g)
      × (is_ok (send_json_req from_slice key payload ex g).0 ≡ false)
      × ((send_json_req from_slice key payload ex g).1 ≡ g)
unfolding send_json send_json_req ensure_negotiated
send_json-unnegotiated from_slice key payload ex g h = rw h (refl, refl, refl, refl)

abbrev pub call : Text → Text → Bytes → ProtocolRequest
call namespace request_type body = record {
  namespace = namespace;
  request_type = request_type;
  body = body;
}

module _ {C : Type 0} (J : JsonApi) (sur : Surroundings) (c : CenterConfig C) (s now : Shared C)
    (room : Started C) (started : start J sur c s ≡ ok room) where
  -- What comes back for what the room has read: the response, or the end of the connection.
  read_answer : Outcome (ProtocolRequest × Stream) → Exchange
  read_answer (ok (req, rest)) = answered J sur c s now room started req
  read_answer (err e) = record { written = ok tt; arrives = []; ending = some eof }

  -- The exchange in which the frame of the request goes to the room, which reads it and answers what it
  -- has read.
  unfoldable pub over_wire : ProtocolRequest → Exchange
  unfolding read_answer
  over_wire req = read_answer (deserialize_request_async (stream (serialize_request req) eof))
