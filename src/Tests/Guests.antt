-- ===== src/Tests/Guests.antt =====
-- A guest at concrete inputs.
use qomicex_connector_rust.Base.Result.{Result}
use qomicex_connector_rust.Base.{
  List, Bytes, take, ◌^◌, ◌<◌, ◌≡◌, refl, Text, codes, true, false, [], ◌∷◌, ◌++◌, Option, none,
  some, arith, length, utf8, join, decimal, strip_prefix, is_digit, parse_unsigned, from_be32,
  contains, text_eq, split, utf8_lossy,
}
use qomicex_connector_rust.Core.Serializer.Stream.{deserialize_response_async, read_exact_async}
use qomicex_connector_rust.Base.Result.{ok, err, is_ok}
use qomicex_connector_rust.Error.{Outcome, center_connection}
use qomicex_connector_rust.Models.Protocol.{is_success}
use qomicex_connector_rust.Core.Serializer.{serialize_response, type_text, first_byte, word}
use qomicex_connector_rust.Core.Discovery.{
  discover, scans, try_parse_center, as_center, hostname_port, digits_group, all_digits,
}
use qomicex_connector_rust.Protocols.{nul, ProtocolHandler}
use qomicex_connector_rust.Center.Room.{standard_keys, network_config, Shared}
use qomicex_connector_rust.Center.Room.Keys.{keys}
use qomicex_connector_rust.Guest.Tcp.{send, is_connected, connect, ending_of, incomplete}
use qomicex_connector_rust.Guest.Tcp.Laws.{idle, arriving, send_late}
use qomicex_connector_rust.Guest.Session.{Profile, Guest, new_guest}
use qomicex_connector_rust.Guest.Requests.{
  negotiate_protocols, send_player_ping, agree, profile_entry, pinged_id,
}
use qomicex_connector_rust.Guest.Joining.{
  Attempt, Way, connect_room, try_connect_once, guest_config,
}
use qomicex_connector_rust.Guest.Joining.Reach.{IsConnected, connect_room-IsConnected}
use qomicex_connector_rust.Tests.Codec.{a_request, a_response}
use qomicex_connector_rust.Tests.Setting.{toy_json, a_code, a_config, a_room}

abbrev pub profile : Profile
profile = record {
  player_name = codes "guest";
  machine_id = codes "m1";
  vendor = codes "v";
  custom_protocol_keys = codes "x:echo" ∷ codes "x:other" ∷ [];
  relay_nodes = none;
}

abbrev pub connected_guest : Guest
connected_guest = record new_guest { tcp = idle }

pub keys_short : length (utf8 (join nul (standard_keys ++ keys a_config.custom_protocols))) < 2 ^ 32
unfolding utf8 join
keys_short = omega arith

send_late_example :
    (let (outcome, waiting) = send a_request (arriving []) idle in
      (outcome ≡ err (center_connection (codes "读取响应超时: " ++ type_text a_request)))
      × (send a_request
            (arriving (serialize_response a_response ++ serialize_response a_response))
            waiting
          ≡ (ok a_response, record { stream = some (serialize_response a_response) })))
send_late_example = send_late a_request a_request a_response a_response (omega arith)

-- An attempt that is answered.
abbrev pub good_attempt : Attempt
good_attempt = record {
  connected = some (ok tt);
  ping_exchange = arriving (0 ∷ 0 ∷ 0 ∷ 0 ∷ 0 ∷ []);
  negotiation = arriving (0 ∷ 0 ∷ 0 ∷ 0 ∷ 0 ∷ []);
}

abbrev pub way : Way
way = record {
  elevated = true;
  resolve_bind_ip = none;
  easy_tier_start = λ config. ok tt;
  other_digit = λ c. false;
  nodes = λ n.
      record {
        virtual_ip = codes "10.144.144.1";
        hostname = a_room.config.hostname;
        node_id = codes "7";
      }
      ∷ [];
  wait_cancelled = λ n. false;
  direct = good_attempt;
  local_port = 4000;
  attempts = λ n. good_attempt;
  cancelled = λ n. false;
}

abbrev pub no_addr : Text → Option (Unit {0})
no_addr t = none

abbrev pub no_patch : Unit {0} × Unit {0} → Outcome (Unit {0})
no_patch addrs = ok tt

joined : (connect_room toy_json profile none no_addr no_patch way a_code new_guest).0 ≡ ok tt
unfolding discover scans try_parse_center as_center hostname_port digits_group all_digits is_digit
    parse_unsigned strip_prefix decimal from_be32 contains text_eq split utf8_lossy connect_room
    try_connect_once send is_connected connect ending_of incomplete deserialize_response_async
    read_exact_async first_byte word send_player_ping negotiate_protocols agree profile_entry
    pinged_id is_success network_config
joined = refl

connect_room-IsConnected_example :
    IsConnected (connect_room toy_json profile none no_addr no_patch way a_code new_guest).1
    × ((connect_room toy_json profile none no_addr no_patch way a_code new_guest).1.heartbeat
        ≡ true)
    × (is_ok (discover way.other_digit way.nodes way.wait_cancelled) ≡ true)
    × (is_ok (way.easy_tier_start (guest_config toy_json profile none no_addr no_patch way a_code))
        ≡ true)
connect_room-IsConnected_example =
    connect_room-IsConnected toy_json profile none no_addr no_patch way a_code new_guest joined

abbrev handlers : List (ProtocolHandler (Shared (Unit {0})))
handlers = take 5 a_room.protocols

abbrev agreed_guest : Guest
agreed_guest = record connected_guest { negotiated = codes "c:ping" ∷ codes "x:echo" ∷ [] }

abbrev as_bytes : Bytes → Result Text Bytes
as_bytes bytes = ok bytes
