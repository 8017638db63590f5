-- ===== src/Tests/Beats.antt =====
-- The heartbeat and the mapped address of a guest at concrete inputs.
use qomicex_connector_rust.Base.{
  from_be32, ◌≡◌, refl, Text, Bytes, codes, true, List, [], ◌∷◌, ◌++◌, Option, none, some,
}
use qomicex_connector_rust.Base.Result.{Result, ok, err}
use qomicex_connector_rust.Models.Network.{default_config}
use qomicex_connector_rust.Guest.Tcp.{Exchange, is_connected, send}
use qomicex_connector_rust.Core.Serializer.Stream.{read_exact_async, deserialize_response_async}
use qomicex_connector_rust.Error.{center_connection}
use qomicex_connector_rust.Guest.Tcp.Laws.{arriving}
use qomicex_connector_rust.Guest.Session.{Guest, new_guest}
use qomicex_connector_rust.Guest.Joining.{connect_room, map_minecraft_port, leave}
use qomicex_connector_rust.Guest.Joining.Mapped.{IsMapped, some-ne-none}
use qomicex_connector_rust.Guest.Joining.Remapping.{map_minecraft_port-connect_room}
use qomicex_connector_rust.Guest.Joining.Reach.{IsConnected}
use qomicex_connector_rust.Guest.Beating.{Tick, interval, cancelled, waiting, ended, broken, beat}
use qomicex_connector_rust.Guest.Beating.Laws.{
  Answered, pings, no_more, one_more, Fails, unanswered, beat_lem,
}
use qomicex_connector_rust.Tests.Setting.{toy_json, a_code}
use qomicex_connector_rust.Tests.Guests.{way, profile, no_addr, no_patch, connected_guest}

abbrev mapped_guest : Guest
mapped_guest = record new_guest {
  config = some default_config;
  center = some (record { virtual_ip = codes "10.144.144.1"; port = 1027 });
  minecraft_host = some (codes "10.144.144.1");
  minecraft_port = some 25565;
}

mapped_guest-IsMapped : IsMapped (codes "10.144.144.1") 25565 mapped_guest
mapped_guest-IsMapped = (refl, refl, some-ne-none default_config, some-ne-none _)

map_minecraft_port-connect_room_example :
    map_minecraft_port toy_json profile none no_addr no_patch
      (arriving [])
      5000
      (connect_room toy_json profile none no_addr no_patch way a_code (leave mapped_guest)).1
    ≡ (
      ok (codes "10.144.144.1", 25565),
      (connect_room toy_json profile none no_addr no_patch way a_code (leave mapped_guest)).1,
    )
map_minecraft_port-connect_room_example =
    map_minecraft_port-connect_room (codes "10.144.144.1") 25565 toy_json profile none no_addr
      no_patch way a_code mapped_guest (arriving []) 5000 mapped_guest-IsMapped

-- A printer that prints the name.
abbrev to_vec : (name machine_id vendor : Text) → Option Text → Result Text Bytes
to_vec name machine_id vendor easytier_id = ok name

abbrev reply : Exchange
reply = arriving (0 ∷ 0 ∷ 0 ∷ 0 ∷ 0 ∷ [])

abbrev broken_pipe : Exchange
broken_pipe = record { written = err (codes "gone"); arrives = []; ending = none }

-- A ping that is answered.
abbrev answered_tick : List Tick
answered_tick = interval none reply ∷ []

connected_guest-IsConnected : IsConnected connected_guest
unfolding is_connected
connected_guest-IsConnected = refl

answered_request :
    pings to_vec profile (codes "guest") reply connected_guest
    ≡ (ok (record { status = 0; body = [] }), connected_guest)
unfolding send deserialize_response_async read_exact_async from_be32
answered_request = refl

failed_request :
    pings to_vec profile (codes "guest") broken_pipe connected_guest
    ≡ (err (center_connection (codes "TCP 发送失败: c:player_ping: gone")), connected_guest)
unfolding send
failed_request = refl

answered_tick-Answered : Answered to_vec profile answered_tick connected_guest connected_guest
answered_tick-Answered =
    one_more none reply (codes "guest") (record { status = 0; body = [] }) refl answered_request
      no_more

broken_pipe-Fails : Fails to_vec profile none broken_pipe connected_guest connected_guest
broken_pipe-Fails = unanswered (codes "guest") _ refl failed_request

beat_example :
    (beat to_vec profile answered_tick connected_guest ≡ (waiting, connected_guest))
    × (beat to_vec profile (answered_tick ++ cancelled ∷ answered_tick) connected_guest
        ≡ (ended, connected_guest))
    × (beat to_vec profile
          (answered_tick ++ interval none broken_pipe ∷ answered_tick)
          connected_guest
        ≡ (broken, record connected_guest { connection_lost = true }))
beat_example =
    beat_lem to_vec profile answered_tick answered_tick none broken_pipe connected_guest
      connected_guest connected_guest connected_guest-IsConnected answered_tick-Answered
      broken_pipe-Fails
