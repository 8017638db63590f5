-- ===== src/Tests/Meeting.antt =====
-- A guest and a room that meet, at concrete inputs.
use qomicex_connector_rust.Base.{
  ltb, ◌≡◌, refl, codes, [], ◌∷◌, none, some, if◌then◌else◌, text_eq, contains,
}
use qomicex_connector_rust.Base.Result.{ok}
use qomicex_connector_rust.Center.Players.{host_joins}
use qomicex_connector_rust.Center.Room.{
  Shared, Started, start, scan, scan_port, check_keys, protocols_of, network_config,
}
use qomicex_connector_rust.Core.Discovery.{CenterDiscoveryResult}
use qomicex_connector_rust.Models.Network.{EasyTierNode}
use qomicex_connector_rust.Guest.Session.{Guest}
use qomicex_connector_rust.Guest.Joining.{Way}
use qomicex_connector_rust.Guest.Meeting.{negotiated_with}
use qomicex_connector_rust.Guest.Requests.{center_request}
use qomicex_connector_rust.Guest.Dialogue.{answered}
use qomicex_connector_rust.Tests.Setting.{a_config, surroundings, nobody, host_player, guest_player}
use qomicex_connector_rust.Tests.Guests.{profile, way}
use qomicex_connector_rust.Tests.Printing.{a_json, a_serde}

abbrev room : Started (Unit {0})
room = record {
  tcp_port = 1027;
  protocols = protocols_of a_json a_config;
  config = network_config a_json surroundings 1027 a_config;
  shared = record nobody {
    players = host_joins (codes "host") (codes "m0") (some (codes "7")) (codes "v") nobody.players;
  };
}

room_started : start a_json surroundings a_config nobody ≡ ok room
unfolding start scan_port scan check_keys contains text_eq
room_started = refl

abbrev both : Shared (Unit {0})
both = record {
  players = record { list = host_player ∷ guest_player ∷ []; receivers = 0; notified = none };
  custom = tt;
}

abbrev room_node : EasyTierNode
room_node = record {
  virtual_ip = codes "10.144.144.1";
  hostname = room.config.hostname;
  node_id = codes "7";
}

-- The room's node is seen at the third scan.
abbrev meeting : Way
meeting = record way {
  nodes = λ n. if ltb n 2 then [] else room_node ∷ [];
  direct = record {
    connected = some (ok tt);
    ping_exchange =
        answered a_json surroundings a_config nobody both room room_started
          (center_request (codes "player_ping") (1 ∷ []));
    negotiation =
        negotiated_with a_json a_serde surroundings a_config nobody both room room_started (1 ∷ [])
          profile;
  };
}

abbrev the_center : CenterDiscoveryResult
the_center = record { virtual_ip = codes "10.144.144.1"; port = 1027 }
