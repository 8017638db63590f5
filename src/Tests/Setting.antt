-- ===== src/Tests/Setting.antt =====
-- A room, its surroundings and a JSON library to run the program in.
use qomicex_connector_rust.Base.{
  ◌≡◌, refl, Text, codes, false, [], ◌∷◌, none, some, ltb, contains, text_eq,
}
use qomicex_connector_rust.Base.Result.{ok}
use qomicex_connector_rust.Json.{JsonApi}
use qomicex_connector_rust.Models.RoomCode.{RoomCode}
use qomicex_connector_rust.Models.Player.{PlayerInfo, guest, host}
use qomicex_connector_rust.Protocols.{ProtocolHandler, response, answering}
use qomicex_connector_rust.Center.Players.{host_joins}
use qomicex_connector_rust.Center.Room.{
  Surroundings, CenterConfig, Shared, Started, start, scan, scan_port, check_keys, protocols_of,
  network_config,
}

-- A library whose values are texts and whose objects are empty.
abbrev pub toy_json : JsonApi
toy_json = record {
  Value = Text;
  from_slice = λ bytes. ok bytes;
  get = λ v key. none;
  as_str = λ v. some v;
  as_i64 = λ v. none;
  as_u64 = λ v. none;
  as_f64_text = λ v. none;
  as_array = λ v. none;
  is_object = λ v. false;
  entry_to_vec = λ entry. ok [];
  entries_to_vec = λ entries. ok [];
}

abbrev pub a_code : RoomCode
a_code = record {
  raw = codes "U/G4J1-JZUE-TVUE-XBUB";
  network_name_part = codes "G4J1-JZUE";
  secret_part = codes "TVUE-XBUB";
}

abbrev pub echo : ProtocolHandler (Shared (Unit {0}))
echo = answering (Shared (Unit {0})) (codes "x:echo") (λ req. response 0 req.body)

abbrev pub a_config : CenterConfig (Unit {0})
a_config = record {
  room_code = a_code;
  player_name = codes "host";
  machine_id = codes "m0";
  vendor = codes "v";
  minecraft_port = 25565;
  relay_nodes = none;
  custom_protocols = echo ∷ [];
  player_ping_handler = none;
}

-- The first two ports are taken.
abbrev pub surroundings : Surroundings
surroundings = record {
  bindable = λ p. ltb 1026 p;
  is_elevated = false;
  resolve_bind_ip = none;
  easy_tier_start = λ config. ok (some (codes "7"));
}

abbrev pub nobody : Shared (Unit {0})
nobody = record { players = record { list = []; receivers = 0; notified = none }; custom = tt }

abbrev pub a_room : Started (Unit {0})
a_room = record {
  tcp_port = 1027;
  protocols = protocols_of toy_json a_config;
  config = network_config toy_json surroundings 1027 a_config;
  shared = record nobody {
    players = host_joins (codes "host") (codes "m0") (some (codes "7")) (codes "v") nobody.players;
  };
}

pub a_room_started : start toy_json surroundings a_config nobody ≡ ok a_room
unfolding start scan_port scan check_keys contains text_eq
a_room_started = refl

abbrev pub host_player : PlayerInfo
host_player = record {
  name = codes "host";
  machine_id = codes "m0";
  easytier_id = none;
  vendor = codes "v";
  kind = host;
}

abbrev pub guest_player : PlayerInfo
guest_player = record {
  name = codes "guest";
  machine_id = codes "m1";
  easytier_id = none;
  vendor = codes "v";
  kind = guest;
}
