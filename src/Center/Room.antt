-- ===== src/Center/Room.antt =====
-- `ScaffoldingCenter::start` of crates/qomicex-connector/src/center/scaffolding_center.rs: the port, the
-- keys, the handlers and the network configuration of a room. Which ports can be bound, the process's
-- privileges, the bind address and EasyTier's answers are parameters.
pub mod Parts
pub mod Ports
pub mod Keys
use qomicex_connector_rust.Base.{
  ℕ, zero, suc, Text, codes, Bool, true, false, not, List, [], ◌∷◌, ◌++◌, map, Option, none, some,
  contains, decimal, if◌then◌else◌, Map,
}
use qomicex_connector_rust.Base.Result.{Result, ok, err, ◌>>=◌, ◌>>◌}
use qomicex_connector_rust.Error.{Outcome, ScaffoldingError, protocol}
use qomicex_connector_rust.Json.{JsonApi}
use qomicex_connector_rust.Models.Player.{PlayerInfo}
use qomicex_connector_rust.Models.Network.{NetworkConfig, default_config}
use qomicex_connector_rust.Models.RoomCode.{
  RoomCode, easy_tier_network_name, easy_tier_network_secret,
}
use qomicex_connector_rust.Core.Discovery.{host_prefix}
use qomicex_connector_rust.Protocols.{
  ProtocolHandler, ping_protocol, protocols_protocol, server_port_protocol, player_ping_protocol,
  player_profiles_list_protocol,
}
use qomicex_connector_rust.Center.Players.{Players, on_player_ping_impl, host_joins, get_players}

-- The first of the `n` ports from `p` on that can be bound, or else 25000.
unfoldable pub scan : (ℕ → Bool) → ℕ → ℕ → ℕ
scan bindable zero p = 25000
scan bindable (suc n) p = elim (bindable p) [ true ↦ p | false ↦ scan bindable n (suc p) ]

-- The ports `1025..65535`, without the last one.
unfoldable pub scan_port : (ℕ → Bool) → ℕ
scan_port bindable = scan bindable 64510 1025

abbrev pub standard_keys : List Text
standard_keys =
    codes "c:ping"
    ∷ codes "c:protocols"
    ∷ codes "c:server_port"
    ∷ codes "c:player_ping"
    ∷ codes "c:player_profiles_list"
    ∷ codes "c:player_easytier_id"
    ∷ []

-- What the handlers of a room share: the player list, and whatever the custom handlers keep.
pub record Shared (C : Type 0) : Type 0 where
  pub players : Players
  pub custom : C

-- What `ScaffoldingCenter::new` is given, and the hook of `set_player_ping_handler`.
pub record CenterConfig (C : Type 0) : Type 0 where
  pub room_code : RoomCode
  pub player_name : Text
  pub machine_id : Text
  pub vendor : Text
  pub minecraft_port : ℕ
  pub relay_nodes : Option (List Text)
  pub custom_protocols : List (ProtocolHandler (Shared C))
  pub player_ping_handler : Option (PlayerInfo → Shared C → Bool × Shared C)

-- What the surroundings answer to `start`: the network's start gives the node's id or an error.
pub record Surroundings : Type 0 where
  pub bindable : ℕ → Bool
  pub is_elevated : Bool
  pub resolve_bind_ip : Option Text
  pub easy_tier_start : NetworkConfig → Outcome (Option Text)

pub record Started (C : Type 0) : Type 0 where
  pub tcp_port : ℕ
  pub protocols : List (ProtocolHandler (Shared C))
  pub config : NetworkConfig
  pub shared : Shared C

-- The duplicate check over the custom keys, with the keys seen so far.
unfoldable pub check_keys : List Text → List Text → Outcome (Unit {0})
check_keys seen [] = ok tt
check_keys seen (key ∷ keys) =
    let rest = check_keys (seen ++ key ∷ []) keys in
    if contains seen key then err (protocol (codes "自定义协议键冲突: " ++ key)) else rest

module _ {C : Type 0} (J : JsonApi) where
  -- The hook decides about a ping, or it is accepted and the player joins.
  unfoldable pub on_player_ping :
      Option (PlayerInfo → Shared C → Bool × Shared C) → PlayerInfo → Shared C → Bool × Shared C
  on_player_ping (some handler) info s = handler info s
  on_player_ping none info s = (true, record s { players = on_player_ping_impl info s.players })

  custom_keys : CenterConfig C → List Text
  custom_keys c = map (λ p. p.key) c.custom_protocols

  unfoldable pub protocols_of : CenterConfig C → List (ProtocolHandler (Shared C))
  unfolding custom_keys
  protocols_of c =
      (ping_protocol (Shared C)
        ∷ protocols_protocol (Shared C) (standard_keys ++ custom_keys c)
        ∷ server_port_protocol (Shared C) c.minecraft_port
        ∷ player_ping_protocol J (Shared C) (on_player_ping c.player_ping_handler)
        ∷ player_profiles_list_protocol J (Shared C) (λ s. get_players s.players)
        ∷ [])
      ++ c.custom_protocols

  unfoldable pub network_config : Surroundings → ℕ → CenterConfig C → NetworkConfig
  network_config sur tcp_port c = record default_config {
    network_name = easy_tier_network_name c.room_code;
    network_secret = easy_tier_network_secret c.room_code;
    hostname = host_prefix ++ decimal tcp_port;
    no_tun = not sur.is_elevated;
    ipv4 = some (codes "10.144.144.1");
    dhcp = false;
    tcp_whitelist = decimal tcp_port ∷ decimal c.minecraft_port ∷ [];
    relay_nodes = c.relay_nodes;
    bind_ip = sur.resolve_bind_ip;
  }

  -- The room that `start` leaves behind. An error of the network comes after the server's start.
  unfoldable pub start : Surroundings → CenterConfig C → Shared C → Outcome (Started C)
  unfolding custom_keys
  start sur c s = do
    let tcp_port = scan_port sur.bindable
    check_keys standard_keys (custom_keys c)
    let config = network_config sur tcp_port c
    node_id ← sur.easy_tier_start config
    ok (record {
      tcp_port = tcp_port;
      protocols = protocols_of c;
      config = config;
      shared = record s {
        players = host_joins c.player_name c.machine_id node_id c.vendor s.players;
      };
    })
