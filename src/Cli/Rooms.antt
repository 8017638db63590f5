-- ===== src/Cli/Rooms.antt =====
-- `run_host` and `run_guest` of crates/qomicex-connector-cli/src/main.rs. What the system, EasyTier and
-- the network do is a record; the lines of the task that prints the number of players are left out.
use qomicex_connector_rust.Base.{ℕ, Text, codes, [], ◌++◌, Option, none, length, decimal}
use qomicex_connector_rust.Base.Result.{Result, ok}
use qomicex_connector_rust.Error.{Outcome}
use qomicex_connector_rust.Json.{JsonApi}
use qomicex_connector_rust.Models.RoomCode.{RoomCode}
use qomicex_connector_rust.Relay.Provider.{Reply}
use qomicex_connector_rust.Center.Room.{Shared}
use qomicex_connector_rust.Center.Server.{Slot}
use qomicex_connector_rust.Center.Host.{Host, Site, close_host}
use qomicex_connector_rust.Guest.Tcp.{Exchange}
use qomicex_connector_rust.Guest.Session.{Guest}
use qomicex_connector_rust.Guest.Requests.{get_player_list}
use qomicex_connector_rust.Guest.Joining.{Way, endpoint, map_minecraft_port}
use qomicex_connector_rust.Guest.Member.{Member, Net, leave_room}
use qomicex_connector_rust.EasyTier.Config.{Addresses, TomlConfig}
use qomicex_connector_rust.EasyTier.Instance.{Startup}
use qomicex_connector_rust.EasyTier.Peers.{apply_config_patch}
use qomicex_connector_rust.Client.RelayCache.{Settings}
use qomicex_connector_rust.Client.Rooms.{Creation, create_room, join_room}
use qomicex_connector_rust.Cli.Session.{
  Act, ◌>>=◌, ◌>>◌, say, say_all, on_client, on_center, on_guest, lift, foreigner, Session,
}

-- What a run meets: the time, the code that is generated and the client's token; what a room and a
-- guest go through from one of the command's steps to the next; the exchanges of a guest; and how
-- the wait for Ctrl+C ends.
pub record World (api : Addresses) : Type 0 where
  pub now : ℕ
  pub generated : RoomCode
  pub token : ℕ
  pub startup : Startup (TomlConfig api)
  pub site : Site
  pub hosting : Slot × Shared (Unit {0}) → Slot × Shared (Unit {0})
  pub net : Net api
  pub way : Way
  pub beating : ℕ → Guest → Guest
  pub server_port : Exchange
  pub local_mc_port : ℕ
  pub listing : Exchange
  pub ctrl_c : Result Text (Unit {0})

abbrev pub cli_vendor : Text
cli_vendor = codes "Qomicex"

-- EasyTier is started and stopped by the center's own operations alone.
unfoldable pub host_meanwhile :
    (Slot × Shared (Unit {0}) → Slot × Shared (Unit {0}))
    → Host (Unit {0})
    → Outcome (Unit {0}) × Host (Unit {0})
host_meanwhile f h =
    let (slot, shared) = f (h.slot, h.shared) in (ok tt, record h { slot = slot; shared = shared })

unfoldable pub closing : Host (Unit {0}) → Outcome (Unit {0}) × Host (Unit {0})
closing h = (ok tt, close_host h)

unfoldable pub close_after : Result Text (Unit {0}) → Host (Unit {0}) → Act Session (Unit {0})
unfolding closing
close_after ctrl_c center = lift (foreigner ctrl_c) >> on_center closing center

unfoldable pub leaving : Member → Outcome (Unit {0}) × Member
leaving m = (ok tt, leave_room m)

unfoldable pub acting :
    {A : Type 0} → (Member → Guest → Outcome A × Guest) → Member → Outcome A × Member
acting f m = let (r, g) = f m m.guest in (r, record m { guest = g })

unfoldable pub creation_of : (player_name machine_id : Text) (port : ℕ) → Creation (Unit {0})
creation_of player_name machine_id port = record {
  player_name = player_name;
  machine_id = machine_id;
  vendor = cli_vendor;
  minecraft_port = port;
  custom_protocols = [];
  player_ping_handler = none;
  custom = tt;
}

module _ (J : JsonApi) (locale : Option Text) (http : ℕ → (user_agent url : Text) → Option Reply)
    (s : Settings) (api : Addresses) (default : TomlConfig api) (w : World api) where
  -- The room is open until Ctrl+C.
  unfoldable pub hold : Host (Unit {0}) → Act Session (Unit {0})
  unfolding host_meanwhile close_after
  hold center = do
    say (codes "房间码: " ++ center.config.room_code.raw)
    say (codes "按 Ctrl+C 退出")
    on_center (host_meanwhile w.hosting) center
    close_after w.ctrl_c center

  unfoldable pub run_host : (player_name machine_id : Text) (port : ℕ) → Act Session (Unit {0})
  run_host player_name machine_id port = do
    say (codes "创建房间...")
    center ← on_client (
        create_room J locale http s api default w.startup w.site w.now w.generated w.token
          (creation_of player_name machine_id port))
    hold center

  -- `guest.map_minecraft_port(ct)` with the manager that applies the forwarding rule.
  unfoldable pub mapping : Member → Guest → Outcome (Text × ℕ) × Guest
  mapping m =
      map_minecraft_port J m.profile m.easy_tier.node_id api.socket_addr
        (λ a. apply_config_patch w.net.at_patch (w.net.patched a) m.easy_tier) w.server_port
        w.local_mc_port

  -- The heartbeat and other tasks, up to the next step of the command.
  unfoldable pub meanwhile : ℕ → Member → Act Session (Unit {0})
  unfolding acting
  meanwhile i guest = on_guest (acting (λ m g. (ok tt, w.beating i g))) guest

  unfoldable pub show_address : Member → Act Session (Unit {0})
  unfolding acting mapping
  show_address guest = do
    meanwhile 0 guest
    address ← on_guest (acting mapping) guest
    say (codes "MC 服务器地址: " ++ endpoint address.0 address.1)

  unfoldable pub show_players : Member → Act Session (Unit {0})
  unfolding acting
  show_players guest = do
    meanwhile 1 guest
    players ← on_guest (acting (λ m. get_player_list J w.listing)) guest
    say (codes "玩家 (" ++ decimal (length players) ++ codes "):")
    say_all (λ p. codes "  " ++ p.name) players

  unfoldable pub stay : Member → Act Session (Unit {0})
  unfolding leaving
  stay guest = do
    say (codes "按 Ctrl+C 退出")
    meanwhile 2 guest
    lift (foreigner w.ctrl_c)
    on_guest leaving guest

  unfoldable pub run_guest : (room_code player_name machine_id : Text) → Act Session (Unit {0})
  unfolding show_address show_players stay
  run_guest room_code player_name machine_id = do
    say (codes "加入房间 " ++ room_code ++ codes "...")
    guest ← on_client (
        join_room J locale http s api default w.net w.way w.now room_code (record {
          player_name = player_name;
          machine_id = machine_id;
          vendor = cli_vendor;
          custom_protocol_keys = [];
        }))
    say (codes "已加入!")
    show_address guest
    show_players guest
    stay guest
