-- ===== src/Guest/Joining.antt =====
-- How a guest joins a room, reaches the Minecraft server, and leaves. What the network, EasyTier and the
-- clock do comes as records; `Addr` is the standard library's socket address.
pub mod Reach
pub mod Mapped
pub mod Remapping
pub mod Direct
use qomicex_connector_rust.Base.{
  ℕ, zero, suc, Text, codes, Bool, true, false, not, List, [], ◌∷◌, ◌++◌, Option, none, some, take,
  decimal, if◌then◌else◌,
}
use qomicex_connector_rust.Base.Result.{Result, ok, err, is_ok, ok_or}
use qomicex_connector_rust.Error.{Outcome, ScaffoldingError, center_connection}
use qomicex_connector_rust.Json.{JsonApi}
use qomicex_connector_rust.Models.Network.{NetworkConfig, EasyTierNode, default_config}
use qomicex_connector_rust.Models.RoomCode.{
  RoomCode, easy_tier_network_name, easy_tier_network_secret,
}
use qomicex_connector_rust.Core.Discovery.{CenterDiscoveryResult, discover}
use qomicex_connector_rust.Guest.Tcp.{TcpClient, Exchange, connect, disconnect}
use qomicex_connector_rust.Guest.Keys.{parse_forward_addrs}
use qomicex_connector_rust.Guest.Session.{
  Profile, Guest, Act, ◌>>=◌, ◌>>◌, lift, pure, modify, read,
}
use qomicex_connector_rust.Guest.Requests.{negotiate_protocols, send_player_ping, get_server_port}

-- One attempt at a connection: how `connect` ends, `none` where it times out, and the two exchanges
-- behind it.
pub record Attempt : Type 0 where
  pub connected : Option (Result Text (Unit {0}))
  pub ping_exchange : Exchange
  pub negotiation : Exchange

-- What the surroundings do while a guest joins.
pub record Way : Type 0 where
  pub elevated : Bool
  pub resolve_bind_ip : Option Text
  pub easy_tier_start : NetworkConfig → Outcome (Unit {0})
  pub other_digit : ℕ → Bool
  pub nodes : ℕ → List EasyTierNode
  pub wait_cancelled : ℕ → Bool
  pub direct : Attempt
  pub local_port : ℕ
  pub attempts : ℕ → Attempt
  pub cancelled : ℕ → Bool

abbrev pub endpoint : Text → ℕ → Text
endpoint host port = host ++ b':' ∷ decimal port

abbrev pub local_host : Text
local_host = codes "127.0.0.1"

abbrev pub forward_rule : ℕ → Text → ℕ → Text
forward_rule local_port host port =
    codes "tcp://" ++ endpoint local_host local_port ++ b'/' ∷ endpoint host port

push_forward : Text → Option NetworkConfig → Option NetworkConfig
push_forward forward none = none
push_forward forward (some c) = some (record c { port_forwards = c.port_forwards ++ forward ∷ [] })

module _ (J : JsonApi) (p : Profile) (node_id : Option Text) where
  dropped : Guest → Outcome Bool × Guest
  dropped g = (ok false, record g { tcp = disconnect g.tcp })

  settled : Bool → Guest → Outcome Bool × Guest
  unfolding dropped
  settled true g = (ok true, g)
  settled false g = dropped g

  -- `negotiate_protocols` runs only where the ping went through.
  greeted : Attempt → Guest → Bool × Guest
  greeted a g =
      let (pinged, g1) = send_player_ping J p node_id a.ping_exchange g in
      let (agreed, g2) = negotiate_protocols p a.negotiation g1 in
      if is_ok pinged then (is_ok agreed, g2) else (false, g1)

  reached : Text → Attempt → Option (Result Text (Unit {0})) → Act Bool
  unfolding greeted settled dropped
  reached address a none g = dropped g
  reached address a (some (err e)) g = dropped g
  reached address a (some (ok u)) g =
      let (joined, g') = greeted a (record g { tcp = (connect address (ok u) g.tcp).1 }) in
      settled joined g'

  -- Whether the center was reached, greeted and negotiated with; otherwise the connection is dropped.
  unfoldable pub try_connect_once : Text → Attempt → Act Bool
  unfolding reached
  try_connect_once address a g = reached address a a.connected g

  -- The attempts from number `i` on, of which `left` are left.
  unfoldable pub try_connect_with_retry : Text → (ℕ → Attempt) → (ℕ → Bool) → ℕ → ℕ → Act Bool
  try_connect_with_retry address attempts cancelled zero i g = (ok false, g)
  try_connect_with_retry address attempts cancelled (suc left) i g = elim (cancelled i) [
    | true ↦ (ok false, g)
    | false ↦
        let (outcome, g') = try_connect_once address (attempts i) g in
        elim outcome [
          | err e ↦ (err e, g')
          | ok b ↦ elim b [
            | true ↦ (ok true, g')
            | false ↦ try_connect_with_retry address attempts cancelled left (suc i) g'
          ]
        ]
  ]

  module _ {Addr : Type 0} (socket_addr : Text → Option Addr)
      (patch : Addr × Addr → Outcome (Unit {0})) where
    -- `apply_port_forward_patch`, where `patch` is EasyTier's answer.
    unfoldable pub apply_port_forward_patch : Text → Act (Unit {0})
    apply_port_forward_patch forward = do
      addrs ← lift (parse_forward_addrs socket_addr forward)
      lift (patch addrs)

    unfoldable pub guest_config : Way → RoomCode → NetworkConfig
    guest_config way code = record default_config {
      network_name = easy_tier_network_name code;
      network_secret = easy_tier_network_secret code;
      hostname = codes "scaffolding-mc-guest-" ++ take 8 p.machine_id;
      no_tun = not way.elevated;
      use_smoltcp = not way.elevated;
      dhcp = true;
      relay_nodes = p.relay_nodes;
      bind_ip = way.resolve_bind_ip;
    }

    end_of_retries : Bool → Act (Unit {0})
    end_of_retries true g = (ok tt, record g { use_port_forward = true })
    end_of_retries false g = (err (center_connection (codes "无法连接到联机中心（端口转发建立失败）")), g)

    through_forward : Way → CenterDiscoveryResult → Bool → Act (Unit {0})
    unfolding end_of_retries push_forward
    through_forward way center true = modify (λ g. record g { use_port_forward = false })
    through_forward way center false = do
      let forward = forward_rule way.local_port center.virtual_ip center.port
      modify (λ g. record g { config = push_forward forward g.config })
      apply_port_forward_patch forward
      connected ←
          try_connect_with_retry (endpoint local_host way.local_port) way.attempts way.cancelled 10
            1
      end_of_retries connected

    -- The network, discovery, the direct connection or a forwarded one, then the heartbeat.
    unfoldable pub connect_room : Way → RoomCode → Act (Unit {0})
    unfolding through_forward
    connect_room way code = do
      let config = guest_config way code
      lift (way.easy_tier_start config)
      center ← lift (discover way.other_digit way.nodes way.wait_cancelled)
      modify (λ g. record g { center = some center; config = some config })
      direct ← try_connect_once (endpoint center.virtual_ip center.port) way.direct
      through_forward way center direct
      modify (λ g. record g { heartbeat = true })

    mapped : CenterDiscoveryResult → ℕ → ℕ → Bool → Act (Text × ℕ)
    unfolding push_forward
    mapped center mc_port local_mc_port false = do
      modify
          (λ g. record g { minecraft_host = some center.virtual_ip; minecraft_port = some mc_port })
      pure (center.virtual_ip, mc_port)
    mapped center mc_port local_mc_port true = do
      let forward = forward_rule local_mc_port center.virtual_ip mc_port
      modify (λ g. record g { config = push_forward forward g.config })
      apply_port_forward_patch forward
      modify
          (λ g. record g { minecraft_host = some local_host; minecraft_port = some local_mc_port })
      pure (local_host, local_mc_port)

    fresh_address : Exchange → ℕ → Act (Text × ℕ)
    unfolding mapped
    fresh_address ex local_mc_port = do
      mc_port ← get_server_port ex
      center ← (λ g. (ok_or g.center (center_connection (codes "尚未加入房间")), g))
      forwarded ← read (λ g. g.use_port_forward)
      mapped center mc_port local_mc_port forwarded

    known_address : Exchange → ℕ → Option Text → Option ℕ → Act (Text × ℕ)
    unfolding fresh_address
    known_address ex local_mc_port (some h) (some port) = pure (h, port)
    known_address ex local_mc_port none port = fresh_address ex local_mc_port
    known_address ex local_mc_port (some h) none = fresh_address ex local_mc_port

    unfoldable pub map_minecraft_port : Exchange → (local_mc_port : ℕ) → Act (Text × ℕ)
    unfolding known_address
    map_minecraft_port ex local_mc_port g = elim g.config [
      | none ↦ (err (center_connection (codes "尚未加入房间")), g)
      | some cfg ↦ elim g.center [
        | none ↦ (err (center_connection (codes "尚未加入房间")), g)
        | some center ↦ known_address ex local_mc_port g.minecraft_host g.minecraft_port g
      ]
    ]

-- The token of the heartbeat is taken and cancelled, if there is one.
unfoldable pub stop_heartbeat : Guest → Guest
stop_heartbeat g = record g { heartbeat = false }

-- Without the stop of EasyTier, whose answer is ignored.
unfoldable pub leave : Guest → Guest
unfolding stop_heartbeat
leave g = let g' = stop_heartbeat g in record g' { tcp = disconnect g'.tcp }
