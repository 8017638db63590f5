-- ===== src/EasyTier/Config.antt =====
-- The configuration that easytier/manager.rs of crates/qomicex-connector/src builds for the EasyTier
-- library. The library's parsers and its default configuration are parameters.
pub mod Forwards
pub mod Built
use qomicex_connector_rust.Base.{
  ℕ, Text, codes, Bool, true, false, not, List, [], ◌∷◌, ◌++◌, Option, none, some, decimal,
  split_char, split_once, text_eq, if◌then◌else◌,
}
use qomicex_connector_rust.Base.Result.{Result, ok, err, ok_or, ◌>>=◌}
use qomicex_connector_rust.Error.{Outcome, easy_tier_start}
use qomicex_connector_rust.Models.Network.{NetworkConfig}
use qomicex_connector_rust.Relay.Nodes.{resolve}

-- `cidr::Ipv4Inet`, the urls and the socket addresses, how each is read from a text, and the number of
-- the compression that is used.
pub record Addresses : Type 1 where
  pub Inet : Type 0
  pub Url : Type 0
  pub SocketAddr : Type 0
  pub ipv4_inet : Text → Option Inet
  pub url : Text → Option Url
  pub socket_addr : Text → Option SocketAddr
  pub zstd : ℕ

pub record Flags : Type 0 where
  pub no_tun : Bool
  pub use_smoltcp : Bool
  pub multi_thread : Bool
  pub latency_first : Bool
  pub enable_kcp_proxy : Bool
  pub data_compress_algo : ℕ

-- `strip_cidr`
cut_at : Text → Option (Text × Text) → Text
cut_at ip none = ip
cut_at ip (some parts) = parts.0

unfoldable pub strip_cidr : Text → Text
unfolding cut_at
strip_cidr ip = cut_at ip (split_char b'/' ip)

has_prefix : Option (Text × Text) → Bool
has_prefix none = false
has_prefix (some parts) = true

-- An address without a mask gets the mask of 24 bits.
unfoldable pub with_prefix : Text → Text
unfolding has_prefix
with_prefix ipv4 = if has_prefix (split_char b'/' ipv4) then ipv4 else ipv4 ++ codes "/24"

bind_of : Option Text → Text
bind_of none = codes "0.0.0.0"
bind_of (some ip) = ip

unfoldable pub listener_uris : Option Text → List Text
unfolding bind_of
listener_uris bind_ip =
    (codes "tcp://" ++ bind_of bind_ip ++ codes ":0")
    ∷ (codes "udp://" ++ bind_of bind_ip ++ codes ":0")
    ∷ []

unfoldable pub peer_uris : Option (List Text) → List Text
peer_uris none = resolve none none
peer_uris (some nodes) = nodes

-- `iter().map(f).collect::<Result<Vec<_>, _>>()`: the first error, or all results.
unfoldable pub collect : {A B : Type 0} → (A → Outcome B) → List A → Outcome (List B)
collect f [] = ok []
collect f (a ∷ rest) = do b ← f a; bs ← collect f rest; ok (b ∷ bs)

module _ (api : Addresses) where
  pub record PortForwardConfig : Type 0 where
    pub bind_addr : api.SocketAddr
    pub dst_addr : api.SocketAddr
    pub proto : Text

  -- What the code sets of the library's `TomlConfig`.
  pub record TomlConfig : Type 0 where
    pub network_identity : Text × Text
    pub hostname : Option Text
    pub ipv4 : Option api.Inet
    pub dhcp : Bool
    pub listeners : List api.Url
    pub flags : Flags
    pub tcp_whitelist : List Text
    pub udp_whitelist : List Text
    pub peers : List api.Url
    pub port_forwards : List PortForwardConfig

  -- `tcp://BIND/DST`
  unfoldable pub parse_port_forward : Text → Outcome PortForwardConfig
  parse_port_forward raw = do
    (proto, rest) ←
        ok_or (split_once (codes "://") raw) (easy_tier_start (codes "无效的端口转发格式: " ++ raw))
    (bind, dst) ← ok_or (split_char b'/' rest) (easy_tier_start (codes "无效的端口转发格式: " ++ raw))
    bind_addr ← ok_or (api.socket_addr bind) (easy_tier_start (codes "无效的端口转发绑定地址: " ++ bind))
    dst_addr ← ok_or (api.socket_addr dst) (easy_tier_start (codes "无效的端口转发目标地址: " ++ dst))
    ok (record { bind_addr = bind_addr; dst_addr = dst_addr; proto = proto })

  unfoldable pub parse_listener : Text → Outcome api.Url
  parse_listener uri = ok_or (api.url uri) (easy_tier_start (codes "无效的监听地址: " ++ uri))

  unfoldable pub parse_peer : Text → Outcome api.Url
  parse_peer node = ok_or (api.url node) (easy_tier_start (codes "无效的中继节点地址: " ++ node))

  addressed : NetworkConfig → TomlConfig → Option Text → Outcome TomlConfig
  addressed config cfg none = ok (record cfg { dhcp = config.dhcp })
  addressed config cfg (some ipv4) = do
    addr ←
        ok_or (api.ipv4_inet (with_prefix ipv4)) (easy_tier_start (codes "无效的 ipv4 地址: " ++ ipv4))
    ok (record cfg { ipv4 = some addr })

  -- A fixed address, or the setting of dhcp.
  unfoldable pub set_address : NetworkConfig → TomlConfig → Outcome TomlConfig
  unfolding addressed
  set_address config cfg = addressed config cfg config.ipv4

  listening : NetworkConfig → TomlConfig → Bool → Outcome TomlConfig
  listening config cfg false = ok cfg
  listening config cfg true = do
    listeners ← collect parse_listener (listener_uris config.bind_ip)
    ok (record cfg { listeners = listeners })

  unfoldable pub set_listeners : NetworkConfig → TomlConfig → Outcome TomlConfig
  unfolding listening
  set_listeners config cfg = listening config cfg config.listen_random_ports

  unfoldable pub set_flags : NetworkConfig → TomlConfig → TomlConfig
  set_flags config cfg = record cfg {
    flags = record cfg.flags {
      no_tun = config.no_tun;
      use_smoltcp = config.use_smoltcp;
      multi_thread = true;
      latency_first = true;
      enable_kcp_proxy = true;
      data_compress_algo = api.zstd;
    };
  }

  -- Over the library's default configuration.
  unfoldable pub build_toml_config : TomlConfig → NetworkConfig → Outcome TomlConfig
  build_toml_config default config = do
    let named = record default {
      network_identity = (config.network_name, config.network_secret);
      hostname = some config.hostname;
    }
    addressed ← set_address config named
    listening ← set_listeners config addressed
    let allowed = record (set_flags config listening) {
      tcp_whitelist = codes "0" ∷ config.tcp_whitelist;
      udp_whitelist = codes "0" ∷ [];
    }
    peers ← collect parse_peer (peer_uris config.relay_nodes)
    port_forwards ← collect parse_port_forward config.port_forwards
    ok (record allowed { peers = peers; port_forwards = port_forwards })
