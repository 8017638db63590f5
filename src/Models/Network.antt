-- ===== src/Models/Network.antt =====
-- crates/qomicex-connector/src/models/network_config.rs and easy_tier_node.rs
use qomicex_connector_rust.Base.{Text, Option, none, Bool, true, false, List, []}

pub record NetworkConfig : Type 0 where
  pub network_name : Text
  pub network_secret : Text
  pub hostname : Text
  pub no_tun : Bool
  pub use_smoltcp : Bool
  pub dhcp : Bool
  pub ipv4 : Option Text
  pub listen_random_ports : Bool
  pub bind_ip : Option Text
  pub tcp_whitelist : List Text
  pub port_forwards : List Text
  pub relay_nodes : Option (List Text)

-- `NetworkConfig::default()`
abbrev pub default_config : NetworkConfig
default_config = record {
  network_name = [];
  network_secret = [];
  hostname = [];
  no_tun = true;
  use_smoltcp = false;
  dhcp = true;
  ipv4 = none;
  listen_random_ports = true;
  bind_ip = none;
  tcp_whitelist = [];
  port_forwards = [];
  relay_nodes = none;
}

pub record EasyTierNode : Type 0 where
  pub virtual_ip : Text
  pub hostname : Text
  pub node_id : Text
