-- ===== src/Tests/Network.antt =====
-- The EasyTier manager, its configuration and the choice of an address at concrete inputs.
use qomicex_connector_rust.Base.{
  ℕ, Bool, ◌+◌, ◌≡◌, ◌≤◌, refl, Text, codes, true, false, List, [], ◌∷◌, none, some, arith, ltb,
}
use qomicex_connector_rust.Base.Result.{ok}
use qomicex_connector_rust.Models.Network.{NetworkConfig, default_config}
use qomicex_connector_rust.Relay.Nodes.{default_nodes, resolve}
use qomicex_connector_rust.Guest.Keys.{parse_forward_addrs}
use qomicex_connector_rust.EasyTier.Config.{
  Addresses, TomlConfig, parse_port_forward, build_toml_config, set_address, set_listeners,
  set_flags, collect, parse_peer, peer_uris,
}
use qomicex_connector_rust.EasyTier.Config.Built.{IsBuilt, build_toml_config-IsBuilt}
use qomicex_connector_rust.EasyTier.Config.Forwards.{addresses, shown, parse_port_forward-agrees}
use qomicex_connector_rust.EasyTier.Waiting.{wait_ready, elapsed_at, startup_fuel, startup_timeout}
use qomicex_connector_rust.EasyTier.Waiting.Deadline.{wait_ready-add}
use qomicex_connector_rust.EasyTier.Instance.{
  EasyTierManager, Startup, new_manager, is_running, start, stop, ran,
}
use qomicex_connector_rust.EasyTier.Instance.Lifecycle.{after_calls}
use qomicex_connector_rust.EasyTier.Instance.InTime.{start_in_time}
use qomicex_connector_rust.EasyTier.Instance.Restart.{stop-start-forgets}
use qomicex_connector_rust.Interfaces.{NetworkInterface, v4, v6, candidates_of, resolve_bind_ip}
use qomicex_connector_rust.Interfaces.Choice.{IsChoice, resolve_bind_ip-IsChoice}

-- A library that reads every text as itself.
abbrev pub toy_addresses : Addresses
toy_addresses = record {
  Inet = Text;
  Url = Text;
  SocketAddr = Text;
  ipv4_inet = λ t. some t;
  url = λ t. some t;
  socket_addr = λ t. some t;
  zstd = 1;
}

abbrev pub toy_default : TomlConfig toy_addresses
toy_default = record {
  network_identity = ([], []);
  hostname = none;
  ipv4 = none;
  dhcp = false;
  listeners = [];
  flags = record {
    no_tun = false;
    use_smoltcp = false;
    multi_thread = false;
    latency_first = false;
    enable_kcp_proxy = false;
    data_compress_algo = 0;
  };
  tcp_whitelist = [];
  udp_whitelist = [];
  peers = [];
  port_forwards = [];
}

-- The instance 5 is ready at the fourth question; each sleep takes 10 ms too long.
abbrev pub startup : Startup (TomlConfig toy_addresses)
startup = record {
  running = λ id. false;
  run_network_instance = λ cfg. ok 5;
  ready = λ i. ltb 2 i;
  extra = λ i. 10;
  instance = none;
}

abbrev a_network : NetworkConfig
a_network = record default_config {
  network_name = codes "n";
  network_secret = codes "s";
  listen_random_ports = false;
}

abbrev a_toml : TomlConfig toy_addresses
a_toml = record toy_default {
  network_identity = (codes "n", codes "s");
  hostname = some [];
  dhcp = true;
  flags = record {
    no_tun = true;
    use_smoltcp = false;
    multi_thread = true;
    latency_first = true;
    enable_kcp_proxy = true;
    data_compress_algo = 1;
  };
  tcp_whitelist = codes "0" ∷ [];
  udp_whitelist = codes "0" ∷ [];
  peers = default_nodes;
}

a_network_built : build_toml_config toy_addresses toy_default a_network ≡ ok a_toml
unfolding build_toml_config set_address set_listeners set_flags collect parse_peer peer_uris resolve
a_network_built = refl

build_toml_config-IsBuilt_example : IsBuilt toy_addresses toy_default a_network a_toml
build_toml_config-IsBuilt_example =
    build_toml_config-IsBuilt toy_addresses toy_default a_network a_toml a_network_built

new_is_not_running : is_running startup.running new_manager ≡ false
unfolding is_running
new_is_not_running = refl

in_time : elapsed_at startup.extra 3 ≤ startup_timeout
unfolding elapsed_at
in_time = omega arith

start_in_time_example : (start toy_addresses toy_default startup a_network new_manager).0 ≡ ok tt
start_in_time_example =
    start_in_time toy_addresses toy_default startup a_network new_manager a_toml 5 3
      new_is_not_running a_network_built refl refl in_time

wait_ready-add_example :
    wait_ready startup.ready startup.extra (startup_fuel + 7) 0 0
    ≡ wait_ready startup.ready startup.extra startup_fuel 0 0
wait_ready-add_example = wait_ready-add startup.ready startup.extra 7

-- A manager that timed out with the instance 4.
abbrev timed_out : EasyTierManager
timed_out = record new_manager { instance_id = some 4; calls = ran 4 ∷ [] }

-- The library deletes what it is asked to.
abbrev deletes : ℕ → Bool
deletes id = true

timed_out_runs : after_calls deletes timed_out.calls [] ≡ 4 ∷ []
unfolding after_calls
timed_out_runs = refl

stop-start-forgets_example :
    after_calls deletes
      (stop (start toy_addresses toy_default startup a_network timed_out).1).calls
      []
    ≡ 4 ∷ []
stop-start-forgets_example =
    stop-start-forgets deletes toy_addresses toy_default startup a_network timed_out 4 5 a_toml refl
      timed_out_runs refl a_network_built refl (λ e. omega arith)

parse_port_forward-agrees_example :
    addresses toy_addresses (parse_port_forward toy_addresses (codes "tcp://a/b"))
    ≡ shown (parse_forward_addrs toy_addresses.socket_addr (codes "tcp://a/b"))
parse_port_forward-agrees_example = parse_port_forward-agrees toy_addresses (codes "tcp://a/b")

abbrev interfaces : List NetworkInterface
interfaces =
    record { name = codes "WLAN"; addr = v4 3232235781 ∷ [] }
    ∷ record { name = codes "Ethernet"; addr = v6 ∷ v4 3232235778 ∷ [] }
    ∷ record { name = codes "Radmin VPN"; addr = v4 167772167 ∷ [] }
    ∷ []

resolve_bind_ip-IsChoice_example :
    IsChoice (candidates_of interfaces) (resolve_bind_ip (some interfaces))
resolve_bind_ip-IsChoice_example = resolve_bind_ip-IsChoice interfaces
