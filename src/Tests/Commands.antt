-- ===== src/Tests/Commands.antt =====
-- The command line at concrete inputs.
use qomicex_connector_rust.Base.{
  ℕ, Bool, ◌≡◌, refl, Text, codes, true, false, List, [], ◌∷◌, Option, none, some, contains,
  text_eq, decimal, split_char, parse_unsigned,
}
use qomicex_connector_rust.Base.Result.{ok}
use qomicex_connector_rust.Models.RoomCode.{parse, generate}
use qomicex_connector_rust.Models.RoomCode.Generate.{code_of, generate-append}
use qomicex_connector_rust.Guest.Tcp.Laws.{arriving}
use qomicex_connector_rust.Relay.Nodes.{resolve}
use qomicex_connector_rust.Center.Room.{scan_port, scan, check_keys, network_config}
use qomicex_connector_rust.Center.Host.{Host, start_host, seen, at_site}
use qomicex_connector_rust.EasyTier.Config.{
  TomlConfig, build_toml_config, set_address, with_prefix, set_listeners, listener_uris, collect,
  parse_listener, parse_peer, peer_uris, set_flags,
}
use qomicex_connector_rust.EasyTier.Waiting.{wait_ready}
use qomicex_connector_rust.EasyTier.Instance.{start, is_running, call}
use qomicex_connector_rust.Client.RelayCache.{fresh, resolved_now, resolve_relay_nodes}
use qomicex_connector_rust.Client.Rooms.{create_room, relay_nodes, close_all}
use qomicex_connector_rust.Cli.Session.{say, on_client, on_center, act_last}
use qomicex_connector_rust.Cli.Rooms.{World, run_host, creation_of, hold}
use qomicex_connector_rust.Cli.Relaying.{Library, new_relay, run_relay}
use qomicex_connector_rust.Cli.Relaying.Laws.{seen_of, run_relay-unready}
use qomicex_connector_rust.Cli.Main.{success, close_down, host_command}
use qomicex_connector_rust.Cli.Main.Code.{printed, host_command-parse}
use qomicex_connector_rust.Tests.Codec.{even_bytes, even_bytes_pass}
use qomicex_connector_rust.Tests.Setting.{toy_json}
use qomicex_connector_rust.Tests.Guests.{way}
use qomicex_connector_rust.Tests.Network.{toy_addresses, toy_default, startup}
use qomicex_connector_rust.Tests.Clients.{no_http, site, net}

abbrev world : World toy_addresses
world = record {
  now = 7;
  generated = code_of even_bytes even_bytes;
  token = 1;
  startup = startup;
  site = site;
  hosting = λ parts. parts;
  net = net;
  way = way;
  beating = λ i g. g;
  server_port = arriving [];
  local_mc_port = 30000;
  listing = arriving [];
  ctrl_c = ok tt;
}

abbrev own_node : Option (List Text)
own_node = some (codes "tcp://own:1" ∷ [])

-- No deletion succeeds.
abbrev deletes : ℕ → Bool
deletes id = false

abbrev library : Library (TomlConfig toy_addresses)
library = record {
  run_network_instance = λ cfg. ok 5;
  ready = λ i. true;
  ctrl_c = ok tt;
  delete_network_instances = ok tt;
}

run_relay-unready_example :
    seen_of (
      run_relay toy_addresses toy_default
        (λ uri. uri)
        (record library { ready = λ i. false })
        (codes "0.0.0.0:11010")
        0
        new_relay)
    ≡ seen_of (
        run_relay toy_addresses toy_default
          (λ uri. uri)
          library
          (codes "0.0.0.0:11010")
          0
          new_relay)
run_relay-unready_example =
    run_relay-unready toy_addresses toy_default (λ uri. uri) library (λ i. false)
      (codes "0.0.0.0:11010") 0

world_generated : generate (even_bytes ∷ even_bytes ∷ []) ≡ some (ok world.generated)
world_generated =
    generate-append [] [] [] even_bytes even_bytes tt tt even_bytes_pass even_bytes_pass refl refl

abbrev uuid : Text
uuid = codes "0123456789abcdef"

host_succeeds :
    (host_command toy_json none no_http toy_addresses toy_default world uuid own_node
      (codes "25565")
      (codes "p")).ending
    ≡ success
unfolding host_command parse_unsigned close_down run_host creation_of hold say on_client on_center
    act_last close_all create_room relay_nodes resolve_relay_nodes fresh resolved_now resolve
    start_host scan_port scan check_keys start is_running build_toml_config set_address with_prefix
    split_char set_listeners listener_uris collect parse_listener parse_peer peer_uris set_flags
    wait_ready call network_config seen at_site contains text_eq decimal
host_succeeds = refl

host_command-parse_example :
    (h : Host (Unit {0})) × ((host_command toy_json none no_http toy_addresses toy_default world
        uuid own_node
        (codes "25565")
        (codes "p")).closed_centers
      ≡ h ∷ [])
    × ((host_command toy_json none no_http toy_addresses toy_default world uuid own_node
          (codes "25565")
          (codes "p")).session.console
        ≡ printed h)
    × (parse h.config.room_code.raw ≡ ok h.config.room_code)
host_command-parse_example =
    host_command-parse toy_json none no_http toy_addresses toy_default world uuid own_node
      (even_bytes ∷ even_bytes ∷ []) (codes "25565") (codes "p") world_generated host_succeeds
