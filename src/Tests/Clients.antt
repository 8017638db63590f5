-- ===== src/Tests/Clients.antt =====
-- The client, its rooms and its relay nodes at concrete inputs.
use qomicex_connector_rust.Base.{
  Bool, ◌==◌, ℕ, ◌+◌, ◌≡◌, ◌≢◌, refl, Text, codes, true, false, List, [], ◌∷◌, ◌++◌, Option, none,
  some, arith, ltb,
}
use qomicex_connector_rust.Base.Result.{ok}
use qomicex_connector_rust.Error.{Outcome}
use qomicex_connector_rust.Json.{JsonApi}
use qomicex_connector_rust.Relay.Nodes.{resolve}
use qomicex_connector_rust.Relay.Provider.{Reply}
use qomicex_connector_rust.Relay.Parse.{parse_nodes, value_of_text, entries}
use qomicex_connector_rust.Base.Maybe.{◌>>=◌}
use qomicex_connector_rust.Relay.Parse.Order.{urls_of, parse_nodes-entries}
use qomicex_connector_rust.Center.Players.History.{Event, pinged, disconnected, removed, history}
use qomicex_connector_rust.Center.Players.Laws.{find_player}
use qomicex_connector_rust.Center.Players.Refinement.{
  table_of, table_history, history-table_history,
}
use qomicex_connector_rust.Center.Host.{Host, Site, new_host}
use qomicex_connector_rust.Guest.Member.{Net}
use qomicex_connector_rust.EasyTier.Config.{TomlConfig}
use qomicex_connector_rust.EasyTier.Instance.{Startup, Instance}
use qomicex_connector_rust.Client.RelayCache.{Settings, fresh, resolved_now, resolve_relay_nodes}
use qomicex_connector_rust.Client.RelayCache.Laws.{
  resolve_relay_nodes_twice, resolve_relay_nodes_down,
}
use qomicex_connector_rust.Client.Rooms.{
  Client, new_client, Creation, Joiner, create_room, join_room,
}
use qomicex_connector_rust.Tests.Setting.{toy_json, a_code, a_config, host_player, guest_player}
use qomicex_connector_rust.Tests.Guests.{way}
use qomicex_connector_rust.Tests.Network.{toy_addresses, toy_default, startup}

-- No request is answered.
abbrev pub no_http : ℕ → (user_agent url : Text) → Option Reply
no_http n user_agent url = none

abbrev fetching : Settings
fetching = record {
  override_relay_nodes = none;
  additional_relay_nodes = some (codes "tcp://extra:1" ∷ []);
  user_agent = none;
  preferred_region = none;
  relay_endpoint = none;
}

nothing_fresh : fresh 7 none ≡ none
unfolding fresh
nothing_fresh = refl

abbrev overriding : Settings
overriding = record fetching { override_relay_nodes = some (codes "tcp://own:1" ∷ []) }

own_is_not_nil : (resolved_now toy_json none no_http overriding 0).0 ≢ []
unfolding resolved_now resolve
own_is_not_nil e = cc

resolve_relay_nodes_twice_example :
    resolve_relay_nodes toy_json none no_http overriding 300006
      (resolve_relay_nodes toy_json none no_http overriding 7 (none, 0)).1
    ≡ resolve_relay_nodes toy_json none no_http overriding 7 (none, 0)
resolve_relay_nodes_twice_example =
    resolve_relay_nodes_twice toy_json none no_http overriding 7 300006 0 none nothing_fresh
      own_is_not_nil (omega arith)

resolve_relay_nodes_down_example :
    resolve_relay_nodes toy_json none no_http fetching 300007
      (some (7, codes "tcp://good:1" ∷ []), 3)
    ≡ (
      resolve none fetching.additional_relay_nodes,
      (some (300007, resolve none fetching.additional_relay_nodes), 3 + 2),
    )
resolve_relay_nodes_down_example =
    resolve_relay_nodes_down toy_json none no_http fetching 300007 7 3 (codes "tcp://good:1" ∷ [])
      refl refl (omega arith) refl refl

abbrev pub site : Site
site = record {
  bindable = λ p. ltb 1026 p;
  is_elevated = false;
  resolve_bind_ip = none;
  cancelled = λ t. false;
}

abbrev pub a_host : Host (Unit {0})
a_host = new_host a_config tt

abbrev creation : Creation (Unit {0})
creation = record {
  player_name = codes "host";
  machine_id = codes "m0";
  vendor = codes "v";
  minecraft_port = 25565;
  custom_protocols = [];
  player_ping_handler = none;
  custom = tt;
}

abbrev joiner : Joiner
joiner = record {
  player_name = codes "guest";
  machine_id = codes "m1";
  vendor = codes "v";
  custom_protocol_keys = [];
}

-- The host's node as a guest sees it, at 10.144.144.1.
abbrev pub instance_of_guest : Instance
instance_of_guest = record {
  peer_id = codes "8";
  ipv4_addr = none;
  routes =
      record {
        ipv4_addr = some (some 177246209);
        hostname = codes "scaffolding-mc-server-1027";
        peer_id = 7;
      }
      ∷ [];
}

abbrev pub net : Net toy_addresses
net = record {
  startup = startup;
  instances = λ i id. some instance_of_guest;
  at_patch = λ id. some instance_of_guest;
  patched = λ a. ok tt;
}

abbrev hosting : Client (Unit {0})
hosting =
    (create_room toy_json none no_http fetching toy_addresses toy_default startup site 7 a_code 1
      creation new_client).1

abbrev hosting_and_joined : Client (Unit {0})
hosting_and_joined =
    (join_room toy_json none no_http fetching toy_addresses toy_default net way 8
      (codes "U/G4J1-JZUE-TVUE-XBUB") joiner hosting).1

-- The deletion of the second instance fails.
abbrev deletes : ℕ → Bool
deletes id = id == 1

-- An instance that never gets ready.
abbrev hanging : Startup (TomlConfig toy_addresses)
hanging = record startup { ready = λ i. false }

abbrev failed : Outcome (Host (Unit {0})) × Client (Unit {0})
failed =
    create_room toy_json none no_http overriding toy_addresses toy_default hanging site 7 a_code 1
      creation new_client

abbrev events : List Event
events = pinged guest_player ∷ disconnected (codes "m0") ∷ removed (codes "m1") ∷ []

history-table_history_example :
    find_player
      (codes "m0")
      (history events (record { list = host_player ∷ []; receivers = 0; notified = none })).list
    ≡ table_history events
        (table_of (record { list = host_player ∷ []; receivers = 0; notified = none }))
        (codes "m0")
history-table_history_example =
    history-table_history events
      (record { list = host_player ∷ []; receivers = 0; notified = none }) (codes "m0") (tt, tt)

-- A library whose texts are arrays of one object, which has the text under every key.
abbrev one_entry : JsonApi
one_entry = record toy_json { as_array = λ v. some (v ∷ []); get = λ v key. some v }

parse_nodes-entries_example : parse_nodes one_entry (codes "cn") (some (codes "CN")) ≡ (do
  value ← value_of_text one_entry (codes "cn")
  array ← one_entry.as_array value
  let es = entries one_entry array
  some (urls_of true (some (codes "CN")) es ++ urls_of false (some (codes "CN")) es))
parse_nodes-entries_example = parse_nodes-entries one_entry (codes "cn") (some (codes "CN"))
