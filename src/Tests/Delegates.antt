-- ===== src/Tests/Delegates.antt =====
-- A room with a custom JSON protocol at concrete inputs.
use qomicex_connector_rust.Base.{ℕ, ◌+◌, Text, Bytes, codes, [], ◌∷◌, some}
use qomicex_connector_rust.Base.Result.{Result, ok, err}
use qomicex_connector_rust.Protocols.{ProtocolHandler, new_json_req}
use qomicex_connector_rust.Center.Players.{host_joins}
use qomicex_connector_rust.Center.Room.{CenterConfig, Shared, Started, protocols_of, network_config}
use qomicex_connector_rust.Guest.Session.{Guest}
use qomicex_connector_rust.Tests.Setting.{toy_json, a_config, surroundings, nobody}
use qomicex_connector_rust.Tests.Guests.{connected_guest}

-- A number is its byte, and the closure doubles it.
number_from : Bytes → Result Text ℕ
number_from [] = err []
number_from (n ∷ rest) = ok n

abbrev number_to : ℕ → Result Text Bytes
number_to n = ok (n ∷ [])

abbrev double : ℕ → Shared (Unit {0}) → ℕ × Shared (Unit {0})
double n s = (n + n, s)

abbrev doubler : ProtocolHandler (Shared (Unit {0}))
doubler = new_json_req (Shared (Unit {0})) 21 number_from number_to (codes "x:double") double

abbrev config : CenterConfig (Unit {0})
config = record a_config { custom_protocols = doubler ∷ [] }

abbrev room : Started (Unit {0})
room = record {
  tcp_port = 1027;
  protocols = protocols_of toy_json config;
  config = network_config toy_json surroundings 1027 config;
  shared = record nobody {
    players = host_joins (codes "host") (codes "m0") (some (codes "7")) (codes "v") nobody.players;
  };
}

abbrev agreed : Guest
agreed = record connected_guest { negotiated = codes "x:double" ∷ [] }
