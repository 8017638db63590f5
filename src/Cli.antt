-- ===== src/Cli.antt =====
-- The command line, crates/qomicex-connector-cli/src/main.rs: what it is given, and how its commands
-- fail. Reading the arguments is clap's.
pub mod Session
pub mod Rooms
pub mod Relaying
pub mod Main
use qomicex_connector_rust.Base.{ℕ, Text, List, [], ◌∷◌, Option, none, some}
use qomicex_connector_rust.Base.Result.{Result}
use qomicex_connector_rust.Error.{ScaffoldingError, fmt}
use qomicex_connector_rust.Client.RelayCache.{Settings}

pub data Command : Type 0 where
  relay : (listen : Text) (seconds : ℕ) → Command
  host : (mc_port player_name : Text) → Command
  guest : (room_code player_name : Text) → Command

pub record Arguments : Type 0 where
  pub relay : List Text
  pub command : Command

-- `Box<dyn Error>`: an error of the library, or one of the system or of EasyTier with its text.
pub data Failure : Type 0 where
  scaffolding : ScaffoldingError → Failure
  foreign : Text → Failure

unfoldable pub message : Failure → Text
unfolding fmt
message (scaffolding e) = fmt e
message (foreign why) = why

-- `Result<A, Box<dyn Error>>`
abbrev pub Fallible : Type 0 → Type 0
Fallible A = Result Failure A

-- No option `--relay` is no override.
unfoldable pub override_of : List Text → Option (List Text)
override_of [] = none
override_of (url ∷ urls) = some (url ∷ urls)

-- `ScaffoldingClient::new(relay, None, None, None)`
abbrev pub settings_of : Option (List Text) → Settings
settings_of nodes = record {
  override_relay_nodes = nodes;
  additional_relay_nodes = none;
  user_agent = none;
  preferred_region = none;
  relay_endpoint = none;
}
