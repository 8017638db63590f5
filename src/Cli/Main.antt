-- ===== src/Cli/Main.antt =====
-- `main` of crates/qomicex-connector-cli/src/main.rs: the commands, the end of the client, and how the
-- process ends. The text of `Uuid::new_v4` is a parameter.
pub mod Sound
pub mod Laws
pub mod Code
use qomicex_connector_rust.Base.{
  ℕ, Text, codes, List, [], ◌∷◌, ◌++◌, Option, none, some, take, parse_unsigned,
}
use qomicex_connector_rust.Base.Result.{ok, err}
use qomicex_connector_rust.Error.{protocol}
use qomicex_connector_rust.Json.{JsonApi}
use qomicex_connector_rust.Relay.Provider.{Reply}
use qomicex_connector_rust.Center.Host.{Host}
use qomicex_connector_rust.Guest.Member.{Member}
use qomicex_connector_rust.EasyTier.Config.{Addresses, TomlConfig}
use qomicex_connector_rust.Client.Rooms.{Client, close_all}
use qomicex_connector_rust.Cli.{
  Command, relay, host, guest, Arguments, Failure, scaffolding, message, Fallible, override_of,
  settings_of,
}
use qomicex_connector_rust.Cli.Session.{Act, Session, new_session}
use qomicex_connector_rust.Cli.Rooms.{World, run_host, run_guest}
use qomicex_connector_rust.Cli.Relaying.{Relay, new_relay, Library, run_relay}

-- `main` returns `Ok` or `Err`, or the process exits with a code.
pub data Exit : Type 0 where
  success : Exit
  returned : Failure → Exit
  exit : ℕ → Exit

-- How the run exit_of, what `close_all` has closed, and the session behind it.
pub record Finished : Type 0 where
  pub ending : Exit
  pub closed_centers : List (Host (Unit {0}))
  pub closed_guests : List Member
  pub session : Session

exit_of : Fallible (Unit {0}) → List Text → Exit × List Text
exit_of (ok u) console = (success, console)
exit_of (err e) console = (exit 1, console ++ (codes "错误: " ++ message e) ∷ [])

-- `client.close_all(ct)`, and the end of the process.
unfoldable pub close_down : Fallible (Unit {0}) × Session → Finished
unfolding exit_of
close_down (r, s) =
    let ((centers, guests), client) = close_all s.client in
    let (ending, console) = exit_of r s.console in
    record {
      ending = ending;
      closed_centers = centers;
      closed_guests = guests;
      session = record { client = client; console = console };
    }

-- The `?` on the port comes before `close_all`.
unfoldable pub refused : Failure → Finished
refused e = record {
  ending = returned e;
  closed_centers = [];
  closed_guests = [];
  session = new_session;
}

pub data Run : Type 0 where
  relayed : Fallible (Unit {0}) × Relay → Run
  finished : Finished → Run

module _ (J : JsonApi) (locale : Option Text) (http : ℕ → (user_agent url : Text) → Option Reply)
    (api : Addresses) (default : TomlConfig api) where
  module _ (w : World api) (uuid : Text) where
    host_on_port : Option (List Text) → Text → Option ℕ → Finished
    host_on_port nodes player_name none = refused (scaffolding (protocol (codes "无效端口")))
    host_on_port nodes player_name (some port) = close_down (
        run_host J locale http (settings_of nodes) api default w player_name (take 12 uuid) port
          new_session)

    unfoldable pub host_command : Option (List Text) → (mc_port player_name : Text) → Finished
    unfolding host_on_port
    host_command nodes mc_port player_name =
        host_on_port nodes player_name (parse_unsigned 65535 mc_port)

    unfoldable pub guest_command : Option (List Text) → (room_code player_name : Text) → Finished
    guest_command nodes room_code player_name = close_down (
        run_guest J locale http (settings_of nodes) api default w room_code player_name
          (take 12 uuid) new_session)

    unfoldable pub main : (url_error : Text → Text) → Library (TomlConfig api) → Arguments → Run
    main url_error lib cli = elim cli.command [
      | relay listen seconds ↦
          relayed (run_relay api default url_error lib listen seconds new_relay)
      | host mc_port player_name ↦
          finished (host_command (override_of cli.relay) mc_port player_name)
      | guest room_code player_name ↦
          finished (guest_command (override_of cli.relay) room_code player_name)
    ]
