-- ===== src/Guest/Session.antt =====
-- The state of `ScaffoldingGuest` and actions on it.
use qomicex_connector_rust.Base.{ℕ, Text, Bool, false, List, [], Option, none}
use qomicex_connector_rust.Base.Result.{ok, err}
use qomicex_connector_rust.Error.{Outcome}
use qomicex_connector_rust.Models.Network.{NetworkConfig}
use qomicex_connector_rust.Core.Discovery.{CenterDiscoveryResult}
use qomicex_connector_rust.Models.Protocol.{ProtocolRequest, ProtocolResponse}
use qomicex_connector_rust.Guest.Tcp.{TcpClient, Exchange, disconnected, send}

-- What `ScaffoldingGuest::new` is given.
pub record Profile : Type 0 where
  pub player_name : Text
  pub machine_id : Text
  pub vendor : Text
  pub custom_protocol_keys : List Text
  pub relay_nodes : Option (List Text)

-- The fields that change. `heartbeat` says whether a heartbeat task has been given a token;
-- `connection_lost` is the value of the watch channel.
pub record Guest : Type 0 where
  pub tcp : TcpClient
  pub negotiated : List Text
  pub config : Option NetworkConfig
  pub center : Option CenterDiscoveryResult
  pub use_port_forward : Bool
  pub minecraft_host : Option Text
  pub minecraft_port : Option ℕ
  pub heartbeat : Bool
  pub connection_lost : Bool

abbrev pub new_guest : Guest
new_guest = record {
  tcp = disconnected;
  negotiated = [];
  config = none;
  center = none;
  use_port_forward = false;
  minecraft_host = none;
  minecraft_port = none;
  heartbeat = false;
  connection_lost = false;
}

-- A fallible action on a guest keeps the state that it reached, also where it fails.
abbrev pub Act : Type 0 → Type 0
Act A = Guest → Outcome A × Guest

abbrev pub and_then : {A B : Type 0} → Outcome A × Guest → (A → Act B) → Outcome B × Guest
and_then (ok a, g) f = f a g
and_then (err e, g) f = (err e, g)

infixl 5 ◌>>=◌ ◌>>◌
abbrev pub ◌>>=◌ : {A B : Type 0} → Act A → (A → Act B) → Act B
(m >>= f) g = and_then (m g) f

abbrev pub ◌>>◌ : {B : Type 0} → Act (Unit {0}) → Act B → Act B
(m >> k) g = and_then (m g) (λ u. k)

abbrev pub lift : {A : Type 0} → Outcome A → Act A
lift r g = (r, g)

abbrev pub pure : {A : Type 0} → A → Act A
pure a g = (ok a, g)

abbrev pub modify : (Guest → Guest) → Act (Unit {0})
modify f g = (ok tt, f g)

abbrev pub read : {A : Type 0} → (Guest → A) → Act A
read f g = (ok (f g), g)

abbrev with_tcp : Guest → Outcome ProtocolResponse × TcpClient → Outcome ProtocolResponse × Guest
with_tcp g (r, c) = (r, record g { tcp = c })

-- `self.tcp.lock().await.send(request)`
abbrev pub request : ProtocolRequest → Exchange → Act ProtocolResponse
request req ex g = with_tcp g (send req ex g.tcp)
