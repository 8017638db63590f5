-- ===== src/Client/Rooms.antt =====
-- `create_room`, `join_room` and `close_all` of crates/qomicex-connector/src/client.rs. The clock, the
-- HTTP client and EasyTier are parameters.
pub mod Sound
pub mod Failures
pub mod Created
use qomicex_connector_rust.Base.{ℕ, Text, Bool, List, [], ◌∷◌, ◌++◌, map, Option, none, some}
use qomicex_connector_rust.Base.Result.{Result, ok, err}
use qomicex_connector_rust.Error.{Outcome}
use qomicex_connector_rust.Json.{JsonApi}
use qomicex_connector_rust.Models.RoomCode.{RoomCode, parse}
use qomicex_connector_rust.Models.Player.{PlayerInfo}
use qomicex_connector_rust.Protocols.{ProtocolHandler}
use qomicex_connector_rust.Relay.Provider.{Reply}
use qomicex_connector_rust.Center.Room.{Shared, CenterConfig}
use qomicex_connector_rust.Center.Server.{cancel_token}
use qomicex_connector_rust.Center.Host.{Host, Site, new_host, start_host, close_host}
use qomicex_connector_rust.Guest.Session.{Profile}
use qomicex_connector_rust.Guest.Joining.{Way}
use qomicex_connector_rust.Guest.Member.{Member, Net, new_member, connect, leave_room}
use qomicex_connector_rust.EasyTier.Config.{Addresses, TomlConfig}
use qomicex_connector_rust.EasyTier.Instance.{Startup}
use qomicex_connector_rust.Client.RelayCache.{Settings, Cache, resolve_relay_nodes}

-- The fields that change, and the number of the next request. `abandoned_centers` and
-- `abandoned_guests` are no fields of the source: what a call that failed has dropped.
pub record Client (C : Type 0) : Type 0 where
  pub cached_relay_nodes : Cache
  pub requests : ℕ
  pub managed_centers : List (Host C)
  pub managed_guests : List Member
  pub abandoned_centers : List (Host C)
  pub abandoned_guests : List Member

-- `ScaffoldingClient::new`
abbrev pub new_client : {C : Type 0} → Client C
new_client = record {
  cached_relay_nodes = none;
  requests = 0;
  managed_centers = [];
  managed_guests = [];
  abandoned_centers = [];
  abandoned_guests = [];
}

-- What `create_room` is given besides the room code, the token and the nodes.
pub record Creation (C : Type 0) : Type 0 where
  pub player_name : Text
  pub machine_id : Text
  pub vendor : Text
  pub minecraft_port : ℕ
  pub custom_protocols : List (ProtocolHandler (Shared C))
  pub player_ping_handler : Option (PlayerInfo → Shared C → Bool × Shared C)
  pub custom : C

-- What `join_room` is given besides the room code, the token and the nodes.
pub record Joiner : Type 0 where
  pub player_name : Text
  pub machine_id : Text
  pub vendor : Text
  pub custom_protocol_keys : List Text

abbrev pub center_config : {C : Type 0} → RoomCode → List Text → Creation C → CenterConfig C
center_config room_code relay_nodes c = record {
  room_code = room_code;
  player_name = c.player_name;
  machine_id = c.machine_id;
  vendor = c.vendor;
  minecraft_port = c.minecraft_port;
  relay_nodes = some relay_nodes;
  custom_protocols = c.custom_protocols;
  player_ping_handler = c.player_ping_handler;
}

abbrev pub profile_of : List Text → Joiner → Profile
profile_of relay_nodes j = record {
  player_name = j.player_name;
  machine_id = j.machine_id;
  vendor = j.vendor;
  custom_protocol_keys = j.custom_protocol_keys;
  relay_nodes = some relay_nodes;
}

module _ {C : Type 0} (J : JsonApi) (locale : Option Text)
    (http : ℕ → (user_agent url : Text) → Option Reply) (s : Settings) (api : Addresses)
    (default : TomlConfig api) where
  -- `self.resolve_relay_nodes()`
  unfoldable pub relay_nodes : ℕ → Client C → List Text × Client C
  relay_nodes now client =
      let (nodes, (cache, n)) =
        resolve_relay_nodes J locale http s now (client.cached_relay_nodes, client.requests) in
      (nodes, record client { cached_relay_nodes = cache; requests = n })

  created : Client C → Outcome (Unit {0}) × Host C → Outcome (Host C) × Client C
  created client (ok u, h) =
      (ok h, record client { managed_centers = client.managed_centers ++ h ∷ [] })
  created client (err e, h) =
      (err e, record client { abandoned_centers = client.abandoned_centers ++ h ∷ [] })

  -- The code is the one that was generated, `ct` the token.
  unfoldable pub create_room :
      Startup (TomlConfig api)
      → Site
      → ℕ
      → RoomCode
      → ℕ
      → Creation C
      → Client C
      → Outcome (Host C) × Client C
  unfolding created
  create_room up site now room_code ct c client =
      let (nodes, client1) = relay_nodes now client in
      created client1
        (start_host api default up site J ct (new_host (center_config room_code nodes c) c.custom))

  joined : Client C → Outcome (Unit {0}) × Member → Outcome Member × Client C
  joined client (ok u, m) =
      (ok m, record client { managed_guests = client.managed_guests ++ m ∷ [] })
  joined client (err e, m) =
      (err e, record client { abandoned_guests = client.abandoned_guests ++ leave_room m ∷ [] })

  entering : Net api → Way → ℕ → Outcome RoomCode → Joiner → Client C → Outcome Member × Client C
  unfolding joined
  entering net way now (err e) j client = (err e, client)
  entering net way now (ok code) j client =
      let (nodes, client1) = relay_nodes now client in
      joined client1 (connect J api default net way code (new_member (profile_of nodes j)))

  unfoldable pub join_room :
      Net api → Way → ℕ → Text → Joiner → Client C → Outcome Member × Client C
  unfolding entering
  join_room net way now room_code_str j client = entering net way now (parse room_code_str) j client

-- The tokens that are cancelled when the centers are closed, where `cancelled` were before.
unfoldable pub cancelled_by : {C : Type 0} → List (Host C) → (ℕ → Bool) → ℕ → Bool
cancelled_by [] cancelled = cancelled
cancelled_by (h ∷ hs) cancelled = cancelled_by hs (cancel_token h.slot.server_ct cancelled)

-- A center whose token may be shared with centers that are closed.
abbrev pub beside : {C : Type 0} → List (Host C) → Host C → Host C
beside closing h = record h {
  slot = record h.slot { cancelled = cancelled_by closing h.slot.cancelled };
}

-- What was managed, after its close, and the client without it. The cancellations reach every center
-- under one of the tokens, also those that the client does not manage.
unfoldable pub close_all : {C : Type 0} → Client C → (List (Host C) × List Member) × Client C
close_all client = (
  (
    map (λ h. beside client.managed_centers (close_host h)) client.managed_centers,
    map leave_room client.managed_guests,
  ),
  record client {
    managed_centers = [];
    managed_guests = [];
    abandoned_centers = map (beside client.managed_centers) client.abandoned_centers;
  },
)
