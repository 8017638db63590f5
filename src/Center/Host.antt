-- ===== src/Center/Host.antt =====
-- `ScaffoldingCenter` of crates/qomicex-connector/src/center/scaffolding_center.rs as it changes: the
-- slot of its server, its EasyTier manager and what its handlers share. `start` leaves the state
-- that it has reached, also where it fails.
pub mod Laws
pub mod Peers
pub mod Room
use qomicex_connector_rust.Base.{ℕ, Text, Bool, false, List, [], Option, none, some, map}
use qomicex_connector_rust.Base.Result.{Result, ok, err}
use qomicex_connector_rust.Error.{Outcome}
use qomicex_connector_rust.Json.{JsonApi}
use qomicex_connector_rust.Models.Network.{NetworkConfig}
use qomicex_connector_rust.Center.Players.{Players, host_joins}
use qomicex_connector_rust.Center.Room.{
  Shared, CenterConfig, Surroundings, scan_port, standard_keys, check_keys, network_config,
}
use qomicex_connector_rust.Center.Server.{Slot, Task, waiting, opened, close}
use qomicex_connector_rust.EasyTier.Config.{Addresses, TomlConfig}
use qomicex_connector_rust.EasyTier.Instance.{EasyTierManager, Startup, new_manager, start, stop}

pub record Host (C : Type 0) : Type 0 where
  pub config : CenterConfig C
  pub tcp_port : ℕ
  pub slot : Slot
  pub easy_tier : EasyTierManager
  pub shared : Shared C

-- What `start` finds: the ports, the privileges, the address of the physical network, and which tokens
-- are cancelled.
pub record Site : Type 0 where
  pub bindable : ℕ → Bool
  pub is_elevated : Bool
  pub resolve_bind_ip : Option Text
  pub cancelled : ℕ → Bool

unfoldable pub at_site : Site → (NetworkConfig → Outcome (Option Text)) → Surroundings
at_site site easy_tier_start = record {
  bindable = site.bindable;
  is_elevated = site.is_elevated;
  resolve_bind_ip = site.resolve_bind_ip;
  easy_tier_start = easy_tier_start;
}

-- A slot without a server, as `ScaffoldingCenter::new` makes it.
abbrev pub empty_slot : Slot
empty_slot = record { tcp_server = none; server_ct = none; task = waiting; cancelled = λ t. false }

-- `ScaffoldingCenter::new`, with the state of the custom handlers.
abbrev pub new_host : {C : Type 0} → CenterConfig C → C → Host C
new_host config custom = record {
  config = config;
  tcp_port = 0;
  slot = empty_slot;
  easy_tier = new_manager;
  shared = record {
    players = record { list = []; receivers = 0; notified = none };
    custom = custom;
  };
}

-- The start of the manager as `start` of a room sees it: an error, or the id of the node.
unfoldable pub node_of : Outcome (Unit {0}) × EasyTierManager → Outcome (Option Text)
node_of (ok u, m) = ok m.node_id
node_of (err e, m) = err e

module _ (api : Addresses) (default : TomlConfig api) (up : Startup (TomlConfig api))
    (site : Site) where
  unfoldable pub seen : EasyTierManager → Surroundings
  unfolding node_of
  seen m = at_site site (λ config. node_of (start api default up config m))

  module _ {C : Type 0} (J : JsonApi) where
    host_enters : Host C → Outcome (Unit {0}) → Outcome (Unit {0}) × Host C
    host_enters h (err e) = (err e, h)
    host_enters h (ok u) = (
      ok tt,
      record h {
        shared = record h.shared {
          players =
              host_joins h.config.player_name h.config.machine_id h.easy_tier.node_id
                h.config.vendor h.shared.players;
        };
      },
    )

    served : ℕ → Host C → Outcome (Unit {0}) → Outcome (Unit {0}) × Host C
    unfolding host_enters
    served ct h (err e) = (err e, h)
    served ct h (ok u) =
        let config = network_config J (seen h.easy_tier) h.tcp_port h.config in
        let (started, m) = start api default up config h.easy_tier in
        host_enters (record h { slot = opened ct site.cancelled; easy_tier = m }) started

    unfoldable pub start_host : ℕ → Host C → Outcome (Unit {0}) × Host C
    unfolding served
    start_host ct h =
        served ct (record h { tcp_port = scan_port site.bindable })
          (check_keys standard_keys (map (λ p. p.key) h.config.custom_protocols))

-- `ScaffoldingCenter::close`: the server and the manager are stopped.
unfoldable pub close_host : {C : Type 0} → Host C → Host C
close_host h = record h { slot = close h.slot; easy_tier = stop h.easy_tier }
