-- ===== src/Guest/Member.antt =====
-- `ScaffoldingGuest` of crates/qomicex-connector/src/guest/scaffolding_guest.rs together with its
-- EasyTier manager: `connect` and `leave` as they change both.
pub mod Laws
use qomicex_connector_rust.Base.{ℕ, Text, Option}
use qomicex_connector_rust.Base.Result.{Result, ok, err}
use qomicex_connector_rust.Error.{Outcome}
use qomicex_connector_rust.Json.{JsonApi}
use qomicex_connector_rust.Models.RoomCode.{RoomCode}
use qomicex_connector_rust.Guest.Session.{Profile, Guest, new_guest}
use qomicex_connector_rust.Guest.Joining.{Way, guest_config, connect_room, leave}
use qomicex_connector_rust.EasyTier.Config.{Addresses, TomlConfig}
use qomicex_connector_rust.EasyTier.Instance.{
  EasyTierManager, Instance, Startup, new_manager, start, stop, get_nodes,
}
use qomicex_connector_rust.EasyTier.Peers.{apply_config_patch}

pub record Member : Type 0 where
  pub profile : Profile
  pub guest : Guest
  pub easy_tier : EasyTierManager

-- `ScaffoldingGuest::new`
abbrev pub new_member : Profile → Member
new_member profile = record { profile = profile; guest = new_guest; easy_tier = new_manager }

-- What EasyTier answers while a guest joins: the start, the instance at each question of discovery and
-- when the forwarding rule is added, and the answer to that.
pub record Net (api : Addresses) : Type 0 where
  pub startup : Startup (TomlConfig api)
  pub instances : ℕ → ℕ → Option Instance
  pub at_patch : ℕ → Option Instance
  pub patched : api.SocketAddr × api.SocketAddr → Result Text (Unit {0})

module _ (J : JsonApi) (api : Addresses) (default : TomlConfig api) (net : Net api) (way : Way)
    (code : RoomCode) where
  -- The surroundings of `connect` after the manager's start.
  unfoldable pub through : Outcome (Unit {0}) × EasyTierManager → Way
  through (started, m) = record way {
    easy_tier_start = λ config. started;
    nodes = λ i. get_nodes (net.instances i) m;
  }

  unfoldable pub connect : Member → Outcome (Unit {0}) × Member
  unfolding through
  connect member =
      let config =
        guest_config J member.profile member.easy_tier.node_id api.socket_addr (λ a. ok tt) way
          code in
      let (started, m) = start api default net.startup config member.easy_tier in
      let (outcome, g) =
        connect_room J member.profile m.node_id api.socket_addr
          (λ a. apply_config_patch net.at_patch (net.patched a) m) (through (started, m)) code
          member.guest in
      (outcome, record member { guest = g; easy_tier = m })

-- `leave`: the heartbeat, the connection and the network are stopped.
unfoldable pub leave_room : Member → Member
leave_room member = record member { guest = leave member.guest; easy_tier = stop member.easy_tier }
