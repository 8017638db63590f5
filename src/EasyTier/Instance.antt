-- ===== src/EasyTier/Instance.antt =====
-- `EasyTierManager` of crates/qomicex-connector/src/easytier/manager.rs: one instance of the EasyTier
-- library, from its start to its stop. The library's answers are parameters; the calls that change
-- what it runs are recorded.
pub mod Lifecycle
pub mod Restart
pub mod InTime
use qomicex_connector_rust.Base.{
  ℕ, ◌+◌, ◌*◌, ◌/◌, ◌%◌, ◌^◌, Text, codes, Bool, true, false, List, [], ◌∷◌, ◌++◌, map, Option,
  none, some, decimal, ipv4_text,
}
use qomicex_connector_rust.Base.Result.{Result, ok, err}
use qomicex_connector_rust.Error.{Outcome, easy_tier_start, easy_tier_timeout}
use qomicex_connector_rust.Models.Network.{NetworkConfig, EasyTierNode}
use qomicex_connector_rust.EasyTier.Config.{Addresses, TomlConfig, build_toml_config, strip_cidr}
use qomicex_connector_rust.EasyTier.Waiting.{wait_ready, startup_fuel}

-- The calls of the library. Instances and peers are numbers.
pub data Call : Type 0 where
  ran : ℕ → Call
  deleted : ℕ → Call
  disconnected : (instance_id peer_id : ℕ) → Call
  denied : (instance_id peer_id : ℕ) → Call
  allowed : (instance_id peer_id : ℕ) → Call

pub record EasyTierManager : Type 0 where
  pub instance_id : Option ℕ
  pub virtual_ip : Option Text
  pub node_id : Option Text
  pub calls : List Call

-- `EasyTierManager::new`
abbrev pub new_manager : EasyTierManager
new_manager = record { instance_id = none; virtual_ip = none; node_id = none; calls = [] }

-- A route of the library: its address, if it has one, as the number of 32 bits.
pub record Route : Type 0 where
  pub ipv4_addr : Option (Option ℕ)
  pub hostname : Text
  pub peer_id : ℕ

-- What an instance of the library answers.
pub record Instance : Type 0 where
  pub peer_id : Text
  pub ipv4_addr : Option Text
  pub routes : List Route

-- What the library and the clock answer to `start`: whether an earlier instance is ready, the number of
-- the new one or the library's error, whether it is ready when it is asked, how much longer each
-- sleep takes, and the instance after the wait.
pub record Startup (Toml : Type 0) : Type 0 where
  pub running : ℕ → Bool
  pub run_network_instance : Toml → Result Text ℕ
  pub ready : ℕ → Bool
  pub extra : ℕ → ℕ
  pub instance : Option Instance

unfoldable pub is_running : (ℕ → Bool) → EasyTierManager → Bool
is_running running m = elim m.instance_id [ none ↦ false | some id ↦ running id ]

-- `self.calls` is no field of the source: it is what the library is asked for.
unfoldable pub call : Call → EasyTierManager → EasyTierManager
call c m = record m { calls = m.calls ++ c ∷ [] }

address_of : Option Text → Option Text → Option Text
address_of (some ip) snapshot = some (strip_cidr ip)
address_of none snapshot = snapshot

-- The caches that a started instance fills.
unfoldable pub noted : NetworkConfig → Option Instance → EasyTierManager → EasyTierManager
unfolding address_of
noted config none m = m
noted config (some i) m = record m {
  node_id = some i.peer_id;
  virtual_ip = address_of config.ipv4 i.ipv4_addr;
}

module _ (api : Addresses) (default : TomlConfig api) (up : Startup (TomlConfig api)) where
  waited : NetworkConfig → Bool → EasyTierManager → Outcome (Unit {0}) × EasyTierManager
  waited config false m = (err (easy_tier_timeout (codes "EasyTier 启动超时 (30s)")), m)
  waited config true m = (ok tt, noted config up.instance m)

  launched : NetworkConfig → Result Text ℕ → EasyTierManager → Outcome (Unit {0}) × EasyTierManager
  unfolding waited
  launched config (err why) m = (err (easy_tier_start (codes "启动 EasyTier 实例失败: " ++ why)), m)
  launched config (ok id) m =
      waited config (wait_ready up.ready up.extra startup_fuel 0 0)
        (call (ran id) (record m { instance_id = some id }))

  configured :
      NetworkConfig
      → Outcome (TomlConfig api)
      → EasyTierManager
      → Outcome (Unit {0}) × EasyTierManager
  unfolding launched
  configured config (err e) m = (err e, m)
  configured config (ok cfg) m = launched config (up.run_network_instance cfg) m

  begun : NetworkConfig → Bool → EasyTierManager → Outcome (Unit {0}) × EasyTierManager
  unfolding configured
  begun config true m = (err (easy_tier_start (codes "EasyTier 已在运行中")), m)
  begun config false m =
      configured config (build_toml_config api default config)
        (record m { virtual_ip = none; node_id = none })

  unfoldable pub start : NetworkConfig → EasyTierManager → Outcome (Unit {0}) × EasyTierManager
  unfolding begun
  start config m = begun config (is_running up.running m) m

delete_held : Option ℕ → EasyTierManager → EasyTierManager
delete_held none m = m
delete_held (some id) m = call (deleted id) (record m { instance_id = none })

-- The result is always a success: the library's errors are only logged.
unfoldable pub stop : EasyTierManager → EasyTierManager
unfolding delete_held
stop m = record (delete_held m.instance_id m) { virtual_ip = none; node_id = none }

route_ip : Option (Option ℕ) → Text
route_ip none = []
route_ip (some none) = []
route_ip (some (some a)) = ipv4_text a

unfoldable pub route_to_node : Route → EasyTierNode
unfolding route_ip
route_to_node r = record {
  virtual_ip = route_ip r.ipv4_addr;
  hostname = r.hostname;
  node_id = decimal r.peer_id;
}

routes_of : Option Instance → List EasyTierNode
routes_of none = []
routes_of (some i) = map route_to_node i.routes

-- The library's instance of a number, if it still has it, is a parameter.
unfoldable pub get_nodes : (ℕ → Option Instance) → EasyTierManager → List EasyTierNode
unfolding routes_of
get_nodes instance m = elim m.instance_id [ none ↦ [] | some id ↦ routes_of (instance id) ]
