-- ===== src/EasyTier/Instance/InTime.antt =====
-- When a start succeeds.
use qomicex_connector_rust.Base.{ℕ, ◌≤◌, ◌≡◌, refl, Text, Bool, true, false, none, some, arith}
use qomicex_connector_rust.Base.Result.{Result, ok, err}
use qomicex_connector_rust.Error.{Outcome}
use qomicex_connector_rust.Models.Network.{NetworkConfig}
use qomicex_connector_rust.EasyTier.Config.{Addresses, TomlConfig, build_toml_config}
use qomicex_connector_rust.EasyTier.Waiting.{wait_ready, elapsed_at, startup_timeout, startup_fuel}
use qomicex_connector_rust.EasyTier.Waiting.Deadline.{wait_ready_in_time, wait_ready-true}
use qomicex_connector_rust.EasyTier.Instance.{
  EasyTierManager, Startup, is_running, call, ran, waited, launched, configured, begun, start,
}

module _ (api : Addresses) (default : TomlConfig api) (up : Startup (TomlConfig api)) where
  -- A manager whose instance does not run starts, if the configuration is accepted, the library runs
  -- it, and the new instance is ready at a question within 30 s of the first.
  pub start_in_time :
      (config : NetworkConfig) (m : EasyTierManager) (cfg : TomlConfig api) (id k : ℕ)
      → is_running up.running m ≡ false
      → build_toml_config api default config ≡ ok cfg
      → up.run_network_instance cfg ≡ ok id
      → up.ready k ≡ true
      → elapsed_at up.extra k ≤ startup_timeout
      → (start api default up config m).0 ≡ ok tt
  unfolding start begun configured launched waited
  start_in_time config m cfg id k n b r rk t =
      rw (n, b, r, wait_ready_in_time up.ready up.extra k rk t) refl

  waited-ready :
      (config : NetworkConfig) (b : Bool) (m : EasyTierManager)
      → (waited api default up config b m).0 ≡ ok tt
      → b ≡ true
  unfolding waited
  waited-ready config true m e = refl
  waited-ready config false m e = cc

  -- A wait that the start of an instance has come through.
  abbrev pub WasReady : Type 0
  WasReady = (k : ℕ) × (k ≤ startup_fuel) × (up.ready k ≡ true)

  launched-ready :
      (config : NetworkConfig) (r : Result Text ℕ) (m : EasyTierManager)
      → (launched api default up config r m).0 ≡ ok tt
      → WasReady
  unfolding launched
  launched-ready config (err why) m e = cc
  launched-ready config (ok id) m e =
      let (k, l, rk) = wait_ready-true up.ready up.extra startup_fuel 0 0 (
        waited-ready config (wait_ready up.ready up.extra startup_fuel 0 0)
          (call (ran id) (record m { instance_id = some id })) e) in
      (k, ground arith, rk)

  configured-ready :
      (config : NetworkConfig) (r : Outcome (TomlConfig api)) (m : EasyTierManager)
      → (configured api default up config r m).0 ≡ ok tt
      → WasReady
  unfolding configured
  configured-ready config (err why) m e = cc
  configured-ready config (ok cfg) m e = launched-ready config (up.run_network_instance cfg) m e

  begun-ready :
      (config : NetworkConfig) (b : Bool) (m : EasyTierManager)
      → (begun api default up config b m).0 ≡ ok tt
      → WasReady
  unfolding begun
  begun-ready config true m e = cc
  begun-ready config false m e =
      configured-ready config (build_toml_config api default config)
        (record m { virtual_ip = none; node_id = none }) e

  -- A start that succeeds has seen the instance ready, at one of 61 questions.
  pub start-ready :
      (config : NetworkConfig) (m : EasyTierManager)
      → (start api default up config m).0 ≡ ok tt
      → WasReady
  unfolding start
  start-ready config m e = begun-ready config (is_running up.running m) m e
