-- ===== src/EasyTier/Instance/Restart.antt =====
-- What a manager loses that is started again while its instance is not ready.
use qomicex_connector_rust.Base.{
  ℕ, ◌≡◌, ◌≢◌, refl, ap, ◌∙◌, Bool, true, false, List, [], ◌∷◌, ◌++◌, Option, none, some, arith,
  ==_iff, if◌then◌else◌,
}
use qomicex_connector_rust.Base.Result.{ok}
use qomicex_connector_rust.Models.Network.{NetworkConfig}
use qomicex_connector_rust.EasyTier.Config.{Addresses, TomlConfig, build_toml_config}
use qomicex_connector_rust.EasyTier.Waiting.{wait_ready, startup_fuel}
use qomicex_connector_rust.EasyTier.Instance.{
  Call, ran, deleted, EasyTierManager, Startup, Instance, is_running, call, noted, waited, launched,
  configured, begun, start, delete_held, stop,
}
use qomicex_connector_rust.EasyTier.Instance.Lifecycle.{without, after_calls, after_calls-append}

noted-kept :
    (config : NetworkConfig) (i : Option Instance) (m : EasyTierManager)
    → ((noted config i m).calls ≡ m.calls) × ((noted config i m).instance_id ≡ m.instance_id)
unfolding noted
noted-kept config none m = (refl, refl)
noted-kept config (some i) m = (refl, refl)

delete_held-calls :
    (o : Option ℕ) (m : EasyTierManager) (id : ℕ)
    → o ≡ some id
    → (delete_held o m).calls ≡ m.calls ++ deleted id ∷ []
unfolding delete_held call
delete_held-calls none m id e = cc
delete_held-calls (some i) m id e = ground arith

module _ (deletes : ℕ → Bool) where
  without-first : (old new : ℕ) → new ≢ old → without new (old ∷ new ∷ []) ≡ old ∷ []
  unfolding without
  without-first old new d = ground (arith, ==_iff old new, ==_iff new new)

  stop-replaced :
      (m : EasyTierManager) (calls : List Call) (old new : ℕ)
      → m.calls ≡ calls ++ ran new ∷ []
      → m.instance_id ≡ some new
      → after_calls deletes calls [] ≡ old ∷ []
      → new ≢ old
      → after_calls deletes (stop m).calls [] ≡ (if deletes new then old ∷ [] else old ∷ new ∷ [])
  unfolding stop after_calls
  stop-replaced m calls old new c i h d =
      ap (λ cs. after_calls deletes cs []) (delete_held-calls m.instance_id m new i)
      ∙ after_calls-append deletes m.calls (deleted new ∷ []) []
      ∙ ap (λ is. if deletes new then without new is else is)
          (ap (λ cs. after_calls deletes cs []) c
            ∙ after_calls-append deletes calls (ran new ∷ []) []
            ∙ ap (λ l. l ++ new ∷ []) h)
      ∙ ap (λ is. if deletes new then is else old ∷ new ∷ []) (without-first old new d)

  module _ (api : Addresses) (default : TomlConfig api) (up : Startup (TomlConfig api)) where
    waited-kept :
        (config : NetworkConfig) (b : Bool) (m : EasyTierManager)
        → ((waited api default up config b m).1.calls ≡ m.calls)
          × ((waited api default up config b m).1.instance_id ≡ m.instance_id)
    unfolding waited
    waited-kept config true m = noted-kept config up.instance m
    waited-kept config false m = (refl, refl)

    begun-launched :
        (config : NetworkConfig) (m : EasyTierManager) (new : ℕ) (cfg : TomlConfig api)
        → build_toml_config api default config ≡ ok cfg
        → up.run_network_instance cfg ≡ ok new
        → ((begun api default up config false m).1.calls ≡ m.calls ++ ran new ∷ [])
          × ((begun api default up config false m).1.instance_id ≡ some new)
    unfolding begun configured launched call
    begun-launched config m new cfg b n =
        rw (b, n)
          (waited-kept config (wait_ready up.ready up.extra startup_fuel 0 0) (record m {
            virtual_ip = none;
            node_id = none;
            instance_id = some new;
            calls = m.calls ++ ran new ∷ [];
          }))

    -- A manager that holds an instance which is not ready, as after a timeout, loses it when it is
    -- started again and the library runs a new one: stopping the manager leaves the old one running.
    pub stop-start-forgets :
        (config : NetworkConfig) (m : EasyTierManager) (old new : ℕ) (cfg : TomlConfig api)
        → m.instance_id ≡ some old
        → after_calls deletes m.calls [] ≡ old ∷ []
        → up.running old ≡ false
        → build_toml_config api default config ≡ ok cfg
        → up.run_network_instance cfg ≡ ok new
        → new ≢ old
        → after_calls deletes (stop (start api default up config m).1).calls []
          ≡ (if deletes new then old ∷ [] else old ∷ new ∷ [])
    unfolding start is_running
    stop-start-forgets config m old new cfg e h r b n d =
        let s : is_running up.running m ≡ false = ground arith in
        let (c, i) = begun-launched config m new cfg b n in
        rw s (stop-replaced (begun api default up config false m).1 m.calls old new c i h d)
