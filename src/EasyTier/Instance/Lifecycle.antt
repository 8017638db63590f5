-- ===== src/EasyTier/Instance/Lifecycle.antt =====
-- Which instances the library runs after the calls of a manager, and that a manager never loses the
-- one that it started.
use qomicex_connector_rust.Base.{
  ℕ, ◌≡◌, ◌⊎◌, inl, inr, refl, sym, subst, Bool-cases, All, All-append, Bool, true, false, List, [],
  ◌∷◌, ◌++◌, Option, none, some, arith, if◌then◌else◌, ◌==◌, ==_iff, Text,
}
use qomicex_connector_rust.Base.Result.{Result, ok, err}
use qomicex_connector_rust.Error.{Outcome}
use qomicex_connector_rust.Models.Network.{NetworkConfig}
use qomicex_connector_rust.EasyTier.Config.{Addresses, TomlConfig, build_toml_config}
use qomicex_connector_rust.EasyTier.Waiting.{wait_ready, startup_fuel}
use qomicex_connector_rust.EasyTier.Instance.{
  Call, ran, deleted, disconnected, denied, allowed, EasyTierManager, Startup, Instance,
  new_manager, is_running, call, noted, waited, launched, configured, begun, start, delete_held,
  stop,
}

unfoldable pub without : ℕ → List ℕ → List ℕ
without id [] = []
without id (i ∷ is) = let rest = without id is in if i == id then rest else i ∷ rest

-- `deletes` says of an instance whether the library deletes it when it is asked to: the source only logs
-- the error of a deletion.
module _ (deletes : ℕ → Bool) where
  after_call : Call → List ℕ → List ℕ
  unfolding without
  after_call (ran id) running = running ++ id ∷ []
  after_call (deleted id) running = if deletes id then without id running else running
  after_call (disconnected id peer) running = running
  after_call (denied id peer) running = running
  after_call (allowed id peer) running = running

  -- What runs after the calls, where `running` ran before.
  unfoldable pub after_calls : List Call → List ℕ → List ℕ
  unfolding after_call
  after_calls [] running = running
  after_calls (c ∷ calls) running = after_calls calls (after_call c running)

  pub after_calls-append :
      (calls more : List Call) (running : List ℕ)
      → after_calls (calls ++ more) running ≡ after_calls more (after_calls calls running)
  unfolding after_calls
  after_calls-append [] more running = refl
  after_calls-append (c ∷ calls) more running = after_calls-append calls more (after_call c running)

  -- The library runs the manager's instance, if it has one, and otherwise only instances that it was
  -- asked to delete and did not.
  abbrev pub IsTidy : EasyTierManager → Type 0
  IsTidy m = All (λ i. (m.instance_id ≡ some i) ⊎ (deletes i ≡ false)) (after_calls m.calls [])

  pub new_manager-IsTidy : IsTidy new_manager
  unfolding after_calls
  new_manager-IsTidy = tt

  All-failed :
      (o : Option ℕ) (is : List ℕ)
      → o ≡ none
      → All (λ i. (o ≡ some i) ⊎ (deletes i ≡ false)) is
      → All (λ i. deletes i ≡ false) is
  All-failed o [] e h = tt
  All-failed o (i ∷ is) e h =
      (elim h.0 [ inl k ↦ absurd (cc (e, k)) | inr k ↦ k ], All-failed o is e h.1)

  All-running :
      (o : Option ℕ) (is : List ℕ)
      → All (λ i. deletes i ≡ false) is
      → All (λ i. (o ≡ some i) ⊎ (deletes i ≡ false)) is
  All-running o [] h = tt
  All-running o (i ∷ is) h = (inr h.0, All-running o is h.1)

  ran-IsTidy :
      (id : ℕ) (m : EasyTierManager)
      → m.instance_id ≡ none
      → IsTidy m
      → IsTidy (call (ran id) (record m { instance_id = some id }))
  unfolding call after_calls after_call
  ran-IsTidy id m e h =
      subst (All (λ i. (some id ≡ some i) ⊎ (deletes i ≡ false)))
        (sym (after_calls-append m.calls (ran id ∷ []) []))
        (All-append (λ i. (some id ≡ some i) ⊎ (deletes i ≡ false)) (after_calls m.calls [])
          (id ∷ [])
          (All-running (some id) (after_calls m.calls [])
            (All-failed m.instance_id (after_calls m.calls []) e h))
          (inl refl, tt))

  is_held :
      (id i : ℕ) → (i == id) ≡ false → (some id ≡ some i) ⊎ (deletes i ≡ false) → deletes i ≡ false
  is_held id i other (inl e) = absurd (ground (arith, ==_iff i id))
  is_held id i other (inr failed) = failed

  without-failed :
      (id : ℕ) (is : List ℕ)
      → All (λ i. (some id ≡ some i) ⊎ (deletes i ≡ false)) is
      → All (λ i. deletes i ≡ false) (without id is)
  unfolding without
  without-failed id [] h = tt
  without-failed id (i ∷ is) h = elim (Bool-cases (i == id)) [
    | inl same ↦ rw same (without-failed id is h.1)
    | inr other ↦ rw other (is_held id i other h.0, without-failed id is h.1)
  ]

  kept-failed :
      (id : ℕ) (is : List ℕ)
      → deletes id ≡ false
      → All (λ i. (some id ≡ some i) ⊎ (deletes i ≡ false)) is
      → All (λ i. deletes i ≡ false) is
  kept-failed id [] e h = tt
  kept-failed id (i ∷ is) e h =
      (elim h.0 [ inl q ↦ ground arith | inr failed ↦ failed ], kept-failed id is e h.1)

  -- Of what runs, the deletion of the held instance leaves what was not deleted.
  deleted-failed :
      (id : ℕ) (is : List ℕ)
      → All (λ i. (some id ≡ some i) ⊎ (deletes i ≡ false)) is
      → All (λ i. deletes i ≡ false) (if deletes id then without id is else is)
  deleted-failed id is h = elim (Bool-cases (deletes id)) [
    | inl e ↦ rw e (without-failed id is h)
    | inr e ↦ rw e (kept-failed id is e h)
  ]

  noted-IsTidy :
      (config : NetworkConfig) (i : Option Instance) (m : EasyTierManager)
      → IsTidy m
      → IsTidy (noted config i m)
  unfolding noted
  noted-IsTidy config none m h = h
  noted-IsTidy config (some i) m h = h

  delete_held-clear :
      (o : Option ℕ) (m : EasyTierManager)
      → m.instance_id ≡ o
      → IsTidy m
      → All (λ i. deletes i ≡ false) (after_calls (delete_held o m).calls [])
        × ((delete_held o m).instance_id ≡ none)
  unfolding delete_held call after_calls after_call
  delete_held-clear none m e h = (All-failed m.instance_id (after_calls m.calls []) e h, e)
  delete_held-clear (some id) m e h = (
    subst (All (λ i. deletes i ≡ false)) (sym (after_calls-append m.calls (deleted id ∷ []) [])) (
        deleted-failed id (after_calls m.calls []) (
          subst (λ o. All (λ i. (o ≡ some i) ⊎ (deletes i ≡ false)) (after_calls m.calls [])) e h)),
    refl,
  )

  -- After a stop nothing runs but what the library was asked to delete and did not.
  pub stop-clear :
      (m : EasyTierManager)
      → IsTidy m
      → All (λ i. deletes i ≡ false) (after_calls (stop m).calls []) × ((stop m).instance_id ≡ none)
  unfolding stop
  stop-clear m h = delete_held-clear m.instance_id m refl h

  pub stop-IsTidy : (m : EasyTierManager) → IsTidy m → IsTidy (stop m)
  stop-IsTidy m h =
      All-running (stop m).instance_id (after_calls (stop m).calls []) (stop-clear m h).0

  module _ (api : Addresses) (default : TomlConfig api) (up : Startup (TomlConfig api)) where
    waited-IsTidy :
        (config : NetworkConfig) (b : Bool) (m : EasyTierManager)
        → IsTidy m
        → IsTidy (waited api default up config b m).1
    unfolding waited
    waited-IsTidy config true m h = noted-IsTidy config up.instance m h
    waited-IsTidy config false m h = h

    launched-IsTidy :
        (config : NetworkConfig) (r : Result Text ℕ) (m : EasyTierManager)
        → m.instance_id ≡ none
        → IsTidy m
        → IsTidy (launched api default up config r m).1
    unfolding launched
    launched-IsTidy config (err why) m e h = h
    launched-IsTidy config (ok id) m e h =
        waited-IsTidy config (wait_ready up.ready up.extra startup_fuel 0 0)
          (call (ran id) (record m { instance_id = some id })) (ran-IsTidy id m e h)

    configured-IsTidy :
        (config : NetworkConfig) (r : Outcome (TomlConfig api)) (m : EasyTierManager)
        → m.instance_id ≡ none
        → IsTidy m
        → IsTidy (configured api default up config r m).1
    unfolding configured
    configured-IsTidy config (err why) m e h = h
    configured-IsTidy config (ok cfg) m e h =
        launched-IsTidy config (up.run_network_instance cfg) m e h

    begun-IsTidy :
        (config : NetworkConfig) (b : Bool) (m : EasyTierManager)
        → m.instance_id ≡ none
        → IsTidy m
        → IsTidy (begun api default up config b m).1
    unfolding begun
    begun-IsTidy config true m e h = h
    begun-IsTidy config false m e h =
        configured-IsTidy config (build_toml_config api default config)
          (record m { virtual_ip = none; node_id = none }) e h

    -- Whether a start succeeds, fails or times out: the library runs the manager's instance alone, and what
    -- it did not delete.
    pub start-IsTidy :
        (config : NetworkConfig) (m : EasyTierManager)
        → m.instance_id ≡ none
        → IsTidy m
        → IsTidy (start api default up config m).1
    unfolding start
    start-IsTidy config m e h = begun-IsTidy config (is_running up.running m) m e h
