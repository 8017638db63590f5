-- ===== src/Center/Host/Laws.antt =====
-- What a center's start leaves, and that its close takes everything down.
use qomicex_connector_rust.Base.{
  ℕ, ◌≡◌, refl, sym, subst, ==_refl, arith, Bool, true, false, All, [], map, Option, none, some,
}
use qomicex_connector_rust.Base.Result.{ok, err}
use qomicex_connector_rust.Error.{Outcome}
use qomicex_connector_rust.Json.{JsonApi}
use qomicex_connector_rust.Models.Network.{NetworkConfig}
use qomicex_connector_rust.Center.Registry.{cancel}
use qomicex_connector_rust.Center.Room.{scan_port, standard_keys, check_keys, network_config}
use qomicex_connector_rust.Center.Server.{opened, close, cancel_token}
use qomicex_connector_rust.EasyTier.Config.{Addresses, TomlConfig}
use qomicex_connector_rust.EasyTier.Instance.{Startup, start}
use qomicex_connector_rust.EasyTier.Instance.Lifecycle.{
  after_calls, IsTidy, start-IsTidy, stop-clear,
}
use qomicex_connector_rust.Center.Host.{
  Host, Site, seen, host_enters, served, start_host, close_host,
}

module _ (api : Addresses) (default : TomlConfig api) (up : Startup (TomlConfig api))
    (site : Site) where
  module _ {C : Type 0} (J : JsonApi) where
    host_enters-kept :
        (h : Host C) (r : Outcome (Unit {0}))
        → ((host_enters api default up site J h r).1.easy_tier ≡ h.easy_tier)
          × ((host_enters api default up site J h r).1.slot ≡ h.slot)
          × ((host_enters api default up site J h r).1.config ≡ h.config)
    unfolding host_enters
    host_enters-kept h (ok u) = (refl, refl, refl)
    host_enters-kept h (err e) = (refl, refl, refl)

    served-IsTidy :
        (deletes : ℕ → Bool) (ct : ℕ) (h : Host C) (r : Outcome (Unit {0}))
        → h.easy_tier.instance_id ≡ none
        → IsTidy deletes h.easy_tier
        → IsTidy deletes (served api default up site J ct h r).1.easy_tier
    unfolding served
    served-IsTidy deletes ct h (err e) i t = t
    served-IsTidy deletes ct h (ok u) i t =
        let config : NetworkConfig =
          network_config J (seen api default up site h.easy_tier) h.tcp_port h.config in
        let (started, m) = start api default up config h.easy_tier in
        subst (IsTidy deletes)
          (sym
            (host_enters-kept (record h { slot = opened ct site.cancelled; easy_tier = m })
              started).0)
          (start-IsTidy deletes api default up config h.easy_tier i t)

    served-config :
        (ct : ℕ) (h : Host C) (r : Outcome (Unit {0}))
        → (served api default up site J ct h r).1.config ≡ h.config
    unfolding served
    served-config ct h (err e) = refl
    served-config ct h (ok u) =
        let config : NetworkConfig =
          network_config J (seen api default up site h.easy_tier) h.tcp_port h.config in
        let (started, m) = start api default up config h.easy_tier in
        (host_enters-kept (record h { slot = opened ct site.cancelled; easy_tier = m }) started).2

    -- A start leaves the configuration alone.
    pub start_host-config :
        (ct : ℕ) (h : Host C) → (start_host api default up site J ct h).1.config ≡ h.config
    unfolding start_host
    start_host-config ct h =
        served-config ct (record h { tcp_port = scan_port site.bindable })
          (check_keys standard_keys (map (λ p. p.key) h.config.custom_protocols))

    -- Whether a center starts or not, EasyTier runs its manager's instance alone,
    -- and what it did not delete.
    pub start_host-IsTidy :
        (deletes : ℕ → Bool) (ct : ℕ) (h : Host C)
        → h.easy_tier.instance_id ≡ none
        → IsTidy deletes h.easy_tier
        → IsTidy deletes (start_host api default up site J ct h).1.easy_tier
    unfolding start_host
    start_host-IsTidy deletes ct h i t =
        served-IsTidy deletes ct (record h { tcp_port = scan_port site.bindable })
          (check_keys standard_keys (map (λ p. p.key) h.config.custom_protocols)) i t

    -- Behind the check of the keys, the server has been started, whatever comes after.
    pub start_host-opened :
        (ct : ℕ) (h : Host C)
        → check_keys standard_keys (map (λ p. p.key) h.config.custom_protocols) ≡ ok tt
        → (start_host api default up site J ct h).1.slot ≡ opened ct site.cancelled
    unfolding start_host served
    start_host-opened ct h k =
        let config : NetworkConfig =
          network_config J (seen api default up site h.easy_tier) (scan_port site.bindable)
            h.config in
        let (started, m) = start api default up config h.easy_tier in
        rw k
          (host_enters-kept
            (record h {
              tcp_port = scan_port site.bindable;
              slot = opened ct site.cancelled;
              easy_tier = m;
            })
            started).1

cancel_token_self :
    (o : Option ℕ) (ct : ℕ) (cancelled : ℕ → Bool)
    → o ≡ some ct
    → cancel_token o cancelled ct ≡ true
unfolding cancel_token cancel
cancel_token_self none ct cancelled e = cc
cancel_token_self (some t) ct cancelled e = ground (arith, ==_refl ct)

module _ (deletes : ℕ → Bool) where
  -- A center that has been taken down: no server in its slot, no instance of EasyTier, and nothing
  -- that runs but what EasyTier did not delete when it was asked to.
  pub record IsClosed {C : Type 0} (h : Host C) : Type 0 where
    pub no_server : h.slot.tcp_server ≡ none
    pub no_token : h.slot.server_ct ≡ none
    pub no_instance : h.easy_tier.instance_id ≡ none
    pub nothing_else_runs : All (λ i. deletes i ≡ false) (after_calls deletes h.easy_tier.calls [])

  -- A center whose EasyTier runs its own instance alone is taken down by its close, and the token of its
  -- server, if it had one, is cancelled.
  pub close_host-IsClosed :
      {C : Type 0} (h : Host C)
      → IsTidy deletes h.easy_tier
      → IsClosed (close_host h)
        × ((ct : ℕ) → h.slot.server_ct ≡ some ct → (close_host h).slot.cancelled ct ≡ true)
  unfolding close_host close
  close_host-IsClosed h t =
      let (runs, id) = stop-clear deletes h.easy_tier t in
      (
        record { no_server = refl; no_token = refl; no_instance = id; nothing_else_runs = runs },
        λ ct e. cancel_token_self h.slot.server_ct ct h.slot.cancelled e,
      )
