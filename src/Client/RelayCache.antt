-- ===== src/Client/RelayCache.antt =====
-- `resolve_relay_nodes` of crates/qomicex-connector/src/client.rs: the relay nodes with their cache.
-- The clock is in milliseconds; requests are numbered as in the provider.
pub mod Laws
use qomicex_connector_rust.Base.{
  ℕ, ◌-◌, Text, Bool, true, false, not, ◌&&◌, List, [], ◌∷◌, Option, none, some, is_empty, ltb,
  if◌then◌else◌,
}
use qomicex_connector_rust.Json.{JsonApi}
use qomicex_connector_rust.Relay.Nodes.{resolve}
use qomicex_connector_rust.Relay.Provider.{
  RelayNodeProvider, Reply, new_provider, with_endpoint, fetch,
}

abbrev pub relay_node_cache_ttl : ℕ
relay_node_cache_ttl = 300000

-- What `ScaffoldingClient::new` and `with_relay_endpoint` are given.
pub record Settings : Type 0 where
  pub override_relay_nodes : Option (List Text)
  pub additional_relay_nodes : Option (List Text)
  pub user_agent : Option Text
  pub preferred_region : Option Text
  pub relay_endpoint : Option Text

-- The time at which a list was resolved, and the list.
abbrev pub Cache : Type 0
Cache = Option (ℕ × List Text)

-- The cached list, if it is not empty and not too old.
unfoldable pub fresh : ℕ → Cache → Option (List Text)
fresh now none = none
fresh now (some (cached_at, nodes)) =
    if not (is_empty nodes) && ltb (now - cached_at) relay_node_cache_ttl then some nodes else none

unfoldable pub stale_or : Cache → List Text → List Text
stale_or none nodes = nodes
stale_or (some (cached_at, stale)) nodes = if is_empty stale then nodes else stale

unfoldable pub provider_of : Option Text → Settings → RelayNodeProvider
provider_of locale s = elim s.relay_endpoint [
  | none ↦ new_provider locale s.user_agent s.preferred_region
  | some ep ↦ with_endpoint ep (new_provider locale s.user_agent s.preferred_region)
]

module _ (J : JsonApi) (locale : Option Text) (http : ℕ → (user_agent url : Text) → Option Reply)
    (s : Settings) where
  candidates : ℕ → Option (List Text) → List Text × ℕ
  candidates n none =
      let (fetched, n') = fetch J http (provider_of locale s) n in
      (resolve (some fetched) s.additional_relay_nodes, n')
  candidates n (some nodes) = (resolve (some nodes) s.additional_relay_nodes, n)

  -- The list of the override, or the one that is fetched, and the number of the next request.
  unfoldable pub resolved_now : ℕ → List Text × ℕ
  unfolding candidates
  resolved_now n = candidates n s.override_relay_nodes

  -- A list that is not empty is cached; an empty one gives way to the old list.
  unfoldable pub remember : ℕ → Cache → List Text × ℕ → List Text × (Cache × ℕ)
  unfolding stale_or
  remember now cache ([], n) = (stale_or cache [], (cache, n))
  remember now cache (node ∷ nodes, n) = (node ∷ nodes, (some (now, node ∷ nodes), n))

  reuse : ℕ → Cache → ℕ → Option (List Text) → List Text × (Cache × ℕ)
  unfolding remember
  reuse now cache n (some nodes) = (nodes, (cache, n))
  reuse now cache n none = remember now cache (resolved_now n)

  unfoldable pub resolve_relay_nodes : ℕ → Cache × ℕ → List Text × (Cache × ℕ)
  unfolding reuse
  resolve_relay_nodes now (cache, n) = reuse now cache n (fresh now cache)
