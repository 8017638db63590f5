-- ===== src/Client/RelayCache/Laws.antt =====
-- What the cache of relay nodes saves, and what it loses.
use qomicex_connector_rust.Base.{
  ℕ, suc, ◌+◌, ◌-◌, ◌≤◌, ◌<◌, ◌≡◌, ◌≢◌, refl, ap, sym, subst, ◌∙◌, Text, Bool, true, false, List,
  [], ◌∷◌, Option, none, some, if◌then◌else◌, ltb, lt→ltb, le→ltb, arith,
}
use qomicex_connector_rust.Json.{JsonApi}
use qomicex_connector_rust.Relay.Nodes.{default_nodes, resolve}
use qomicex_connector_rust.Relay.Provider.{
  RelayNodeProvider, Reply, new_provider, fetch, fetch_from, endpoint,
}
use qomicex_connector_rust.Relay.Provider.Fallback.{fetch-ne-nil, fetch_from_unreachable}
use qomicex_connector_rust.Client.RelayCache.{
  relay_node_cache_ttl, Settings, Cache, fresh, provider_of, candidates, resolved_now, remember,
  reuse, resolve_relay_nodes,
}

resolve-ne-nil :
    (nodes : List Text) (additional : Option (List Text))
    → nodes ≢ []
    → resolve (some nodes) additional ≢ []
unfolding resolve
resolve-ne-nil [] additional h e = h refl
resolve-ne-nil (n ∷ nodes) none h e = cc
resolve-ne-nil (n ∷ nodes) (some more) h e = cc

-- No cached list is empty.
unfoldable pub IsUsable : Cache → Type 0
IsUsable none = Unit
IsUsable (some (cached_at, nodes)) = nodes ≢ []

fresh-cons :
    (now cached_at : ℕ) (node : Text) (nodes : List Text)
    → now < cached_at + relay_node_cache_ttl
    → fresh now (some (cached_at, node ∷ nodes)) ≡ some (node ∷ nodes)
unfolding fresh
fresh-cons now cached_at node nodes h =
    ground (arith, lt→ltb (now - cached_at) relay_node_cache_ttl)

fresh_old :
    (now cached_at : ℕ) (nodes : List Text)
    → cached_at + relay_node_cache_ttl ≤ now
    → fresh now (some (cached_at, nodes)) ≡ none
unfolding fresh
fresh_old now cached_at [] h = refl
fresh_old now cached_at (node ∷ nodes) h =
    ground (arith, le→ltb (now - cached_at) relay_node_cache_ttl)

fresh-cons-ne-nil :
    (b : Bool) (n : Text) (ns nodes : List Text)
    → (if b then some (n ∷ ns) else none) ≡ some nodes
    → nodes ≢ []
fresh-cons-ne-nil true n ns nodes e q = cc
fresh-cons-ne-nil false n ns nodes e q = cc

fresh-ne-nil :
    (now : ℕ) (cache : Cache) (nodes : List Text) → fresh now cache ≡ some nodes → nodes ≢ []
unfolding fresh
fresh-ne-nil now none nodes e = cc
fresh-ne-nil now (some (cached_at, [])) nodes e = cc
fresh-ne-nil now (some (cached_at, n ∷ ns)) nodes e =
    fresh-cons-ne-nil (ltb (now - cached_at) relay_node_cache_ttl) n ns nodes e

module _ (J : JsonApi) (locale : Option Text) (http : ℕ → (user_agent url : Text) → Option Reply)
    (s : Settings) where
  resolved_now-ne-nil :
      (n : ℕ) → s.override_relay_nodes ≡ none → (resolved_now J locale http s n).0 ≢ []
  unfolding resolved_now candidates
  resolved_now-ne-nil n o =
      subst (λ q. (candidates J locale http s n q).0 ≢ []) (sym o)
        (resolve-ne-nil (fetch J http (provider_of locale s) n).0 s.additional_relay_nodes
          (fetch-ne-nil J http (provider_of locale s) n))

  remember-cached :
      (now : ℕ) (cache : Cache) (r : List Text × ℕ)
      → r.0 ≢ []
      → remember J locale http s now cache r ≡ (r.0, (some (now, r.0), r.1))
  unfolding remember
  remember-cached now cache ([], n) h = ground arith
  remember-cached now cache (node ∷ nodes, n) h = refl

  reuse-ne-nil :
      (now : ℕ) (cache : Cache) (n : ℕ) (o : Option (List Text))
      → s.override_relay_nodes ≡ none
      → fresh now cache ≡ o
      → (reuse J locale http s now cache n o).0 ≢ []
  unfolding reuse
  reuse-ne-nil now cache n none o f =
      rw (remember-cached now cache (resolved_now J locale http s n) (resolved_now-ne-nil n o))
        (resolved_now-ne-nil n o)
  reuse-ne-nil now cache n (some nodes) o f = fresh-ne-nil now cache nodes f

  -- Without an override, the list is never empty, whatever the service answers and the cache holds.
  pub resolve_relay_nodes-ne-nil :
      (now n : ℕ) (cache : Cache)
      → s.override_relay_nodes ≡ none
      → (resolve_relay_nodes J locale http s now (cache, n)).0 ≢ []
  unfolding resolve_relay_nodes
  resolve_relay_nodes-ne-nil now n cache o = reuse-ne-nil now cache n (fresh now cache) o refl

  reuse-again :
      (now cached_at n : ℕ) (nodes : List Text)
      → nodes ≢ []
      → now < cached_at + relay_node_cache_ttl
      → resolve_relay_nodes J locale http s now (some (cached_at, nodes), n)
        ≡ (nodes, (some (cached_at, nodes), n))
  unfolding resolve_relay_nodes reuse
  reuse-again now cached_at n [] h t = ground arith
  reuse-again now cached_at n (node ∷ nodes) h t = rw (fresh-cons now cached_at node nodes t) refl

  resolve_relay_nodes_anew :
      (now n : ℕ) (cache : Cache)
      → fresh now cache ≡ none
      → (resolved_now J locale http s n).0 ≢ []
      → resolve_relay_nodes J locale http s now (cache, n) ≡ (
        (resolved_now J locale http s n).0,
        (some (now, (resolved_now J locale http s n).0), (resolved_now J locale http s n).1),
      )
  unfolding resolve_relay_nodes reuse
  resolve_relay_nodes_anew now n cache f h =
      rw f (remember-cached now cache (resolved_now J locale http s n) h)

  -- A list that is resolved anew, and is not empty, is given out again for the next 300 seconds,
  -- without another request.
  pub resolve_relay_nodes_twice :
      (now later n : ℕ) (cache : Cache)
      → fresh now cache ≡ none
      → (resolved_now J locale http s n).0 ≢ []
      → later < now + relay_node_cache_ttl
      → resolve_relay_nodes J locale http s later
          (resolve_relay_nodes J locale http s now (cache, n)).1
        ≡ resolve_relay_nodes J locale http s now (cache, n)
  resolve_relay_nodes_twice now later n cache f h t =
      rw (resolve_relay_nodes_anew now n cache f h) (
        reuse-again later now (resolved_now J locale http s n).1 (resolved_now J locale http s n).0
          h t)

  fetch_default :
      (p : RelayNodeProvider) (n : ℕ)
      → p.endpoint_override ≡ none
      → fetch J http p n ≡ fetch_from J http p endpoint n
  unfolding fetch
  fetch_default p n e = ground arith

  provider_of_default : s.relay_endpoint ≡ none → (provider_of locale s).endpoint_override ≡ none
  unfolding provider_of new_provider
  provider_of_default e = ground arith

  resolved_now_fetched :
      (n n' : ℕ) (nodes : List Text)
      → s.override_relay_nodes ≡ none
      → fetch J http (provider_of locale s) n ≡ (nodes, n')
      → resolved_now J locale http s n ≡ (resolve (some nodes) s.additional_relay_nodes, n')
  unfolding resolved_now candidates
  resolved_now_fetched n n' nodes o e = ap (candidates J locale http s n) o ∙ rw e refl

  -- On a client without an override and without an endpoint of its own, an expired list is replaced by
  -- the default nodes when the service does not answer two requests: the old list is not kept.
  pub resolve_relay_nodes_down :
      (now cached_at n : ℕ) (nodes : List Text)
      → s.override_relay_nodes ≡ none
      → s.relay_endpoint ≡ none
      → cached_at + relay_node_cache_ttl ≤ now
      → http n (provider_of locale s).user_agent endpoint ≡ none
      → http (suc n) (provider_of locale s).user_agent endpoint ≡ none
      → resolve_relay_nodes J locale http s now (some (cached_at, nodes), n) ≡ (
        resolve none s.additional_relay_nodes,
        (some (now, resolve none s.additional_relay_nodes), n + 2),
      )
  unfolding resolve
  resolve_relay_nodes_down now cached_at n nodes o e t h1 h2 =
      let fetched : fetch J http (provider_of locale s) n ≡ (default_nodes, n + 2) =
        fetch_default (provider_of locale s) n (provider_of_default e)
        ∙ fetch_from_unreachable J http (provider_of locale s) endpoint n h1 h2 in
      let now_is = resolved_now_fetched n (n + 2) default_nodes o fetched in
      resolve_relay_nodes_anew now n (some (cached_at, nodes)) (fresh_old now cached_at nodes t)
        (resolved_now-ne-nil n o)
      ∙ ap (λ r. (r.0, (some (now, r.0), r.1))) now_is
