-- ===== src/Relay/Provider/Fallback.antt =====
-- The provider always has nodes.
use qomicex_connector_rust.Base.{
  ℕ, suc, ◌+◌, ◌≡◌, ◌≢◌, Text, List, [], ◌∷◌, Option, none, some, arith,
}
use qomicex_connector_rust.Json.{JsonApi}
use qomicex_connector_rust.Relay.Nodes.{default_nodes}
use qomicex_connector_rust.Relay.Provider.{
  endpoint, get_text, RelayNodeProvider, Reply, fetch_nodes, or_default, last_attempt,
  first_attempt, fetch_from, fetch,
}

module _ (J : JsonApi) (http : ℕ → (user_agent url : Text) → Option Reply)
    (p : RelayNodeProvider) where
  or_default-ne-nil : (nodes : List Text) → or_default J http p nodes ≢ []
  unfolding or_default
  or_default-ne-nil [] e = cc
  or_default-ne-nil (node ∷ nodes) e = cc

  last_attempt-ne-nil : (r : Option (List Text) × ℕ) → (last_attempt J http p r).0 ≢ []
  unfolding last_attempt
  last_attempt-ne-nil (none, n) e = cc
  last_attempt-ne-nil (some nodes, n) e = or_default-ne-nil nodes e

  first_attempt-ne-nil :
      (url : Text) (r : Option (List Text) × ℕ) → (first_attempt J http p url r).0 ≢ []
  unfolding first_attempt
  first_attempt-ne-nil url (some nodes, n) e = or_default-ne-nil nodes e
  first_attempt-ne-nil url (none, n) e = last_attempt-ne-nil (fetch_nodes J http p url n) e

  fetch_from-ne-nil : (url : Text) (n : ℕ) → (fetch_from J http p url n).0 ≢ []
  unfolding fetch_from
  fetch_from-ne-nil url n e = first_attempt-ne-nil url (fetch_nodes J http p url n) e

  -- Whatever the service and the nodes answer, the list that is fetched is not empty.
  pub fetch-ne-nil : (n : ℕ) → (fetch J http p n).0 ≢ []
  unfolding fetch
  fetch-ne-nil n e = split p.endpoint_override e
    where
      split :
          (o : Option Text)
          → (elim o as (λ _. List Text × ℕ) [
            | none ↦ fetch_from J http p endpoint n
            | some url ↦ fetch_from J http p url n
          ]).0
            ≢ []
      split none e = fetch_from-ne-nil endpoint n e
      split (some url) e = fetch_from-ne-nil url n e

  -- If the service does not answer two requests, the default nodes are returned after these two.
  pub fetch_from_unreachable :
      (url : Text) (n : ℕ)
      → http n p.user_agent url ≡ none
      → http (suc n) p.user_agent url ≡ none
      → fetch_from J http p url n ≡ (default_nodes, n + 2)
  unfolding fetch_from fetch_nodes get_text
  fetch_from_unreachable url n e1 e2 = ground arith
