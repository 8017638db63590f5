-- ===== src/Relay/Provider.antt =====
-- crates/qomicex-connector/src/relay/provider.rs: fetching the relay nodes. The answers of the HTTP
-- client, a library, are a function of the request's number and address; a result comes with the
-- number of the next request.
pub mod Fallback
use qomicex_connector_rust.Base.{
  ℕ, suc, Text, codes, Bool, true, false, ◌||◌, List, [], ◌∷◌, Option, none, some, is_empty, trim,
  split, to_ascii_uppercase, starts_ignore_ascii_case, if◌then◌else◌,
}
use qomicex_connector_rust.Json.{JsonApi}
use qomicex_connector_rust.Relay.Nodes.{default_nodes}
use qomicex_connector_rust.Relay.Parse.{parse_nodes}

abbrev pub endpoint : Text
endpoint = codes "https://nodes.qomicex.top/api/nodes"

abbrev pub default_user_agent : Text
default_user_agent = codes "Qomicex.Connector/1.0"

second : List Text → Text
second (a ∷ b ∷ parts) = b
second (a ∷ []) = []
second [] = []

has_second : List Text → Bool
has_second (a ∷ b ∷ parts) = true
has_second (a ∷ []) = false
has_second [] = false

-- The region in the system's locale, which is a parameter, or `CN`.
unfoldable pub detect_system_region : Option Text → Text
unfolding second has_second
detect_system_region none = codes "CN"
detect_system_region (some locale) =
    if has_second (split b'-' locale)
    then to_ascii_uppercase (second (split b'-' locale))
    else codes "CN"

unfoldable pub is_http_url : Text → Bool
is_http_url node =
    starts_ignore_ascii_case (codes "http://") node
    || starts_ignore_ascii_case (codes "https://") node

pub record RelayNodeProvider : Type 0 where
  pub user_agent : Text
  pub preferred_region : Option Text
  pub endpoint_override : Option Text

agent_of : Option Text → Text
agent_of none = default_user_agent
agent_of (some s) = if is_empty (trim s) then default_user_agent else s

region_of : Option Text → Option Text → Text
region_of locale none = detect_system_region locale
region_of locale (some region) = region

-- `RelayNodeProvider::new`
unfoldable pub new_provider : (locale : Option Text) → Option Text → Option Text → RelayNodeProvider
unfolding agent_of region_of
new_provider locale user_agent preferred_region = record {
  user_agent = agent_of user_agent;
  preferred_region = some (region_of locale preferred_region);
  endpoint_override = none;
}

unfoldable pub with_endpoint : Text → RelayNodeProvider → RelayNodeProvider
with_endpoint url p = record p { endpoint_override = some url }

-- The answer to a request: whether its status is a success, and its text, if it can be read.
pub record Reply : Type 0 where
  pub success : Bool
  pub text : Option Text

body_of : Option Reply → Option Text
body_of none = none
body_of (some r) = if r.success then r.text else none

trimmed : Option Text → Option Text
trimmed none = none
trimmed (some body) = if is_empty (trim body) then none else some (trim body)

module _ (J : JsonApi) (http : ℕ → (user_agent url : Text) → Option Reply)
    (p : RelayNodeProvider) where
  -- `client.get(url)…text()`
  unfoldable pub get_text : Text → ℕ → Option Text × ℕ
  unfolding body_of
  get_text url n = (body_of (http n p.user_agent url), suc n)

  unfoldable pub resolve_http_node_once : Text → ℕ → Option Text × ℕ
  unfolding trimmed
  resolve_http_node_once url n = let (body, n') = get_text url n in (trimmed body, n')

  -- A second attempt where the first one fails.
  unfoldable pub resolve_http_node : Text → ℕ → Option Text × ℕ
  resolve_http_node url n =
      let (first, n1) = resolve_http_node_once url n in
      elim first [ some actual ↦ (some actual, n1) | none ↦ resolve_http_node_once url n1 ]

  -- The loop over the nodes: an http node is replaced by its answer, or passed over.
  unfoldable pub resolve_all : List Text → ℕ → List Text × ℕ
  resolve_all [] n = ([], n)
  resolve_all (node ∷ nodes) n = elim (is_http_url node) [
    | false ↦ let (rest, n') = resolve_all nodes n in (node ∷ rest, n')
    | true ↦
        let (actual, n1) = resolve_http_node node n in
        let (rest, n2) = resolve_all nodes n1 in
        elim actual [ none ↦ (rest, n2) | some a ↦ (a ∷ rest, n2) ]
  ]

  resolved : Option (List Text) → ℕ → Option (List Text) × ℕ
  resolved none n = (none, n)
  resolved (some nodes) n = let (rs, n') = resolve_all nodes n in (some rs, n')

  parsed : Option Text → Option (List Text)
  parsed none = none
  parsed (some json) = parse_nodes J json p.preferred_region

  unfoldable pub fetch_nodes : Text → ℕ → Option (List Text) × ℕ
  unfolding resolved parsed
  fetch_nodes url n = let (json, n1) = get_text url n in resolved (parsed json) n1

  -- What is returned for a list of the service: an empty one is replaced by the default nodes.
  unfoldable pub or_default : List Text → List Text
  or_default [] = default_nodes
  or_default (node ∷ nodes) = node ∷ nodes

  last_attempt : Option (List Text) × ℕ → List Text × ℕ
  unfolding or_default
  last_attempt (none, n) = (default_nodes, n)
  last_attempt (some nodes, n) = (or_default nodes, n)

  first_attempt : Text → Option (List Text) × ℕ → List Text × ℕ
  unfolding last_attempt or_default
  first_attempt url (some nodes, n) = (or_default nodes, n)
  first_attempt url (none, n) = last_attempt (fetch_nodes url n)

  unfoldable pub fetch_from : Text → ℕ → List Text × ℕ
  unfolding first_attempt
  fetch_from url n = first_attempt url (fetch_nodes url n)

  unfoldable pub fetch : ℕ → List Text × ℕ
  fetch n = elim p.endpoint_override [ none ↦ fetch_from endpoint n | some url ↦ fetch_from url n ]
