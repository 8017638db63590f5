-- ===== src/Tests/Discovery.antt =====
-- Discovery and the port of a room at concrete inputs.
use qomicex_connector_rust.Base.{ℕ, zero, suc, ◌≡◌, refl, codes, Bool, false, List, [], ◌∷◌, none}
use qomicex_connector_rust.Models.Network.{EasyTierNode}
use qomicex_connector_rust.Core.Discovery.{try_parse_center}
use qomicex_connector_rust.Core.Discovery.Laws.{Quiet}
use qomicex_connector_rust.Tests.Setting.{a_room}

abbrev no_digit : ℕ → Bool
no_digit c = false

abbrev host_node : EasyTierNode
host_node = record {
  virtual_ip = codes "10.144.144.1";
  hostname = a_room.config.hostname;
  node_id = codes "7";
}

-- Nobody in the first scan, the host from the second on.
abbrev network : ℕ → List EasyTierNode
network zero = []
network (suc n) = host_node ∷ []

abbrev never : ℕ → Bool
never n = false

Quiet-start : Quiet no_digit network never 0 1
unfolding try_parse_center
Quiet-start = (refl, refl, tt)

nobody_found : try_parse_center no_digit [] ≡ none
unfolding try_parse_center
nobody_found = refl

always-Quiet : (n attempt : ℕ) → Quiet no_digit (λ n. []) never attempt n
always-Quiet zero attempt = tt
always-Quiet (suc n) attempt = (nobody_found, refl, always-Quiet n (suc attempt))
