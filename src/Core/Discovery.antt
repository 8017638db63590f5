-- ===== src/Core/Discovery.antt =====
-- crates/qomicex-connector/src/core/center_discovery.rs. `other_digit` is the rest of the class `\d`
-- of the `regex` crate, the decimal digits beyond ASCII. What the network answers to the scans and
-- whether the wait behind a scan is cancelled are functions of the scan's number.
pub mod Laws
use qomicex_connector_rust.Base.{
  ℕ, zero, suc, ◌+◌, ◌-◌, ◌^◌, ◌≤◌, Text, codes, Bool, true, false, ◌&&◌, ◌||◌, not, List, [], ◌∷◌,
  Option, none, some, ltb, leb, if◌then◌else◌, is_digit, parse_unsigned, strip_prefix, is_empty,
}
use qomicex_connector_rust.Base.Maybe.{◌>>=◌}
use qomicex_connector_rust.Base.Result.{ok, err}
use qomicex_connector_rust.Error.{Outcome, center_not_found}
use qomicex_connector_rust.Models.Network.{EasyTierNode}

pub record CenterDiscoveryResult : Type 0 where
  pub virtual_ip : Text
  pub port : ℕ

abbrev pub host_prefix : Text
host_prefix = codes "scaffolding-mc-server-"

module _ (other_digit : ℕ → Bool) where
  unfoldable pub all_digits : Text → Bool
  all_digits [] = true
  all_digits (c ∷ s) = (is_digit c || other_digit c) && all_digits s

  -- The group `(\d+)` of a text that is nothing else.
  unfoldable pub digits_group : Text → Option Text
  digits_group s = if not (is_empty s) && all_digits s then some s else none

  -- The port in the name of a host.
  unfoldable pub hostname_port : Text → Option ℕ
  hostname_port hostname = do
    rest ← strip_prefix host_prefix hostname
    digits ← digits_group rest
    parse_unsigned (2 ^ 32 - 1) digits

  in_range : EasyTierNode → Option ℕ → Option CenterDiscoveryResult
  in_range node none = none
  in_range node (some port) =
      if ltb 1024 port && leb port 65535
      then some (record { virtual_ip = node.virtual_ip; port = port })
      else none

  -- The node as a center.
  unfoldable pub as_center : EasyTierNode → Option CenterDiscoveryResult
  unfolding in_range
  as_center node = in_range node (hostname_port node.hostname)

  -- The first node that is a center.
  unfoldable pub try_parse_center : List EasyTierNode → Option CenterDiscoveryResult
  try_parse_center [] = none
  try_parse_center (node ∷ nodes) =
      let later = try_parse_center nodes in
      elim (as_center node) [ none ↦ later | some result ↦ some result ]

  module _ (get_nodes : ℕ → List EasyTierNode) (cancelled : ℕ → Bool) where
    -- The scans from number `attempt` on, of which `left` are left.
    unfoldable pub scans : ℕ → ℕ → Outcome CenterDiscoveryResult
    scans zero attempt = err (center_not_found (codes "未在 EasyTier 网络中发现联机中心（超时 30s）"))
    scans (suc left) attempt =
        let later = scans left (suc attempt) in
        elim (try_parse_center (get_nodes attempt)) [
          | some result ↦ ok result
          | none ↦ if cancelled attempt then err (center_not_found (codes "中心发现已取消")) else later
        ]

    unfoldable pub discover : Outcome CenterDiscoveryResult
    unfolding scans
    discover = scans 60 0
