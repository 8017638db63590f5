-- ===== src/Core/Discovery/Laws.antt =====
-- What discovery finds.
use qomicex_connector_rust.Base.{
  ℕ, zero, suc, ◌+◌, ◌-◌, ◌^◌, ◌≤◌, ◌<◌, ◌≡◌, refl, ap, subst, ◌∙◌, ◌⊎◌, inl, inr, Text, codes,
  Bool, true, false, List, [], ◌∷◌, ◌++◌, none, some, arith, is_digit, All, Option-cases, decimal,
  IsDigit, decimal-IsDigit, decimal-ne-nil, parse_unsigned-decimal, strip_prefix-append,
}
use native.Mathlib.Nat.{zero-add, suc-add, add-zero}
use qomicex_connector_rust.Base.Result.{ok, err}
use qomicex_connector_rust.Error.{center_not_found}
use qomicex_connector_rust.Models.Network.{EasyTierNode}
use qomicex_connector_rust.Core.Discovery.{
  CenterDiscoveryResult, host_prefix, all_digits, digits_group, hostname_port, as_center,
  try_parse_center, scans, discover,
}

module _ (other_digit : ℕ → Bool) where
  all_digits-IsDigit : (s : Text) → All IsDigit s → all_digits other_digit s ≡ true
  unfolding all_digits is_digit
  all_digits-IsDigit [] h = refl
  all_digits-IsDigit (c ∷ s) h = ground (arith, all_digits-IsDigit s h.1)

  digits_group-decimal : (n : ℕ) → digits_group other_digit (decimal n) ≡ some (decimal n)
  unfolding digits_group
  digits_group-decimal n =
      ground (arith, all_digits-IsDigit (decimal n) (decimal-IsDigit n), decimal-ne-nil n)

  -- The name that a center gives itself shows its port.
  pub hostname_port-decimal :
      (port : ℕ)
      → port ≤ 65535
      → hostname_port other_digit (host_prefix ++ decimal port) ≡ some port
  unfolding hostname_port
  hostname_port-decimal port h =
      rw (strip_prefix-append host_prefix (decimal port), digits_group-decimal port)
        (parse_unsigned-decimal (2 ^ 32 - 1) port (omega arith))

  -- A node whose name is that of a center at `port`.
  abbrev pub IsCenterAt : EasyTierNode → ℕ → Type 0
  IsCenterAt node port = node.hostname ≡ host_prefix ++ decimal port

  as_center-decimal :
      (node : EasyTierNode) (port : ℕ)
      → IsCenterAt node port
      → 1024 < port
      → port ≤ 65535
      → as_center other_digit node ≡ some (record { virtual_ip = node.virtual_ip; port = port })
  unfolding as_center
  as_center-decimal node port hn lo hi =
      let e : hostname_port other_digit node.hostname ≡ some port =
        ap (hostname_port other_digit) hn ∙ hostname_port-decimal port hi in
      ground arith

  -- Behind nodes that are no centers, a center with a port from 1025 on is found, with its port and
  -- its address.
  pub try_parse_center-append :
      (before after : List EasyTierNode) (node : EasyTierNode) (port : ℕ)
      → All (λ n. as_center other_digit n ≡ none) before
      → IsCenterAt node port
      → 1024 < port
      → port ≤ 65535
      → try_parse_center other_digit (before ++ node ∷ after)
        ≡ some (record { virtual_ip = node.virtual_ip; port = port })
  unfolding try_parse_center
  try_parse_center-append [] after node port hb hn lo hi =
      ground (arith, as_center-decimal node port hn lo hi)
  try_parse_center-append (n ∷ before) after node port hb hn lo hi =
      ground (arith, try_parse_center-append before after node port hb.1 hn lo hi)

  -- A result that comes of a node: the port of its name, from 1025 to 65535, and its address.
  abbrev pub ComesOf : EasyTierNode → CenterDiscoveryResult → Type 0
  ComesOf n r =
      (hostname_port other_digit n.hostname ≡ some r.port)
      × (r.virtual_ip ≡ n.virtual_ip)
      × (1024 < r.port)
      × (r.port ≤ 65535)

  abbrev pub Found : List EasyTierNode → CenterDiscoveryResult → Type 0
  Found [] r = ⊥
  Found (n ∷ nodes) r = ComesOf n r ⊎ Found nodes r

  as_center_sound :
      (n : EasyTierNode) (r : CenterDiscoveryResult)
      → as_center other_digit n ≡ some r
      → ComesOf n r
  unfolding as_center
  as_center_sound n r e = ground arith

  -- If a list of nodes yields a result, one of the nodes has the result's address and a name with
  -- the result's port, which is from 1025 to 65535.
  pub try_parse_center_sound :
      (nodes : List EasyTierNode) (r : CenterDiscoveryResult)
      → try_parse_center other_digit nodes ≡ some r
      → Found nodes r
  unfolding try_parse_center
  try_parse_center_sound [] r e = cc
  try_parse_center_sound (n ∷ nodes) r e = elim (Option-cases (as_center other_digit n)) [
    | inl p ↦ inr (try_parse_center_sound nodes r (rw (p, try_parse_center) at e))
    | inr (r', p) ↦ inl (as_center_sound n r (ground arith))
  ]

  module _ (get_nodes : ℕ → List EasyTierNode) (cancelled : ℕ → Bool) where
    -- The scans before number `n` found nothing, and none of the waits behind them was cancelled.
    abbrev pub Quiet : ℕ → ℕ → Type 0
    Quiet attempt zero = Unit
    Quiet attempt (suc n) =
        (try_parse_center other_digit (get_nodes attempt) ≡ none)
        × (cancelled attempt ≡ false)
        × Quiet (suc attempt) n

    scans_step :
        (left attempt : ℕ)
        → try_parse_center other_digit (get_nodes attempt) ≡ none
        → cancelled attempt ≡ false
        → scans other_digit get_nodes cancelled (suc left) attempt
          ≡ scans other_digit get_nodes cancelled left (suc attempt)
    unfolding scans
    scans_step left attempt e c = ground arith

    scans-Quiet :
        (n left attempt : ℕ)
        → Quiet attempt n
        → scans other_digit get_nodes cancelled (n + left) attempt
          ≡ scans other_digit get_nodes cancelled left (n + attempt)
    scans-Quiet zero left attempt q = rw (zero-add, zero-add)
    scans-Quiet (suc n) left attempt q =
        rw (suc-add, suc-add)
          (scans_step (n + left) attempt q.0 q.1
            ∙ scans-Quiet n left (suc attempt) q.2
            ∙ ap (scans other_digit get_nodes cancelled left) (omega arith))

    discover-Quiet :
        (n : ℕ)
        → n < 60
        → Quiet 0 n
        → discover other_digit get_nodes cancelled
          ≡ scans other_digit get_nodes cancelled (suc (59 - n)) n
    unfolding discover
    discover-Quiet n h q =
        let e : n + suc (59 - n) ≡ 60 = omega arith in
        subst
          (λ k.
            scans other_digit get_nodes cancelled k 0
            ≡ scans other_digit get_nodes cancelled (suc (59 - n)) n)
          e (scans-Quiet n (suc (59 - n)) 0 q ∙ rw add-zero)

    -- Discovery returns what the first scan with a center finds, if that is among the first 60 scans
    -- and no wait before it was cancelled.
    pub discover_found :
        (n : ℕ) (r : CenterDiscoveryResult)
        → n < 60
        → Quiet 0 n
        → try_parse_center other_digit (get_nodes n) ≡ some r
        → discover other_digit get_nodes cancelled ≡ ok r
    discover_found n r h q e = rw (discover-Quiet n h q) (unfold scans in ground arith)

    -- If one of the 60 scans finds no center and the wait behind it is cancelled, and the scans
    -- before found none and their waits were not cancelled, discovery ends there with the error of
    -- a cancellation.
    pub discover_cancelled :
        (n : ℕ)
        → n < 60
        → Quiet 0 n
        → try_parse_center other_digit (get_nodes n) ≡ none
        → cancelled n ≡ true
        → discover other_digit get_nodes cancelled ≡ err (center_not_found (codes "中心发现已取消"))
    discover_cancelled n h q e c = rw (discover-Quiet n h q) (unfold scans in ground arith)

    -- If none of the 60 scans finds a center and no wait is cancelled, discovery ends with the
    -- error of a timeout.
    pub discover_timeout :
        Quiet 0 60
        → discover other_digit get_nodes cancelled
          ≡ err (center_not_found (codes "未在 EasyTier 网络中发现联机中心（超时 30s）"))
    unfolding discover
    discover_timeout q = scans-Quiet 60 0 0 q ∙ unfold scans in refl
