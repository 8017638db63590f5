-- ===== src/Center/Room/Ports.antt =====
-- The port of a room, and how its guests find it.
use qomicex_connector_rust.Base.{
  ℕ, zero, suc, ◌+◌, ◌≤◌, ◌<◌, ◌≡◌, refl, ◌∙◌, ◌⊎◌, inl, inr, Bool, true, false, List, ◌∷◌, ◌++◌,
  some, none, arith, Bool-cases, ◌==◌, ==_iff, All,
}
use qomicex_connector_rust.Base.Result.{ok}
use qomicex_connector_rust.Json.{JsonApi}
use qomicex_connector_rust.Models.Network.{EasyTierNode}
use qomicex_connector_rust.Core.Discovery.{try_parse_center, as_center}
use qomicex_connector_rust.Core.Discovery.Laws.{try_parse_center-append}
use qomicex_connector_rust.Center.Room.Parts.{start-Parts}
use qomicex_connector_rust.Center.Room.{
  scan, scan_port, start, Surroundings, CenterConfig, Shared, Started,
}

-- The port is the least of the `n` from `lo` on that can be bound, or 25000 if none can.
abbrev pub IsFirst : (ℕ → Bool) → ℕ → ℕ → ℕ → Type 0
IsFirst bindable lo n p =
    ((lo ≤ p)
      × (p < lo + n)
      × (bindable p ≡ true)
      × ((q : ℕ) → lo ≤ q → q < p → bindable q ≡ false))
    ⊎ ((p ≡ 25000) × ((q : ℕ) → lo ≤ q → q < lo + n → bindable q ≡ false))

extend :
    (bindable : ℕ → Bool) (n lo p : ℕ)
    → bindable lo ≡ false
    → IsFirst bindable (suc lo) n p
    → IsFirst bindable lo (suc n) p
extend bindable n lo p e (inl (a, b, c, least)) =
    inl (omega arith, omega arith, c, λ q l h. below q l h (Bool-cases (q == lo)))
  where
    below : (q : ℕ) → lo ≤ q → q < p → ((q == lo) ≡ true) ⊎ ((q == lo) ≡ false) → bindable q ≡ false
    below q l h (inl same) = rw ((==_iff q lo).0 same) e
    below q l h (inr apart) = least q (grind arith) h
extend bindable n lo p e (inr (a, none_free)) = inr (a, λ q l h. below q l h (Bool-cases (q == lo)))
  where
    below :
        (q : ℕ)
        → lo ≤ q
        → q < lo + suc n
        → ((q == lo) ≡ true) ⊎ ((q == lo) ≡ false)
        → bindable q ≡ false
    below q l h (inl same) = rw ((==_iff q lo).0 same) e
    below q l h (inr apart) = none_free q (grind arith) (omega arith)

scan_hit : (bindable : ℕ → Bool) (n lo : ℕ) → bindable lo ≡ true → scan bindable (suc n) lo ≡ lo
unfolding scan
scan_hit bindable n lo e = ground arith

scan_miss :
    (bindable : ℕ → Bool) (n lo : ℕ)
    → bindable lo ≡ false
    → scan bindable (suc n) lo ≡ scan bindable n (suc lo)
unfolding scan
scan_miss bindable n lo e = ground arith

scan-IsFirst : (bindable : ℕ → Bool) (n lo : ℕ) → IsFirst bindable lo n (scan bindable n lo)
scan-IsFirst bindable zero lo = unfold scan in inr (refl, λ q a b. absurd (omega arith))
scan-IsFirst bindable (suc n) lo = elim (Bool-cases (bindable lo)) [
  | inl e ↦
      rw (scan_hit bindable n lo e)
        (inl (omega arith, omega arith, e, λ q a b. absurd (omega arith)))
  | inr e ↦
      rw (scan_miss bindable n lo e)
        (extend bindable n lo (scan bindable n (suc lo)) e (scan-IsFirst bindable n (suc lo)))
]

-- The port of a room is the least port from 1025 to 65534 that can be bound, or 25000 where none of
-- them can.
pub scan_port-IsFirst : (bindable : ℕ → Bool) → IsFirst bindable 1025 64510 (scan_port bindable)
scan_port-IsFirst bindable = unfold scan_port in scan-IsFirst bindable 64510 1025

scan_port_bounds :
    (bindable : ℕ → Bool) → (1024 < scan_port bindable) × (scan_port bindable ≤ 65535)
scan_port_bounds bindable = bounds (scan_port-IsFirst bindable)
  where
    bounds : {p : ℕ} → IsFirst bindable 1025 64510 p → (1024 < p) × (p ≤ 65535)
    bounds (inl (a, b, c, d)) = (omega arith, omega arith)
    bounds (inr (a, d)) = (omega arith, omega arith)

-- A room that has started is found by a guest: in a list of nodes that has, behind nodes that are no
-- centers, a node with the name of the room's configuration, discovery yields the address of that
-- node and the room's port.
pub start-try_parse_center :
    {C : Type 0} (J : JsonApi) (sur : Surroundings) (c : CenterConfig C) (s : Shared C)
    (room : Started C)
    → start J sur c s ≡ ok room
    → (other_digit : ℕ → Bool) (before after : List EasyTierNode) (node : EasyTierNode)
    → All (λ n. as_center other_digit n ≡ none) before
    → node.hostname ≡ room.config.hostname
    → try_parse_center other_digit (before ++ node ∷ after)
      ≡ some (record { virtual_ip = node.virtual_ip; port = room.tcp_port })
start-try_parse_center J sur c s room h od before after node hb hn =
    let parts = start-Parts J sur c s room h in
    let (lo, hi) = scan_port_bounds sur.bindable in
    rw parts.port (
      try_parse_center-append od before after node (scan_port sur.bindable) hb (hn ∙ parts.hostname)
        lo hi)
