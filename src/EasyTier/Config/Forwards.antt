-- ===== src/EasyTier/Config/Forwards.antt =====
-- The two parsers of forwarding rules, and the rule that a guest writes.
use qomicex_connector_rust.Base.{
  ℕ, ◌≡◌, ◌≢◌, refl, Text, codes, [], ◌∷◌, ◌++◌, some, arith, split_char, split_once, strip_prefix,
  Option-cases, inl, inr, Lacks, All, decimal, IsDigit, decimal-IsDigit, split_char-append,
}
use qomicex_connector_rust.Base.Result.{Result, ok, err}
use qomicex_connector_rust.Error.{Outcome, fmt}
use qomicex_connector_rust.Guest.Keys.{parse_forward_addrs}
use qomicex_connector_rust.Guest.Joining.{forward_rule, endpoint, local_host}
use qomicex_connector_rust.EasyTier.Config.{Addresses, PortForwardConfig, parse_port_forward}

-- A result with the message of its error.
abbrev pub shown : {A : Type 0} → Outcome A → Result Text A
shown (ok a) = ok a
shown (err e) = err (fmt e)

digit-ne-slash : (c : ℕ) → IsDigit c → c ≢ b'/'
digit-ne-slash c h e = omega arith

digits-Lacks : (s : Text) → All IsDigit s → Lacks b'/' s
digits-Lacks [] h = tt
digits-Lacks (c ∷ s) h = (digit-ne-slash c h.0, digits-Lacks s h.1)

local_endpoint-Lacks : (port : ℕ) → Lacks b'/' (endpoint local_host port)
local_endpoint-Lacks port = ground (arith, digits-Lacks (decimal port) (decimal-IsDigit port))

local_split :
    (local_port : ℕ) (dst : Text)
    → split_char b'/' (endpoint local_host local_port ++ b'/' ∷ dst)
      ≡ some (endpoint local_host local_port, dst)
local_split local_port dst =
    split_char-append b'/' (endpoint local_host local_port) dst (local_endpoint-Lacks local_port)

module _ (api : Addresses) where
  abbrev pub addresses :
      Outcome (PortForwardConfig api) → Result Text (api.SocketAddr × api.SocketAddr)
  addresses (ok pf) = ok (pf.bind_addr, pf.dst_addr)
  addresses (err e) = err (fmt e)

  -- On every text the manager's parser of forwarding rules and the guest's agree about the addresses,
  -- and about the message of the error.
  pub parse_port_forward-agrees :
      (raw : Text)
      → addresses (parse_port_forward api raw) ≡ shown (parse_forward_addrs api.socket_addr raw)
  unfolding parse_port_forward parse_forward_addrs fmt
  parse_port_forward-agrees raw = elim (Option-cases (split_once (codes "://") raw)) [
    | inl e ↦ ground arith
    | inr ((proto, rest), e) ↦ elim (Option-cases (split_char b'/' rest)) [
      | inl e1 ↦ ground arith
      | inr ((bind, dst), e1) ↦ elim (Option-cases (api.socket_addr bind)) [
        | inl e2 ↦ ground arith
        | inr (a, e2) ↦ elim (Option-cases (api.socket_addr dst)) [
          | inl e3 ↦ ground arith
          | inr (b, e3) ↦ ground arith
        ]
      ]
    ]
  ]

  -- The rule that a guest writes is read back by the manager, whatever the host.
  pub parse_port_forward-forward_rule :
      (local_port : ℕ) (host : Text) (port : ℕ) (a b : api.SocketAddr)
      → api.socket_addr (endpoint local_host local_port) ≡ some a
      → api.socket_addr (endpoint host port) ≡ some b
      → parse_port_forward api (forward_rule local_port host port)
        ≡ ok (record { bind_addr = a; dst_addr = b; proto = codes "tcp" })
  unfolding parse_port_forward split_once strip_prefix
  parse_port_forward-forward_rule local_port host port a b ha hb =
      rw (local_split local_port (endpoint host port), ha, hb) refl
