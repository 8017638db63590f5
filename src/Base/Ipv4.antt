-- ===== src/Base/Ipv4.antt =====
-- `std::net::Ipv4Addr`, as the number of its 32 bits.
use Prim.Native.Nat.{ℕ, ◌*◌, ◌+◌, ◌/◌, ◌%◌, ◌^◌}
use mathlib.Core.Bool.{Bool}
use mathlib.Core.List.{[], ◌∷◌}
use qomicex_connector_rust.Base.Tests.{◌==◌}
use qomicex_connector_rust.Base.Strings.{Text, codes, join}
use qomicex_connector_rust.Base.Decimal.{decimal}

-- `Ipv4Addr::to_string`
unfoldable pub ipv4_text : ℕ → Text
ipv4_text a = join (codes ".") (
    decimal (a / 2 ^ 24)
    ∷ decimal (a / 2 ^ 16 % 256)
    ∷ decimal (a / 2 ^ 8 % 256)
    ∷ decimal (a % 256)
    ∷ [])

-- 127.0.0.0/8
unfoldable pub is_loopback : ℕ → Bool
is_loopback a = a / 2 ^ 24 == 127

-- 169.254.0.0/16
unfoldable pub is_link_local : ℕ → Bool
is_link_local a = a / 2 ^ 16 == 169 * 256 + 254
