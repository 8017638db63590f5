-- ===== src/Base/Words.antt =====
-- Big-endian words: `to_be_bytes` and `from_be_bytes` of `u16` and `u32`.
use Prim.Native.Nat.{ℕ, ◌+◌, ◌*◌, ◌/◌, ◌%◌, ◌^◌, ◌<◌}
use mathlib.Core.Path.{◌≡◌}
use mathlib.Core.List.{[], ◌∷◌}
use native.Mathlib.Omega.{arith}
use qomicex_connector_rust.Base.Strings.{Bytes}

unfoldable pub be16 : ℕ → Bytes
be16 n = (n / 256 % 256) ∷ (n % 256) ∷ []

unfoldable pub from_be16 : ℕ → ℕ → ℕ
from_be16 a b = a * 256 + b

unfoldable pub be32 : ℕ → Bytes
be32 n = (n / 0x100_0000 % 256) ∷ (n / 0x1_0000 % 256) ∷ (n / 256 % 256) ∷ (n % 256) ∷ []

unfoldable pub from_be32 : ℕ → ℕ → ℕ → ℕ → ℕ
from_be32 a b c d = a * 0x100_0000 + b * 0x1_0000 + c * 256 + d

pub from_be16-be16 : (n : ℕ) → n < 0x1_0000 → from_be16 (n / 256 % 256) (n % 256) ≡ n
unfolding from_be16
from_be16-be16 n h = omega arith

pub from_be32-be32 :
    (n : ℕ)
    → n < 2 ^ 32
    → from_be32 (n / 0x100_0000 % 256) (n / 0x1_0000 % 256) (n / 256 % 256) (n % 256) ≡ n
unfolding from_be32
from_be32-be32 n h = omega arith
