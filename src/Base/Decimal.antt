-- ===== src/Base/Decimal.antt =====
-- Unsigned integers in decimal: `format!("{n}")`, and `str::parse::<uN>()` for digits.
pub mod RoundTrip
use qomicex_connector_rust.Base.Tests.{ltb, leb, ◌==◌, if◌then◌else◌}
use qomicex_connector_rust.Base.Strings.{Text}
use Prim.Native.Nat.{ℕ, zero, suc, ◌+◌, ◌-◌, ◌*◌, ◌/◌, ◌%◌}
use mathlib.Core.Bool.{Bool, ◌&&◌}
use mathlib.Core.List.{[], ◌∷◌}
use mathlib.Core.Option.{Option, none, some}

unfoldable pub is_digit : ℕ → Bool
is_digit c = leb b'0' c && leb c b'9'

-- Digits in front of `out`, on fuel: `n + 1` rounds are enough for `n`.
unfoldable pub digits : ℕ → ℕ → Text → Text
digits zero n out = out
digits (suc fuel) n out =
    let rest = digits fuel (n / 10) ((b'0' + n % 10) ∷ out) in
    if ltb n 10 then (b'0' + n) ∷ out else rest

unfoldable pub decimal : ℕ → Text
unfolding digits
decimal n = digits (suc n) n []

-- The digits of the text behind the value read so far; `none` is an overflow past `limit` or a
-- character that is no digit.
unfoldable pub scan : ℕ → ℕ → Text → Option ℕ
unfolding is_digit
scan limit acc [] = some acc
scan limit acc (c ∷ s) =
    let rest = scan limit (acc * 10 + (c - b'0')) s in
    if is_digit c && leb (acc * 10 + (c - b'0')) limit then rest else none

-- A `+` in front is accepted, as the standard library does; the empty text is refused.
unfoldable pub parse_unsigned : ℕ → Text → Option ℕ
unfolding scan
parse_unsigned limit [] = none
parse_unsigned limit (c ∷ []) = if c == b'+' then none else scan limit 0 (c ∷ [])
parse_unsigned limit (c ∷ d ∷ s) =
    if c == b'+' then scan limit 0 (d ∷ s) else scan limit 0 (c ∷ d ∷ s)
