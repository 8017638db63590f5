-- ===== src/Base/Decimal/RoundTrip.antt =====
-- Reading what `decimal` prints.
use qomicex_connector_rust.Base.Lists.{All}
use qomicex_connector_rust.Base.Strings.{Text, codes}
use qomicex_connector_rust.Base.Decimal.{digits, decimal, scan, parse_unsigned}
use Prim.Native.Nat.{ℕ, zero, suc, ◌+◌, ◌-◌, ◌*◌, ◌/◌, ◌%◌, ◌≤◌, ◌<◌}
use mathlib.Core.Path.{◌≡◌, refl}
use mathlib.Core.Logic.{◌≢◌}
use mathlib.Core.List.{[], ◌∷◌}
use mathlib.Core.Option.{none, some}
use native.Mathlib.Omega.{arith}

abbrev pub IsDigit : ℕ → Type 0
IsDigit c = (b'0' ≤ c) × (c ≤ b'9')

decimal_test : decimal 25565 ≡ codes "25565"
unfolding decimal
decimal_test = refl

parse_tests :
    (parse_unsigned 65535 (codes "65536") ≡ none)
    × (parse_unsigned 65535 (codes "+80") ≡ some 80)
    × (parse_unsigned 65535 (codes "+") ≡ none)
unfolding parse_unsigned
parse_tests = (refl, refl, refl)

digits-IsDigit : (fuel n : ℕ) (out : Text) → All IsDigit out → All IsDigit (digits fuel n out)
unfolding digits
digits-IsDigit zero n out h = h
digits-IsDigit (suc fuel) n out h =
    ground (arith, digits-IsDigit fuel (n / 10) ((b'0' + n % 10) ∷ out))

-- Every printed character is a digit.
pub decimal-IsDigit : (n : ℕ) → All IsDigit (decimal n)
unfolding decimal
decimal-IsDigit n = digits-IsDigit (suc n) n [] tt

scan-digits :
    (limit fuel n : ℕ) (out : Text)
    → n < fuel
    → n ≤ limit
    → scan limit 0 (digits fuel n out) ≡ scan limit n out
unfolding digits scan
scan-digits limit zero n out h k = absurd (omega arith)
scan-digits limit (suc fuel) n out h k =
    ground (arith, scan-digits limit fuel (n / 10) ((b'0' + n % 10) ∷ out))

digits-ne-nil : (fuel n : ℕ) (out : Text) → n < fuel → digits fuel n out ≢ []
unfolding digits
digits-ne-nil zero n out h = absurd (omega arith)
digits-ne-nil (suc fuel) n out h =
    ground (arith, digits-ne-nil fuel (n / 10) ((b'0' + n % 10) ∷ out))

pub decimal-ne-nil : (n : ℕ) → decimal n ≢ []
unfolding decimal
decimal-ne-nil n = digits-ne-nil (suc n) n [] (omega arith)

-- On digits, at least one, there is no sign to skip.
parse_unsigned-scan :
    (limit : ℕ) (s : Text) → s ≢ [] → All IsDigit s → parse_unsigned limit s ≡ scan limit 0 s
unfolding parse_unsigned
parse_unsigned-scan limit [] ne h = absurd (ne refl)
parse_unsigned-scan limit (c ∷ []) ne h = ground arith
parse_unsigned-scan limit (c ∷ d ∷ s) ne h = ground arith

-- A number within the limit is read back from its print.
pub parse_unsigned-decimal : (limit n : ℕ) → n ≤ limit → parse_unsigned limit (decimal n) ≡ some n
parse_unsigned-decimal limit n h =
    rw (parse_unsigned-scan limit (decimal n) (decimal-ne-nil n) (decimal-IsDigit n))
      (unfold decimal scan in scan-digits limit (suc n) n [] (omega arith) h)

scan-le : (limit acc : ℕ) (s : Text) {r : ℕ} → acc ≤ limit → scan limit acc s ≡ some r → r ≤ limit
unfolding scan
scan-le limit acc [] {r} h e = ground arith
scan-le limit acc (c ∷ s) {r} h e = ground (arith, scan-le limit (acc * 10 + (c - b'0')) s {r = r})

-- What is read lies within the limit.
pub parse_unsigned-le : (limit : ℕ) (s : Text) {r : ℕ} → parse_unsigned limit s ≡ some r → r ≤ limit
unfolding parse_unsigned
parse_unsigned-le limit [] e = ground arith
parse_unsigned-le limit (c ∷ []) {r} e = ground (arith, scan-le limit 0 (c ∷ []) {r = r})
parse_unsigned-le limit (c ∷ d ∷ s) {r} e =
    ground (arith, scan-le limit 0 (c ∷ d ∷ s) {r = r}, scan-le limit 0 (d ∷ s) {r = r})
