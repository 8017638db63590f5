-- ===== src/Base/Utf8.antt =====
-- UTF-8 as the Rust standard library has it: `String::into_bytes`, and `String::from_utf8_lossy`,
-- which puts U+FFFD in place of each maximal ill-formed subsequence.
pub mod RoundTrip
use qomicex_connector_rust.Base.Tests.{ltb, leb, ◌==◌, if◌then◌else◌}
use qomicex_connector_rust.Base.Lists.{All, All-append}
use qomicex_connector_rust.Base.Strings.{Text, Bytes}
use Prim.Native.Nat.{ℕ, zero, suc, ◌+◌, ◌-◌, ◌*◌, ◌/◌, ◌%◌, ◌≤◌, ◌<◌}
use mathlib.Core.Path.{◌≡◌, refl}
use mathlib.Core.Logic.{◌⊎◌, inl, inr}
use mathlib.Core.Bool.{Bool, true, false, ◌&&◌, ◌||◌}
use mathlib.Core.List.{List, [], ◌∷◌, ◌++◌}
use native.Mathlib.Omega.{arith}

-- The bytes of one scalar value.
unfoldable pub utf8_char : ℕ → Bytes
utf8_char c =
    if ltb c 0x80
    then c ∷ []
    else if ltb c 0x800
    then (0xC0 + c / 64) ∷ (0x80 + c % 64) ∷ []
    else if ltb c 0x1_0000
    then (0xE0 + c / 4096) ∷ (0x80 + c / 64 % 64) ∷ (0x80 + c % 64) ∷ []
    else (0xF0 + c / 262144) ∷ (0x80 + c / 4096 % 64) ∷ (0x80 + c / 64 % 64) ∷ (0x80 + c % 64) ∷ []

unfoldable pub utf8 : Text → Bytes
unfolding utf8_char
utf8 [] = []
utf8 (c ∷ s) = utf8_char c ++ utf8 s

-- The decoder between two bytes: nothing pending, or `more + 1` continuation bytes wanted, the next
-- of them from `lo` to `hi`, with the bits `acc` read so far.
pub data Decoder : Type 0 where
  idle : Decoder
  wants : (more lo hi acc : ℕ) → Decoder

abbrev pub replacement : ℕ
replacement = 0xFFFD

-- A byte where a scalar value begins.
unfoldable pub lead : ℕ → Text × Decoder
lead b =
    if ltb b 0x80
    then (b ∷ [], idle)
    else if ltb b 0xC2
    then (replacement ∷ [], idle)
    else if ltb b 0xE0
    then ([], wants 0 0x80 0xBF (b - 0xC0))
    else if b == 0xE0
    then ([], wants 1 0xA0 0xBF 0)
    else if b == 0xED
    then ([], wants 1 0x80 0x9F 13)
    else if ltb b 0xF0
    then ([], wants 1 0x80 0xBF (b - 0xE0))
    else if b == 0xF0
    then ([], wants 2 0x90 0xBF 0)
    else if ltb b 0xF4
    then ([], wants 2 0x80 0xBF (b - 0xF0))
    else if b == 0xF4
    then ([], wants 2 0x80 0x8F 4)
    else (replacement ∷ [], idle)

-- A byte that does not continue the sequence ends it and is read again as a lead.
unfoldable pub decode_byte : Decoder → ℕ → Text × Decoder
unfolding lead
decode_byte idle b = lead b
decode_byte (wants more lo hi acc) b =
    let cp = acc * 64 + (b - 0x80) in
    let (out, d) = lead b in
    if leb lo b && leb b hi
    then elim more [ zero ↦ (cp ∷ [], idle) | suc k ↦ ([], wants k 0x80 0xBF cp) ]
    else (replacement ∷ out, d)

-- The bytes that stop within a sequence are ill-formed.
unfoldable pub finish : Decoder → Text
finish idle = []
finish (wants more lo hi acc) = replacement ∷ []

unfoldable pub decode : Decoder → Bytes → Text
unfolding decode_byte finish
decode d [] = finish d
decode d (b ∷ bs) = let (out, d') = decode_byte d b in out ++ decode d' bs

unfoldable pub utf8_lossy : Bytes → Text
unfolding decode
utf8_lossy bs = decode idle bs

-- A Unicode scalar value: below the surrogates, or above them up to U+10FFFF.
abbrev pub IsScalar : ℕ → Type 0
IsScalar c = (c < 0xD800) ⊎ ((0xE000 ≤ c) × (c < 0x11_0000))

abbrev pub IsAscii : ℕ → Type 0
IsAscii c = c < 0x80
