-- ===== src/Base/Utf8/RoundTrip.antt =====
-- Lossy decoding inverts encoding on every text of scalar values.
use qomicex_connector_rust.Base.Tests.{◌==◌, if◌then◌else◌}
use qomicex_connector_rust.Base.Lists.{All, length, length-append}
use qomicex_connector_rust.Base.Strings.{Text, Bytes}
use qomicex_connector_rust.Base.Utf8.{
  Decoder, utf8_char, utf8, decode, utf8_lossy, idle, wants, IsScalar, IsAscii, decode_byte, lead,
}
use Prim.Native.Nat.{ℕ, suc, ◌+◌, ◌-◌, ◌*◌, ◌/◌, ◌%◌, ◌≤◌, ◌<◌}
use mathlib.Core.Path.{◌≡◌, refl, ap, ◌∙◌}
use mathlib.Core.List.{[], ◌∷◌, ◌++◌}
use native.Mathlib.Omega.{arith}

-- One byte of a decoding whose step is known.
decode_step :
    (d d' : Decoder) (b : ℕ) (out : Text) (bs : Bytes)
    → decode_byte d b ≡ (out, d')
    → decode d (b ∷ bs) ≡ out ++ decode d' bs
unfolding decode
decode_step d d' b out bs e = rw e

last_byte :
    (lo hi acc b : ℕ)
    → lo ≤ b
    → b ≤ hi
    → decode_byte (wants 0 lo hi acc) b ≡ ((acc * 64 + (b - 0x80)) ∷ [], idle)
unfolding decode_byte
last_byte lo hi acc b h k = ground arith

middle_byte :
    (more lo hi acc b : ℕ)
    → lo ≤ b
    → b ≤ hi
    → decode_byte (wants (suc more) lo hi acc) b
      ≡ ([], wants more 0x80 0xBF (acc * 64 + (b - 0x80)))
unfolding decode_byte
middle_byte more lo hi acc b h k = ground arith

ascii_byte : (b : ℕ) → b < 0x80 → decode_byte idle b ≡ (b ∷ [], idle)
unfolding decode_byte
ascii_byte b h = ground arith

lead_two : (b : ℕ) → 0xC2 ≤ b → b < 0xE0 → decode_byte idle b ≡ ([], wants 0 0x80 0xBF (b - 0xC0))
unfolding decode_byte
lead_two b h k = ground arith

-- A last continuation byte, as the encoder writes it.
decode_last :
    (lo hi acc c : ℕ) (bs : Bytes)
    → lo ≤ 0x80 + c % 64
    → 0x80 + c % 64 ≤ hi
    → acc ≡ c / 64
    → decode (wants 0 lo hi acc) ((0x80 + c % 64) ∷ bs) ≡ c ∷ decode idle bs
decode_last lo hi acc c bs h k e =
    decode_step (wants 0 lo hi acc) idle (0x80 + c % 64) _ bs (last_byte lo hi acc _ h k)
    ∙ ap (λ (n : ℕ). n ∷ decode idle bs) (omega arith)

-- A continuation byte before others.
decode_middle :
    (more lo hi acc c : ℕ) (bs : Bytes)
    → lo ≤ 0x80 + c % 64
    → 0x80 + c % 64 ≤ hi
    → acc ≡ c / 64
    → decode (wants (suc more) lo hi acc) ((0x80 + c % 64) ∷ bs)
      ≡ decode (wants more 0x80 0xBF c) bs
decode_middle more lo hi acc c bs h k e =
    decode_step (wants (suc more) lo hi acc) _ (0x80 + c % 64) _ bs
      (middle_byte more lo hi acc _ h k)
    ∙ ap (λ (n : ℕ). decode (wants more 0x80 0xBF n) bs) (omega arith)

decode_one : (c : ℕ) (bs : Bytes) → c < 0x80 → decode idle (c ∷ bs) ≡ c ∷ decode idle bs
decode_one c bs h = decode_step idle idle c _ bs (ascii_byte c h)

decode_two :
    (c : ℕ) (bs : Bytes)
    → 0x80 ≤ c
    → c < 0x800
    → decode idle ((0xC0 + c / 64) ∷ (0x80 + c % 64) ∷ bs) ≡ c ∷ decode idle bs
decode_two c bs h k =
    decode_step idle _ (0xC0 + c / 64) _ _ (lead_two (0xC0 + c / 64) (omega arith) (omega arith))
    ∙ decode_last 0x80 0xBF _ c bs (omega arith) (omega arith) (omega arith)

-- The bounds that a longer lead sets for the byte after it.
abbrev low3 : ℕ → ℕ
low3 a = if a == 0 then 0xA0 else 0x80

abbrev high3 : ℕ → ℕ
high3 a = if a == 13 then 0x9F else 0xBF

abbrev low4 : ℕ → ℕ
low4 a = if a == 0 then 0x90 else 0x80

abbrev high4 : ℕ → ℕ
high4 a = if a == 4 then 0x8F else 0xBF

lead_three : (a : ℕ) → a < 16 → decode_byte idle (0xE0 + a) ≡ ([], wants 1 (low3 a) (high3 a) a)
unfolding decode_byte
lead_three a h = ground arith

lead_four : (a : ℕ) → a < 5 → decode_byte idle (0xF0 + a) ≡ ([], wants 2 (low4 a) (high4 a) a)
unfolding decode_byte
lead_four a h = ground arith

low3_le : (c : ℕ) → 0x800 ≤ c → low3 (c / 4096) ≤ 0x80 + c / 64 % 64
low3_le c h = ground arith

le_high3 : (c : ℕ) → c < 0x1_0000 → IsScalar c → 0x80 + c / 64 % 64 ≤ high3 (c / 4096)
le_high3 c h k = ground arith

low4_le : (c : ℕ) → 0x1_0000 ≤ c → low4 (c / 262144) ≤ 0x80 + c / 4096 % 64
low4_le c h = ground arith

le_high4 : (c : ℕ) → c < 0x11_0000 → 0x80 + c / 4096 % 64 ≤ high4 (c / 262144)
le_high4 c h = ground arith

decode_three :
    (c : ℕ) (bs : Bytes)
    → 0x800 ≤ c
    → c < 0x1_0000
    → IsScalar c
    → decode idle ((0xE0 + c / 4096) ∷ (0x80 + c / 64 % 64) ∷ (0x80 + c % 64) ∷ bs)
      ≡ c ∷ decode idle bs
decode_three c bs h k s =
    decode_step idle _ (0xE0 + c / 4096) _ _ (lead_three (c / 4096) (omega arith))
    ∙ decode_middle 0 _ _ _ (c / 64) _ (low3_le c h) (le_high3 c k s) (omega arith)
    ∙ decode_last 0x80 0xBF _ c bs (omega arith) (omega arith) refl

decode_four :
    (c : ℕ) (bs : Bytes)
    → 0x1_0000 ≤ c
    → c < 0x11_0000
    → decode idle
        ((0xF0 + c / 262144) ∷ (0x80 + c / 4096 % 64) ∷ (0x80 + c / 64 % 64) ∷ (0x80 + c % 64) ∷ bs)
      ≡ c ∷ decode idle bs
decode_four c bs h k =
    decode_step idle _ (0xF0 + c / 262144) _ _ (lead_four (c / 262144) (omega arith))
    ∙ decode_middle 1 _ _ _ (c / 4096) _ (low4_le c h) (le_high4 c k) (omega arith)
    ∙ decode_middle 0 0x80 0xBF _ (c / 64) _ (omega arith) (omega arith) (omega arith)
    ∙ decode_last 0x80 0xBF _ c bs (omega arith) (omega arith) refl

-- The encoding of a scalar value is decoded to it, whatever follows.
decode-utf8_char :
    (c : ℕ) (bs : Bytes) → IsScalar c → decode idle (utf8_char c ++ bs) ≡ c ∷ decode idle bs
unfolding utf8_char
decode-utf8_char c bs s =
    ground (arith, decode_one c bs, decode_two c bs, decode_three c bs, decode_four c bs)

decode-utf8 : (t : Text) → All IsScalar t → decode idle (utf8 t) ≡ t
unfolding utf8 decode
decode-utf8 [] h = refl
decode-utf8 (c ∷ t) (h, hs) = decode-utf8_char c (utf8 t) h ∙ ap (◌∷◌ c) (decode-utf8 t hs)

-- Lossy decoding of the encoding of a text of scalar values gives the text back.
pub utf8_lossy-utf8 : (t : Text) → All IsScalar t → utf8_lossy (utf8 t) ≡ t
unfolding utf8_lossy
utf8_lossy-utf8 t h = decode-utf8 t h

-- ASCII bytes are decoded one by one.
pub utf8_lossy-ascii : (t : Text) → All IsAscii t → utf8_lossy t ≡ t
unfolding utf8_lossy
utf8_lossy-ascii [] h = unfold decode in refl
utf8_lossy-ascii (c ∷ t) (h, hs) = decode_one c t h ∙ ap (◌∷◌ c) (utf8_lossy-ascii t hs)

-- The replacement that a pending sequence may still become.
abbrev pending : Decoder → ℕ
pending idle = 0
pending (wants more lo hi acc) = 1

lead_emits : (b : ℕ) → length (lead b).0 + pending (lead b).1 ≤ 1
unfolding lead
lead_emits b = ground arith

decode_byte_emits :
    (d : Decoder) (b : ℕ) → length (decode_byte d b).0 + pending (decode_byte d b).1 ≤ pending d + 1
decode_byte_emits idle b = unfold decode_byte in omega (arith, lead_emits b)
decode_byte_emits (wants more lo hi acc) b = unfold decode_byte in ground (arith, lead_emits b)

length-decode : (d : Decoder) (bs : Bytes) → length (decode d bs) ≤ pending d + length bs
unfolding decode
length-decode idle [] = omega arith
length-decode (wants more lo hi acc) [] = omega arith
length-decode d (b ∷ bs) = omega (
  arith,
  length-append (decode_byte d b).0 (decode (decode_byte d b).1 bs),
  decode_byte_emits d b,
  length-decode (decode_byte d b).1 bs,
)

-- A byte gives at most one character.
pub length-utf8_lossy : (bs : Bytes) → length (utf8_lossy bs) ≤ length bs
unfolding utf8_lossy
length-utf8_lossy bs = omega (arith, length-decode idle bs)
