-- ===== src/Models/RoomCode/Generate.antt =====
-- `RoomCode::generate`: the code that comes of the random buffers.
use qomicex_connector_rust.Base.{
  ℕ, zero, suc, ◌%◌, ◌<◌, ◌≡◌, refl, sym, ap, subst, Text, Bytes, Bool, true, false, List, [], ◌∷◌,
  ◌++◌, some, arith, All, length, take, drop, Option, none,
}
use qomicex_connector_rust.Base.Result.{ok}
use qomicex_connector_rust.Base.Maybe.{>>=_ensures}
use qomicex_connector_rust.Models.RoomCode.{
  RoomCode, captures, of_captures, parse, chars, in_class, char_at, encode8, validate_checksum,
  draw_part, raw_code, generate,
}
use qomicex_connector_rust.Models.RoomCode.Format.{IsGroup, room, parse-layout}

-- The buffer passes the check.
abbrev pub passes : Bytes → Bool
passes b = validate_checksum (encode8 b)

-- Buffers that are drawn before one passes do not matter.
draw_part-append :
    (xs ys : List Bytes) (b : Bytes)
    → All (λ x. passes x ≡ false) xs
    → passes b ≡ true
    → draw_part (xs ++ b ∷ ys) ≡ some (encode8 b, ys)
unfolding draw_part
draw_part-append [] ys b h p = ground arith
draw_part-append (x ∷ xs) ys b h p = ground (arith, draw_part-append xs ys b h.1 p)

-- Every index of the alphabet gives a character of the class.
char_at-in_class :
    (i : ℕ) (s : Text)
    → All (λ c. in_class c ≡ true) s
    → i < length s
    → in_class (char_at s i) ≡ true
unfolding char_at
char_at-in_class i [] h lt = absurd (omega arith)
char_at-in_class zero (c ∷ s) h lt = h.0
char_at-in_class (suc i) (c ∷ s) h lt = char_at-in_class i s h.1 (omega arith)

chars-in_class : All (λ c. in_class c ≡ true) chars
unfolding in_class
chars-in_class = ground arith

encoded-in_class : (b : ℕ) → in_class (char_at chars (b % length chars)) ≡ true
encoded-in_class b = char_at-in_class (b % 34) chars chars-in_class (omega arith)

encode8-groups :
    (bytes : Bytes)
    → length bytes ≡ 8
    → IsGroup (take 4 (encode8 bytes)) × IsGroup (drop 4 (encode8 bytes))
unfolding encode8
encode8-groups (a ∷ b ∷ c ∷ d ∷ e ∷ f ∷ g ∷ h ∷ []) len =
    let q = encoded-in_class in
    ((refl, (q a, (q b, (q c, (q d, tt))))), (refl, (q e, (q f, (q g, (q h, tt))))))
encode8-groups bytes len = absurd (omega arith)

-- The code of two buffers.
abbrev pub code_of : Bytes → Bytes → RoomCode
code_of b c =
    room (take 4 (encode8 b)) (drop 4 (encode8 b)) (take 4 (encode8 c)) (drop 4 (encode8 c))

-- Where two of the drawn buffers pass the check and have eight bytes, and no other before them
-- passes, `generate` ends with the code of these two, and its `expect` does not panic.
pub generate-append :
    (xs ys zs : List Bytes) (b c : Bytes)
    → All (λ x. passes x ≡ false) xs
    → All (λ y. passes y ≡ false) ys
    → passes b ≡ true
    → passes c ≡ true
    → length b ≡ 8
    → length c ≡ 8
    → generate (xs ++ b ∷ (ys ++ c ∷ zs)) ≡ some (ok (code_of b c))
unfolding generate
generate-append xs ys zs b c hx hy pb pc lb lc =
    let (b1, b2) = encode8-groups b lb in
    let (c1, c2) = encode8-groups c lc in
    rw (draw_part-append xs (ys ++ c ∷ zs) b hx pb, draw_part-append ys zs c hy pc)
      (unfold raw_code in ap some (parse-layout _ _ _ _ b1 b2 c1 c2))

of_captures_again :
    (code : Text) (gs : Option (Text × Text × Text × Text)) (r : RoomCode)
    → captures code ≡ gs
    → of_captures code gs ≡ ok r
    → parse r.raw ≡ ok r
unfolding of_captures parse
of_captures_again code none r c e = cc
of_captures_again code (some gs) r c e =
    let raw : r.raw ≡ code = ground arith in
    subst (λ t. parse t ≡ ok r) (sym raw) (unfold parse in rw c e)

-- What is parsed is parsed again from its own text.
parse-raw : (code : Text) (r : RoomCode) → parse code ≡ ok r → parse r.raw ≡ ok r
parse-raw code r e = of_captures_again code (captures code) r refl (unfold parse in e)

-- A code that was generated is parsed from its text.
pub generate-parse :
    (buffers : List Bytes) (r : RoomCode) → generate buffers ≡ some (ok r) → parse r.raw ≡ ok r
unfolding generate
generate-parse buffers r e =
    >>=_ensures (λ o. o ≡ ok r → parse r.raw ≡ ok r) (draw_part buffers) _
      (λ (part1, rest) d.
        >>=_ensures (λ o. o ≡ ok r → parse r.raw ≡ ok r) (draw_part rest) _
          (λ (part2, rest') d' o h k. parse-raw (raw_code part1 part2) r (cc)))
      (ok r) e refl
