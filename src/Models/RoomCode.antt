-- ===== src/Models/RoomCode.antt =====
-- crates/qomicex-connector/src/models/room_code.rs: parsing and generating room codes.
pub mod Format
pub mod Checksum
pub mod Generate
use qomicex_connector_rust.Base.{
  ℕ, zero, suc, ◌+◌, ◌%◌, Text, Bytes, codes, Bool, true, false, ◌&&◌, ◌||◌, List, [], ◌∷◌, ◌++◌,
  map, Option, none, some, length, take, drop, leb, ◌==◌, if◌then◌else◌, strip_prefix,
}
use qomicex_connector_rust.Base.Int.{ℤ, pos, ◌+ℤ◌, ◌-ℤ◌, divides}
use qomicex_connector_rust.Base.Maybe.{◌>>=◌}
use qomicex_connector_rust.Base.Result.{Result, ok, err}
use qomicex_connector_rust.Error.{Outcome, room_code_invalid}

pub record RoomCode : Type 0 where
  pub raw : Text
  pub network_name_part : Text
  pub secret_part : Text

abbrev pub prefix : Text
prefix = codes "U/"

abbrev pub chars : Text
chars = codes "0123456789ABCDEFGHJKLMNPQRSTUVWXYZ"

-- The class `[A-HJ-NP-Z0-9]` of the pattern.
unfoldable pub in_class : ℕ → Bool
in_class c =
    leb b'A' c && leb c b'H'
    || leb b'J' c && leb c b'N'
    || leb b'P' c && leb c b'Z'
    || leb b'0' c && leb c b'9'

-- A group `([A-HJ-NP-Z0-9]{4})` in front of a text, and the text behind it.
unfoldable pub group : Text → Option (Text × Text)
unfolding in_class
group (a ∷ b ∷ c ∷ d ∷ s) =
    if in_class a && in_class b && in_class c && in_class d
    then some (a ∷ b ∷ c ∷ d ∷ [], s)
    else none
group s = none

at_end : Text → Option (Unit {0})
at_end [] = some tt
at_end (c ∷ s) = none

-- `pattern().captures(code)`: the four groups.
unfoldable pub captures : Text → Option (Text × Text × Text × Text)
unfolding at_end
captures code = do
  s0 ← strip_prefix prefix code
  (g1, s1) ← group s0
  t1 ← strip_prefix (codes "-") s1
  (g2, s2) ← group t1
  t2 ← strip_prefix (codes "-") s2
  (g3, s3) ← group t2
  t3 ← strip_prefix (codes "-") s3
  (g4, s4) ← group t3
  done ← at_end s4
  some (g1, g2, g3, g4)

-- Two groups with a dash between them.
abbrev pub dashed : Text → Text → Text
dashed a b = a ++ codes "-" ++ b

of_captures : Text → Option (Text × Text × Text × Text) → Outcome RoomCode
of_captures code none = err (room_code_invalid (codes "无效的房间码格式: " ++ code))
of_captures code (some (g1, g2, g3, g4)) =
    ok (record { raw = code; network_name_part = dashed g1 g2; secret_part = dashed g3 g4 })

unfoldable pub parse : Text → Outcome RoomCode
unfolding of_captures
parse code = of_captures code (captures code)

unfoldable pub easy_tier_network_name : RoomCode → Text
easy_tier_network_name r = codes "scaffolding-mc-" ++ r.network_name_part

unfoldable pub easy_tier_network_secret : RoomCode → Text
easy_tier_network_secret r = r.secret_part

-- `CHARS.as_bytes()[idx]`
unfoldable pub char_at : Text → ℕ → ℕ
char_at [] idx = 0
char_at (c ∷ s) zero = c
char_at (c ∷ s) (suc idx) = char_at s idx

-- One character for each byte.
unfoldable pub encode8 : Bytes → Text
unfolding char_at
encode8 bytes = map (λ b. char_at chars (b % length chars)) bytes

-- `s.find(c)`
unfoldable pub find : ℕ → Text → Option ℕ
find c [] = none
find c (d ∷ s) = if d == c then some 0 else elim (find c s) [ none ↦ none | some i ↦ some (suc i) ]

-- The loop over the characters from index `i` on; `none` is the early `return false`.
unfoldable pub checksum : ℕ → ℤ → Text → Option ℤ
checksum i value [] = some value
checksum i value (c ∷ s) = elim (find c chars) [
  | none ↦ none
  | some digit ↦ checksum (suc i) (if i % 2 == 0 then value +ℤ pos digit else value -ℤ pos digit) s
]

unfoldable pub validate_checksum : Text → Bool
validate_checksum t = elim (checksum 0 (pos 0) t) [ none ↦ false | some value ↦ divides 7 value ]

-- One `loop` of `generate` over the buffers that the random source fills, in order: the part that
-- passes and the buffers behind it. `none`: no buffer has passed yet.
unfoldable pub draw_part : List Bytes → Option (Text × List Bytes)
draw_part [] = none
draw_part (buffer ∷ buffers) =
    let later = draw_part buffers in
    if validate_checksum (encode8 buffer) then some (encode8 buffer, buffers) else later

unfoldable pub raw_code : Text → Text → Text
raw_code part1 part2 =
    let second = take 4 part2 ++ (codes "-" ++ drop 4 part2) in
    prefix ++ (take 4 part1 ++ (codes "-" ++ (drop 4 part1 ++ (codes "-" ++ second))))

-- An error would be the panic of `expect`.
unfoldable pub generate : List Bytes → Option (Outcome RoomCode)
unfolding raw_code
generate buffers = do
  (part1, rest) ← draw_part buffers
  (part2, rest') ← draw_part rest
  some (parse (raw_code part1 part2))
