-- ===== src/Base/Case.antt =====
-- ASCII case, blanks at the ends of a text: `eq_ignore_ascii_case`, `to_ascii_uppercase`, `trim`.
use qomicex_connector_rust.Base.Tests.{leb, ◌==◌, if◌then◌else◌}
use qomicex_connector_rust.Base.Lists.{is_empty, length, take}
use qomicex_connector_rust.Base.Strings.{Text, text_eq}
use Prim.Native.Nat.{ℕ, ◌+◌, ◌-◌}
use mathlib.Core.Bool.{Bool, ◌&&◌, ◌||◌}
use mathlib.Core.List.{[], ◌∷◌, map}

abbrev pub to_lower : ℕ → ℕ
to_lower c = if leb b'A' c && leb c b'Z' then c + 32 else c

abbrev pub to_upper : ℕ → ℕ
to_upper c = if leb b'a' c && leb c b'z' then c - 32 else c

unfoldable pub to_ascii_lowercase : Text → Text
to_ascii_lowercase s = map to_lower s

unfoldable pub to_ascii_uppercase : Text → Text
to_ascii_uppercase s = map to_upper s

unfoldable pub eq_ignore_ascii_case : Text → Text → Bool
unfolding to_ascii_lowercase
eq_ignore_ascii_case s t = text_eq (to_ascii_lowercase s) (to_ascii_lowercase t)

-- `s.get(..p.len()).is_some_and(|q| q.eq_ignore_ascii_case(p))` for an ASCII `p`: bytes that equal `p`
-- are as many characters.
unfoldable pub starts_ignore_ascii_case : Text → Text → Bool
unfolding eq_ignore_ascii_case
starts_ignore_ascii_case p s = eq_ignore_ascii_case (take (length p) s) p

-- `char::is_whitespace`
unfoldable pub is_whitespace : ℕ → Bool
is_whitespace c =
    leb 9 c && leb c 13
    || c == 0x20
    || c == 0x85
    || c == 0xA0
    || c == 0x1680
    || leb 0x2000 c && leb c 0x200A
    || c == 0x2028
    || c == 0x2029
    || c == 0x202F
    || c == 0x205F
    || c == 0x3000

trim_start : Text → Text
unfolding is_whitespace
trim_start [] = []
trim_start (c ∷ s) = let rest = trim_start s in if is_whitespace c then rest else c ∷ s

trim_end : Text → Text
unfolding is_whitespace
trim_end [] = []
trim_end (c ∷ s) =
    let rest = trim_end s in if is_empty rest && is_whitespace c then [] else c ∷ rest

unfoldable pub trim : Text → Text
unfolding trim_start trim_end
trim s = trim_end (trim_start s)
