-- ===== src/Base.antt =====
-- The names that the other modules share: the libraries', passed on, and those of the children.
mod Tests
mod Lists
mod Strings
mod Utf8
mod Decimal
mod HashMap
mod Split
mod Words
mod Case
mod Ipv4
pub mod Int
pub mod Result
pub mod Maybe
pub use Tests.*
pub use Lists.*
pub use Strings.{Text, Bytes, codes, text_eq_iff, text_eq_refl, contains-append}
unfoldable pub use Strings.{text_eq, contains, join}
pub use Prim.Native.Nat.{ℕ, zero, suc, ◌+◌, ◌-◌, ◌*◌, ◌/◌, ◌%◌, ◌^◌, ◌≤◌, ◌<◌}
pub use Prim.Native.String.{String}
pub use mathlib.Core.Path.{◌≡◌, refl, sym, ap, subst, ◌∙◌}
pub use mathlib.Core.Logic.{◌≢◌, ◌↔◌, ◌⊎◌, inl, inr}
pub use mathlib.Core.Bool.{Bool, true, false, not, ◌&&◌, ◌||◌}
pub use mathlib.Core.Option.{Option, none, some}
pub use mathlib.Core.List.{List, [], ◌∷◌, ◌++◌, map, append_assoc, append-nil}
pub use native.Mathlib.Omega.{arith}
unfoldable pub use Utf8.{utf8, utf8_lossy}
pub use Utf8.{IsScalar, IsAscii}
pub use Utf8.RoundTrip.{utf8_lossy-utf8, utf8_lossy-ascii, length-utf8_lossy}
unfoldable pub use Decimal.{decimal, is_digit, parse_unsigned}
pub use Decimal.RoundTrip.{
  IsDigit, decimal-IsDigit, decimal-ne-nil, parse_unsigned-decimal, parse_unsigned-le,
}
unfoldable pub use HashMap.{lookup, insert, remove}
pub use HashMap.{
  Map, lookup-insert, lookup-remove, lookup-insert_self, lookup-remove_self, map_laws, HasOnce,
  lookup-apart, insert-HasOnce, remove-HasOnce,
}
unfoldable pub use Split.{split_char, strip_prefix, split_once, split}
pub use Split.{
  Lacks, split_char-append, split_char_sound, strip_prefix-append, strip_prefix_sound, split-join,
}
unfoldable pub use Words.{be16, from_be16, be32, from_be32}
pub use Words.{from_be16-be16, from_be32-be32}
unfoldable pub use Case.{
  to_ascii_lowercase, to_ascii_uppercase, eq_ignore_ascii_case, starts_ignore_ascii_case,
  is_whitespace, trim,
}
unfoldable pub use Ipv4.{ipv4_text, is_loopback, is_link_local}
