-- ===== src/Base/Split.antt =====
-- `str::find` of a character, `strip_prefix`, `split_once`.
use qomicex_connector_rust.Base.Tests.{◌==◌, if◌then◌else◌, Option-cases}
use qomicex_connector_rust.Base.Lists.{All}
use qomicex_connector_rust.Base.Strings.{Text, join}
use Prim.Native.Nat.{ℕ}
use mathlib.Core.Path.{◌≡◌, refl, ap, ◌∙◌}
use mathlib.Core.Logic.{◌≢◌, inl, inr}
use mathlib.Core.List.{List, [], ◌∷◌, ◌++◌, append_assoc}
use mathlib.Core.Option.{Option, none, some}
use native.Mathlib.Omega.{arith}

abbrev pub Lacks : ℕ → Text → Type 0
Lacks c = All (λ d. d ≢ c)

abbrev pub in_front : ℕ → Option (Text × Text) → Option (Text × Text)
in_front c none = none
in_front c (some (a, b)) = some (c ∷ a, b)

-- The text before the first `sep`, and the text behind it.
unfoldable pub split_char : ℕ → Text → Option (Text × Text)
split_char sep [] = none
split_char sep (c ∷ s) = if c == sep then some ([], s) else in_front c (split_char sep s)

unfoldable pub strip_prefix : Text → Text → Option Text
strip_prefix [] s = some s
strip_prefix (p ∷ ps) [] = none
strip_prefix (p ∷ ps) (c ∷ s) = if p == c then strip_prefix ps s else none

-- The same for a separator that is a text.
unfoldable pub split_once : Text → Text → Option (Text × Text)
unfolding strip_prefix
split_once sep [] = elim (strip_prefix sep []) [ none ↦ none | some rest ↦ some ([], rest) ]
split_once sep (c ∷ s) =
    let later = in_front c (split_once sep s) in
    elim (strip_prefix sep (c ∷ s)) [ none ↦ later | some rest ↦ some ([], rest) ]

pub split_char-append :
    (sep : ℕ) (a b : Text) → Lacks sep a → split_char sep (a ++ sep ∷ b) ≡ some (a, b)
unfolding split_char
split_char-append sep [] b h = ground arith
split_char-append sep (c ∷ a) b h = ground (arith, split_char-append sep a b h.1)

-- A split gives the parts of the text, and none of the separators is in the first.
pub split_char_sound :
    (sep : ℕ) (s : Text) {a b : Text}
    → split_char sep s ≡ some (a, b)
    → (s ≡ a ++ sep ∷ b) × Lacks sep a
unfolding split_char
split_char_sound sep [] e = cc
split_char_sound sep (c ∷ s) {a} {b} e = elim (Option-cases (split_char sep s)) [
  | inl p ↦ ground arith
  | inr ((a', b'), p) ↦ ground (arith, split_char_sound sep s {a = a'} {b = b'} p)
]

pub strip_prefix-append : (p s : Text) → strip_prefix p (p ++ s) ≡ some s
unfolding strip_prefix
strip_prefix-append [] s = refl
strip_prefix-append (c ∷ p) s = ground (arith, strip_prefix-append p s)

-- What is left behind a prefix.
pub strip_prefix_sound : (p s : Text) {r : Text} → strip_prefix p s ≡ some r → s ≡ p ++ r
unfolding strip_prefix
strip_prefix_sound [] s e = ground arith
strip_prefix_sound (c ∷ p) [] e = cc
strip_prefix_sound (c ∷ p) (d ∷ s) {r} e = ground (arith, strip_prefix_sound p s {r = r})

first_char : ℕ → List Text → List Text
first_char c [] = (c ∷ []) ∷ []
first_char c (t ∷ ts) = (c ∷ t) ∷ ts

-- `s.split(sep)`: the parts between the separators, at least one.
unfoldable pub split : ℕ → Text → List Text
unfolding first_char
split sep [] = [] ∷ []
split sep (c ∷ s) = let rest = split sep s in if c == sep then [] ∷ rest else first_char c rest

split-append : (sep : ℕ) (t s : Text) → Lacks sep t → split sep (t ++ sep ∷ s) ≡ t ∷ split sep s
unfolding split
split-append sep [] s h = ground arith
split-append sep (c ∷ t) s h = ground (arith, split-append sep t s h.1)

split-whole : (sep : ℕ) (t : Text) → Lacks sep t → split sep t ≡ t ∷ []
unfolding split
split-whole sep [] h = refl
split-whole sep (c ∷ t) h = ground (arith, split-whole sep t h.1)

-- Splitting a join gives the parts back, if there is a part and none holds the separator.
pub split-join :
    (sep : ℕ) (t : Text) (ts : List Text)
    → All (Lacks sep) (t ∷ ts)
    → split sep (join (sep ∷ []) (t ∷ ts)) ≡ t ∷ ts
unfolding join
split-join sep t [] h = split-whole sep t h.0
split-join sep t (u ∷ ts) h =
    ap (split sep) (append_assoc t (sep ∷ []) (join (sep ∷ []) (u ∷ ts)))
    ∙ split-append sep t (join (sep ∷ []) (u ∷ ts)) h.0
    ∙ ap (◌∷◌ t) (split-join sep u ts h.1)
