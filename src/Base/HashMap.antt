-- ===== src/Base/HashMap.antt =====
-- `HashMap<String, V>` as a list of entries in the order of its iteration, which is left open: every
-- theorem ranges over all lists.
use qomicex_connector_rust.Base.Tests.{if◌then◌else◌}
use qomicex_connector_rust.Base.Lists.{All}
use qomicex_connector_rust.Base.Strings.{Text, text_eq, text_eq_iff, text_eq_refl}
use mathlib.Core.Path.{◌≡◌, refl}
use mathlib.Core.Bool.{false}
use mathlib.Core.List.{List, [], ◌∷◌}
use mathlib.Core.Option.{Option, none, some}
use native.Mathlib.Omega.{arith}

abbrev pub Map {ℓ} : Type ℓ → Type ℓ
Map V = List (Text × V)

module _ {ℓ} {V : Type ℓ} where
  -- `map.get(k)`
  unfoldable pub lookup : Text → Map V → Option V
  lookup k [] = none
  lookup k ((j, v) ∷ m) = if text_eq j k then some v else lookup k m

  -- `map.insert(k, v)`
  unfoldable pub insert : Text → V → Map V → Map V
  insert k v [] = (k, v) ∷ []
  insert k v ((j, w) ∷ m) = if text_eq j k then (k, v) ∷ m else (j, w) ∷ insert k v m

  -- `map.remove(k)`
  unfoldable pub remove : Text → Map V → Map V
  remove k [] = []
  remove k ((j, v) ∷ m) = let rest = remove k m in if text_eq j k then rest else (j, v) ∷ rest

  pub lookup-insert :
      (k j : Text) (v : V) (m : Map V)
      → lookup j (insert k v m) ≡ (if text_eq k j then some v else lookup j m)
  unfolding lookup insert
  lookup-insert k j v [] = refl
  lookup-insert k j v ((i, w) ∷ m) =
      ground (arith, text_eq_iff k j, text_eq_iff i k, text_eq_iff i j, lookup-insert k j v m)

  pub lookup-remove :
      (k j : Text) (m : Map V) → lookup j (remove k m) ≡ (if text_eq k j then none else lookup j m)
  unfolding lookup remove
  lookup-remove k j [] = ground arith
  lookup-remove k j ((i, v) ∷ m) =
      ground (arith, lookup-remove k j m, text_eq_iff i k, text_eq_iff i j, text_eq_iff k j)

  pub lookup-insert_self : (k : Text) (v : V) (m : Map V) → lookup k (insert k v m) ≡ some v
  lookup-insert_self k v m = simp (lookup-insert, text_eq_refl)

  pub lookup-remove_self : (k : Text) (m : Map V) → lookup k (remove k m) ≡ none
  lookup-remove_self k m = simp (lookup-remove, text_eq_refl)

module _ {ℓ} {V : Type ℓ} where
  -- No key has two entries.
  abbrev pub HasOnce : Map V → Type 0
  HasOnce [] = Unit
  HasOnce ((k, v) ∷ m) = All (λ e. text_eq e.0 k ≡ false) m × HasOnce m

  pub lookup-apart : (k : Text) (m : Map V) → All (λ e. text_eq e.0 k ≡ false) m → lookup k m ≡ none
  unfolding lookup
  lookup-apart k [] h = refl
  lookup-apart k ((j, v) ∷ m) h = ground (arith, lookup-apart k m h.1)

  apart-insert :
      (j k : Text) (v : V) (m : Map V)
      → text_eq k j ≡ false
      → All (λ e. text_eq e.0 j ≡ false) m
      → All (λ e. text_eq e.0 j ≡ false) (insert k v m)
  unfolding insert
  apart-insert j k v [] h a = (h, tt)
  apart-insert j k v ((i, w) ∷ m) h a = ground (arith, apart-insert j k v m h a.1)

  -- Inserting keeps one entry for each key.
  pub insert-HasOnce : (k : Text) (v : V) (m : Map V) → HasOnce m → HasOnce (insert k v m)
  unfolding insert
  insert-HasOnce k v [] h = (tt, tt)
  insert-HasOnce k v ((j, w) ∷ m) h =
      ground
        (arith, insert-HasOnce k v m h.1, apart-insert j k v m, text_eq_iff j k, text_eq_iff k j)

  apart-remove :
      (j k : Text) (m : Map V)
      → All (λ e. text_eq e.0 j ≡ false) m
      → All (λ e. text_eq e.0 j ≡ false) (remove k m)
  unfolding remove
  apart-remove j k [] a = tt
  apart-remove j k ((i, w) ∷ m) a = ground (arith, apart-remove j k m a.1)

  pub remove-HasOnce : (k : Text) (m : Map V) → HasOnce m → HasOnce (remove k m)
  unfolding remove
  remove-HasOnce k [] h = tt
  remove-HasOnce k ((j, w) ∷ m) h = ground (arith, remove-HasOnce k m h.1, apart-remove j k m h.0)

pub ruleset map_laws = (lookup-insert, lookup-remove)
