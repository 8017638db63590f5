-- ===== src/Core/Negotiator.antt =====
-- crates/qomicex-connector/src/core/protocol_negotiator.rs
use mathlib.Core.List.{Sublist, Sublistᴰ, nil-sublist}
use mathlib.Core.Logic.{∥∥₁_map}
use qomicex_connector_rust.Base.{
  ◌≡◌, refl, Text, true, ◌&&◌, List, [], ◌∷◌, arith, text_eq, text_eq_iff, contains, if◌then◌else◌,
  Bool-cases, inl, inr,
}

-- The entries of `my` that are in `center`, in the order of `my`.
unfoldable pub negotiate : List Text → List Text → List Text
unfolding contains
negotiate [] center = []
negotiate (p ∷ my) center =
    let rest = negotiate my center in if contains center p then p ∷ rest else rest

contains_self : (k p : Text) (xs : List Text) → text_eq p k ≡ true → contains xs k ≡ contains xs p
contains_self k p xs e = rw ((text_eq_iff p k).0 e)

-- A key is negotiated exactly if both sides have it.
pub contains-negotiate :
    (my center : List Text) (k : Text)
    → contains (negotiate my center) k ≡ (contains my k && contains center k)
unfolding negotiate contains
contains-negotiate [] center k = refl
contains-negotiate (p ∷ my) center k =
    ground (arith, contains-negotiate my center k, contains_self k p center)

skip : (p : Text) {xs ys : List Text} → Sublist xs ys → Sublist xs (p ∷ ys)
skip p s = ∥∥₁_map s (λ t. Sublistᴰ.cons t)

keep : (p : Text) {xs ys : List Text} → Sublist xs ys → Sublist (p ∷ xs) (p ∷ ys)
keep p s = ∥∥₁_map s (λ t. Sublistᴰ.cons-cons refl t)

-- What is negotiated is a sublist of the own keys: it has their order and their repetitions.
pub negotiate-sublist : (my center : List Text) → Sublist (negotiate my center) my
unfolding negotiate
negotiate-sublist [] center = nil-sublist []
negotiate-sublist (p ∷ my) center = elim (Bool-cases (contains center p)) [
  | inl e ↦ rw (e, negotiate) (keep p (negotiate-sublist my center))
  | inr e ↦ rw (e, negotiate) (skip p (negotiate-sublist my center))
]

-- A second negotiation with the same center changes nothing.
pub negotiate-negotiate :
    (my center : List Text) → negotiate (negotiate my center) center ≡ negotiate my center
unfolding negotiate
negotiate-negotiate [] center = refl
negotiate-negotiate (p ∷ my) center = ground (arith, negotiate-negotiate my center)
