-- ===== src/Models/RoomCode/Checksum.antt =====
-- `validate_checksum` against the sums of the digits at even and at odd places.
use qomicex_connector_rust.Base.{
  ℕ, suc, ◌+◌, ◌%◌, ◌≡◌, refl, ◌∙◌, ◌↔◌, Text, true, [], ◌∷◌, none, some, arith, All, ◌==◌,
  if◌then◌else◌,
}
use qomicex_connector_rust.Base.Int.{
  ℤ, pos, negsuc, pos_part, neg_part, ◌+ℤ◌, ◌-ℤ◌, +ℤ_parts, -ℤ_parts, divides,
}
use qomicex_connector_rust.Models.RoomCode.{chars, find, checksum, validate_checksum}

-- The place of a character in the alphabet.
abbrev pub digit : ℕ → ℕ
digit c = elim (find c chars) [ none ↦ 0 | some d ↦ d ]

-- The digits at the first, third, … place, and those at the second, fourth, … place.
unfoldable mutual
  pub even_sum : Text → ℕ
  even_sum [] = 0
  even_sum (c ∷ s) = digit c + odd_sum s

  pub odd_sum : Text → ℕ
  odd_sum [] = 0
  odd_sum (c ∷ s) = even_sum s

-- Every character is in the alphabet.
abbrev pub InAlphabet : Text → Type 0
InAlphabet = All (λ c. (d : ℕ) × (find c chars ≡ some d))

-- What the loop adds from index `i` on, and what it subtracts.
abbrev added : ℕ → Text → ℕ
added i s = if i % 2 == 0 then even_sum s else odd_sum s

abbrev subtracted : ℕ → Text → ℕ
subtracted i s = if i % 2 == 0 then odd_sum s else even_sum s

checksum_step :
    (i : ℕ) (v : ℤ) (c : ℕ) (s : Text) (d : ℕ)
    → find c chars ≡ some d
    → checksum i v (c ∷ s) ≡ checksum (suc i) (if i % 2 == 0 then v +ℤ pos d else v -ℤ pos d) s
unfolding checksum
checksum_step i v c s d e = rw (e, checksum)

step_parts :
    (i : ℕ) (v r : ℤ) (c : ℕ) (s : Text) (d : ℕ)
    → find c chars ≡ some d
    → pos_part r + neg_part (if i % 2 == 0 then v +ℤ pos d else v -ℤ pos d) + subtracted (suc i) s
      ≡ neg_part r + pos_part (if i % 2 == 0 then v +ℤ pos d else v -ℤ pos d) + added (suc i) s
    → pos_part r + neg_part v + subtracted i (c ∷ s) ≡ neg_part r + pos_part v + added i (c ∷ s)
unfolding even_sum odd_sum
step_parts i v r c s d e h = ground (arith, +ℤ_parts v (pos d), -ℤ_parts v (pos d))

-- The loop returns for every text of the alphabet, and keeps its integer apart by the two sums.
checksum_parts :
    (i : ℕ) (v : ℤ) (s : Text)
    → InAlphabet s
    → (r : ℤ) × (checksum i v s ≡ some r)
      × (pos_part r + neg_part v + subtracted i s ≡ neg_part r + pos_part v + added i s)
checksum_parts i v [] h = (v, unfold checksum in refl, unfold even_sum odd_sum in ground arith)
checksum_parts i v (c ∷ s) ((d, e), h) =
    let (r, p, q) = checksum_parts (suc i) (if i % 2 == 0 then v +ℤ pos d else v -ℤ pos d) s h in
    (r, checksum_step i v c s d e ∙ p, step_parts i v r c s d e q)

divides_parts :
    (r : ℤ) (a b : ℕ) → pos_part r + b ≡ neg_part r + a → (divides 7 r ≡ true) ↔ (a % 7 ≡ b % 7)
unfolding divides
divides_parts (pos n) a b h = ground arith
divides_parts (negsuc n) a b h = ground arith

-- On texts over the alphabet the check passes exactly if the digits at the first, third, … place
-- and those at the second, fourth, … place have the same sum modulo 7.
pub validate_checksum_iff :
    (s : Text) → InAlphabet s → (validate_checksum s ≡ true) ↔ (even_sum s % 7 ≡ odd_sum s % 7)
unfolding validate_checksum
validate_checksum_iff s h =
    let (r, p, q) = checksum_parts 0 (pos 0) s h in
    rw (p, validate_checksum) (divides_parts r (even_sum s) (odd_sum s) (omega arith))
