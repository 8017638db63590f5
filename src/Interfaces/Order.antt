-- ===== src/Interfaces/Order.antt =====
-- The candidates are sorted, and the address that is chosen is the best of them.
use qomicex_connector_rust.Base.{
  ◌≤◌, ◌≡◌, refl, subst, Text, Bool, true, false, List, [], ◌∷◌, arith, All, Bool-cases, inl, inr,
  if◌then◌else◌,
}
use qomicex_connector_rust.Interfaces.{
  Candidate, score, text_leb, key_leb, insert_candidate, sort_candidates,
}

text_leb_total : (s t : Text) → text_leb s t ≡ false → text_leb t s ≡ true
unfolding text_leb
text_leb_total [] t h = cc
text_leb_total (c ∷ s) [] h = refl
text_leb_total (c ∷ s) (d ∷ t) h = ground (arith, text_leb_total s t)

key_leb_total : (a b : Candidate) → key_leb a b ≡ false → key_leb b a ≡ true
unfolding key_leb
key_leb_total a b h = ground (arith, text_leb_total a.0 b.0)

key_leb-score : (a b : Candidate) → key_leb a b ≡ true → score a.0 ≤ score b.0
unfolding key_leb
key_leb-score a b h = ground arith

-- Each candidate comes before the next in the order of the keys.
unfoldable pub IsSorted : List Candidate → Type 0
IsSorted [] = Unit
IsSorted (c ∷ []) = Unit
IsSorted (c ∷ d ∷ ds) = (key_leb c d ≡ true) × IsSorted (d ∷ ds)

insert_cons :
    (b : Bool) (c d : Candidate) (ds : List Candidate)
    → key_leb c d ≡ b
    → insert_candidate c (d ∷ ds) ≡ (if b then c ∷ d ∷ ds else d ∷ insert_candidate c ds)
unfolding insert_candidate
insert_cons b c d ds e = rw e refl

insert_candidate-IsSorted :
    (c : Candidate) (cs : List Candidate) → IsSorted cs → IsSorted (insert_candidate c cs)
unfolding insert_candidate IsSorted
insert_candidate-IsSorted c [] s = tt
insert_candidate-IsSorted c (d ∷ []) s = elim (Bool-cases (key_leb c d)) [
  | inl e ↦ rw e (e, tt)
  | inr e ↦ rw e (key_leb_total c d e, tt)
]
insert_candidate-IsSorted c (d ∷ e ∷ ds) s =
    let later = insert_candidate-IsSorted c (e ∷ ds) s.1 in
    elim (Bool-cases (key_leb c d)) [
      | inl p ↦ rw p (p, s)
      | inr p ↦ elim (Bool-cases (key_leb c e)) [
        | inl q ↦ rw (p, q) (key_leb_total c d p, (q, s.1))
        | inr q ↦ rw (p, q) (s.0, subst IsSorted (insert_cons false c e ds q) later)
      ]
    ]

pub sort_candidates-IsSorted : (cs : List Candidate) → IsSorted (sort_candidates cs)
unfolding sort_candidates IsSorted
sort_candidates-IsSorted [] = tt
sort_candidates-IsSorted (c ∷ cs) =
    insert_candidate-IsSorted c (sort_candidates cs) (sort_candidates-IsSorted cs)

module _ (P : Candidate → Type 0) where
  insert_candidate-All :
      (c : Candidate) (cs : List Candidate) → P c → All P cs → All P (insert_candidate c cs)
  unfolding insert_candidate
  insert_candidate-All c [] p h = (p, tt)
  insert_candidate-All c (d ∷ ds) p h =
      let later = insert_candidate-All c ds p h.1 in
      elim (Bool-cases (key_leb c d)) [ inl e ↦ rw e (p, h) | inr e ↦ rw e (h.0, later) ]

  pub sort_candidates-All : (cs : List Candidate) → All P cs → All P (sort_candidates cs)
  unfolding sort_candidates
  sort_candidates-All [] h = tt
  sort_candidates-All (c ∷ cs) h =
      insert_candidate-All c (sort_candidates cs) h.0 (sort_candidates-All cs h.1)

  All-insert_candidate :
      (c : Candidate) (cs : List Candidate) → All P (insert_candidate c cs) → P c × All P cs
  unfolding insert_candidate
  All-insert_candidate c [] h = (h.0, tt)
  All-insert_candidate c (d ∷ ds) h = elim (Bool-cases (key_leb c d)) [
    | inl e ↦ subst (All P) (insert_cons true c d ds e) h
    | inr e ↦
        let g : All P (d ∷ insert_candidate c ds) = subst (All P) (insert_cons false c d ds e) h in
        let (p, rest) = All-insert_candidate c ds g.1 in (p, (g.0, rest))
  ]

  pub All-sort_candidates : (cs : List Candidate) → All P (sort_candidates cs) → All P cs
  unfolding sort_candidates
  All-sort_candidates [] h = tt
  All-sort_candidates (c ∷ cs) h =
      let (p, rest) = All-insert_candidate c (sort_candidates cs) h in
      (p, All-sort_candidates cs rest)

-- No candidate has a better key than the first.
pub first_is_best :
    (c : Candidate) (cs : List Candidate)
    → IsSorted (c ∷ cs)
    → All (λ d. score c.0 ≤ score d.0) (c ∷ cs)
unfolding IsSorted
first_is_best c [] s = (omega arith, tt)
first_is_best c (d ∷ ds) s =
    let below = first_is_best d ds s.1 in
    (omega arith, at_least (d ∷ ds) (key_leb-score c d s.0) below)
  where
    at_least :
        (es : List Candidate)
        → score c.0 ≤ score d.0
        → All (λ e. score d.0 ≤ score e.0) es
        → All (λ e. score c.0 ≤ score e.0) es
    at_least [] l h = tt
    at_least (e ∷ es) l h = (omega (arith, h.0), at_least es l h.1)
