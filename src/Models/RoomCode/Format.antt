-- ===== src/Models/RoomCode/Format.antt =====
-- `RoomCode::parse` accepts the texts of the format, and no other.
use qomicex_connector_rust.Base.{
  ◌≡◌, refl, sym, ap, subst, ◌∙◌, Text, codes, true, [], ◌∷◌, ◌++◌, some, length, arith, All,
  strip_prefix, strip_prefix_sound, append-nil, Option-cases, inl, inr,
}
use qomicex_connector_rust.Base.Result.{ok}
use qomicex_connector_rust.Models.RoomCode.{
  RoomCode, prefix, in_class, group, at_end, captures, dashed, parse,
}
use mathlib.Core.Option.{some-injective}
use qomicex_connector_rust.Base.Maybe.{>>=_ensures}

-- A group of the format: four characters of the class.
abbrev pub IsGroup : Text → Type 0
IsGroup g = (length g ≡ 4) × All (λ c. in_class c ≡ true) g

-- The text of four groups.
abbrev pub layout : Text → Text → Text → Text → Text
layout g1 g2 g3 g4 =
    prefix ++ (g1 ++ (codes "-" ++ (g2 ++ (codes "-" ++ (g3 ++ (codes "-" ++ g4))))))

abbrev pub room : Text → Text → Text → Text → RoomCode
room g1 g2 g3 g4 = record {
  raw = layout g1 g2 g3 g4;
  network_name_part = dashed g1 g2;
  secret_part = dashed g3 g4;
}

group-append : (g s : Text) → IsGroup g → group (g ++ s) ≡ some (g, s)
unfolding group
group-append (a ∷ b ∷ c ∷ d ∷ []) s h = ground arith
group-append (a ∷ b ∷ c ∷ d ∷ e ∷ g) s h = absurd (omega arith)
group-append (a ∷ b ∷ c ∷ []) s h = absurd (omega arith)
group-append (a ∷ b ∷ []) s h = absurd (omega arith)
group-append (a ∷ []) s h = absurd (omega arith)
group-append [] s h = absurd (omega arith)

group_sound : (s g r : Text) → group s ≡ some (g, r) → IsGroup g × (s ≡ g ++ r)
unfolding group
group_sound (a ∷ b ∷ c ∷ d ∷ s) g r e = ground arith
group_sound (a ∷ b ∷ c ∷ []) g r e = cc
group_sound (a ∷ b ∷ []) g r e = cc
group_sound (a ∷ []) g r e = cc
group_sound [] g r e = cc

group_whole : (g : Text) → IsGroup g → group g ≡ some (g, [])
group_whole g h = ap group (sym (append-nil g)) ∙ group-append g [] h

-- Four groups of four characters of the class, behind the prefix and with dashes between them, are
-- parsed into their first two and their last two, whatever their checksum.
pub parse-layout :
    (g1 g2 g3 g4 : Text)
    → IsGroup g1
    → IsGroup g2
    → IsGroup g3
    → IsGroup g4
    → parse (layout g1 g2 g3 g4) ≡ ok (room g1 g2 g3 g4)
unfolding parse captures strip_prefix
parse-layout g1 g2 g3 g4 h1 h2 h3 h4 =
    rw (group-append g1 _ h1, group-append g2 _ h2, group-append g3 _ h3, group_whole g4 h4)

-- The groups that `captures` finds.
abbrev pub Found : Text → Text × Text × Text × Text → Type 0
Found code (g1, g2, g3, g4) =
    IsGroup g1 × IsGroup g2 × IsGroup g3 × IsGroup g4 × (code ≡ layout g1 g2 g3 g4)

at_end_sound : (s : Text) {u : Unit {0}} → at_end s ≡ some u → s ≡ []
unfolding at_end
at_end_sound [] e = refl
at_end_sound (c ∷ s) e = cc

assemble :
    (g1 g2 g3 g4 : Text) {code s0 s1 t1 s2 t2 s3 t3 s4 : Text}
    → code ≡ prefix ++ s0
    → s0 ≡ g1 ++ s1
    → s1 ≡ codes "-" ++ t1
    → t1 ≡ g2 ++ s2
    → s2 ≡ codes "-" ++ t2
    → t2 ≡ g3 ++ s3
    → s3 ≡ codes "-" ++ t3
    → t3 ≡ g4 ++ s4
    → s4 ≡ []
    → code ≡ layout g1 g2 g3 g4
assemble g1 g2 g3 g4 e0 e1 d1 e2 d2 e3 d3 e4 e5 =
    rw (e0, e1, d1, e2, d2, e3, d3, e4, e5, append-nil g4)

captures_sound :
    (code : Text) (gs : Text × Text × Text × Text) → captures code ≡ some gs → Found code gs
unfolding captures
captures_sound code = >>=_ensures (Found code) (strip_prefix prefix code) _ λ s0 e0.
    >>=_ensures (Found code) (group s0) _ λ (g1, s1) e1.
      >>=_ensures (Found code) (strip_prefix (codes "-") s1) _ λ t1 d1.
        >>=_ensures (Found code) (group t1) _ λ (g2, s2) e2.
          >>=_ensures (Found code) (strip_prefix (codes "-") s2) _ λ t2 d2.
            >>=_ensures (Found code) (group t2) _ λ (g3, s3) e3.
              >>=_ensures (Found code) (strip_prefix (codes "-") s3) _ λ t3 d3.
                >>=_ensures (Found code) (group t3) _ λ (g4, s4) e4.
                  >>=_ensures (Found code) (at_end s4) _ λ u e5 gs e6.
                    subst (Found code) (some-injective _ _ e6) (
                      (group_sound s0 g1 s1 e1).0,
                      (group_sound t1 g2 s2 e2).0,
                      (group_sound t2 g3 s3 e3).0,
                      (group_sound t3 g4 s4 e4).0,
                      assemble g1 g2 g3 g4 (strip_prefix_sound prefix code e0)
                          (group_sound s0 g1 s1 e1).1 (strip_prefix_sound (codes "-") s1 d1)
                          (group_sound t1 g2 s2 e2).1 (strip_prefix_sound (codes "-") s2 d2)
                          (group_sound t2 g3 s3 e3).1 (strip_prefix_sound (codes "-") s3 d3)
                          (group_sound t3 g4 s4 e4).1 (at_end_sound s4 e5),
                    )

-- Every text that is parsed is the prefix and four groups of four characters of the class, with
-- dashes between them, and the result is the text with its first two groups and its last two.
pub parse_sound :
    (code : Text) (r : RoomCode)
    → parse code ≡ ok r
    → (gs : Text × Text × Text × Text) × Found code gs × (r ≡ room gs.0 gs.1 gs.2 gs.3)
unfolding parse
parse_sound code r h = elim (Option-cases (captures code)) [
  | inl e ↦ ground arith
  | inr (gs, e) ↦ let f = captures_sound code gs e in (gs, f, ground (arith, f.4))
]
