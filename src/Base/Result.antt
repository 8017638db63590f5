-- ===== src/Base/Result.antt =====
-- `Result<A, E>`, and `?` as its bind.
use mathlib.Core.Path.{◌≡◌, refl}
use mathlib.Core.Logic.{◌⊎◌, inl, inr}
use mathlib.Core.Bool.{Bool, true, false}
use mathlib.Core.Option.{Option, none, some}

pub data Result {ℓ κ} (E : Type κ) (A : Type ℓ) : Type (ℓ ⊔ κ) where
  ok : A → Result E A
  err : E → Result E A

infixl 5 ◌>>=◌ ◌>>◌
abbrev pub ◌>>=◌ {ℓ κ μ} :
    {E : Type κ} {A : Type ℓ} {B : Type μ} → Result E A → (A → Result E B) → Result E B
ok a >>= f = f a
err e >>= f = err e

abbrev pub ◌>>◌ {ℓ κ} : {E : Type κ} {B : Type ℓ} → Result E (Unit {0}) → Result E B → Result E B
m >> k = m >>= λ _. k

-- `option.ok_or_else(|| e)`
abbrev pub ok_or {ℓ κ} : {E : Type κ} {A : Type ℓ} → Option A → E → Result E A
ok_or none e = err e
ok_or (some a) e = ok a

abbrev pub is_ok {ℓ κ} : {E : Type κ} {A : Type ℓ} → Result E A → Bool
is_ok (ok a) = true
is_ok (err e) = false

pub Result-cases {ℓ κ} :
    {E : Type κ} {A : Type ℓ} (r : Result E A) → ((a : A) × (r ≡ ok a)) ⊎ ((e : E) × (r ≡ err e))
Result-cases (ok a) = inl (a, refl)
Result-cases (err e) = inr (e, refl)

-- Inversion of a `?` that went through.
pub >>=-eq-ok {κ ℓ μ} :
    {Err : Type κ} {Val : Type ℓ} {Out : Type μ} (first : Result Err Val)
    (next : Val → Result Err Out) {out : Out}
    → (first >>= next) ≡ ok out
    → (val : Val) × (first ≡ ok val) × (next val ≡ ok out)
>>=-eq-ok (ok val) next through = (val, refl, through)
>>=-eq-ok (err why) next through = cc

-- The continuation of a `?` may use what holds of the value that went through.
pub >>=_ensures {κ ℓ μ ν} :
    {Err : Type κ} {Val : Type ℓ} {Out : Type μ} (Q : Out → Type ν) (first : Result Err Val)
    (next : Val → Result Err Out)
    → ((val : Val) → first ≡ ok val → (out : Out) → next val ≡ ok out → Q out)
    → (out : Out) → (first >>= next) ≡ ok out
    → Q out
>>=_ensures Q (ok val) next keep out through = keep val refl out through
>>=_ensures Q (err why) next keep out through = cc
