-- ===== src/Base/Maybe.antt =====
-- `?` on an `Option`, as its bind.
use mathlib.Core.Path.{◌≡◌, refl}
use mathlib.Core.Option.{Option, none, some}

infixl 5 ◌>>=◌
abbrev pub ◌>>=◌ {ℓ κ} : {A : Type ℓ} {B : Type κ} → Option A → (A → Option B) → Option B
none >>= f = none
some a >>= f = f a

-- The continuation of a `?` may use what holds of the value that went through.
pub >>=_ensures {ℓ κ ν} :
    {A : Type ℓ} {B : Type κ} (Q : B → Type ν) (m : Option A) (f : A → Option B)
    → ((a : A) → m ≡ some a → (b : B) → f a ≡ some b → Q b)
    → (b : B) → (m >>= f) ≡ some b
    → Q b
>>=_ensures Q (some a) f keep b h = keep a refl b h
>>=_ensures Q none f keep b h = cc
