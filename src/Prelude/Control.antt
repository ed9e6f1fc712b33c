-- ===== src/Prelude/Control.antt =====
-- Results of code that may raise.
use mathlib.Core.Path.{◌≡◌, refl}
use mathlib.Core.Bool.{Bool, true, false}
use mathlib.Core.Logic.{◌⊎◌, inl, inr}
use mathlib.Core.Option.{Option, none, some}

pub data Result {ℓ} (E A : Type ℓ) : Type ℓ where
  ok : A → Result E A
  err : E → Result E A

-- `raise e if b`
abbrev pub refuse {ℓ} : {E A : Type ℓ} → Bool → E → Result E A → Result E A
refuse true e r = err e
refuse false e r = r

-- `if b: raise e`, as a step of a block
abbrev pub raise_when {ℓ} : {E : Type ℓ} → Bool → E → Result E (Unit {ℓ})
raise_when true e = err e
raise_when false e = ok tt

-- the value of a row that was looked up, or the error of the method that looks it up
abbrev pub found {ℓ} : {E A : Type ℓ} → E → Option A → Result E A
found e none = err e
found e (some a) = ok a

module _ {ℓ} {E A B : Type ℓ} where
  infixl 10 ◌>>=◌
  abbrev pub ◌>>=◌ : Result E A → (A → Result E B) → Result E B
  ok a >>= f = f a
  err e >>= f = err e

  infixl 10 ◌>>◌
  abbrev pub ◌>>◌ : Result E A → Result E B → Result E B
  m >> n = m >>= λ _. n

-- To split on a result and keep the equation.
pub Result-cases {ℓ} :
    {E A : Type ℓ} (r : Result E A) → ((a : A) × (r ≡ ok a)) ⊎ ((e : E) × (r ≡ err e))
Result-cases (ok a) = inl (a, refl)
Result-cases (err e) = inr (e, refl)
