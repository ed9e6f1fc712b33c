-- ===== src/Prelude/Triples.antt =====
-- What holds when a method ends: `P` of a value that it returns, `Q` of an error that it raises, each
-- with the state that is left.
use lucius_engineering.Prelude.Control.{Result, ok, err}
use lucius_engineering.Prelude.Exec.{Exec, ◌>>=◌}

module _ {ℓ κ} {S E A : Type ℓ} where
  abbrev pub Ends : (A → S → Type κ) → (E → S → Type κ) → Result E A × S → Type κ
  Ends P Q (ok a, s) = P a s
  Ends P Q (err e, s) = Q e s

module _ {ℓ κ} {S E A B : Type ℓ} (P : A → S → Type κ) (R : B → S → Type κ)
    (Q : E → S → Type κ) where
  Ends-after :
      (f : A → Exec S E B) (x : Result E A × S) (s : S)
      → Ends P Q x
      → ((a : A) (t : S) → P a t → Ends R Q (f a t))
      → Ends R Q (((λ (_ : S). x) >>= f) s)
  Ends-after f (ok a, t) s h g = g a t h
  Ends-after f (err e, t) s h g = h

  -- a method and what follows it
  pub Ends-bind :
      (m : Exec S E A) (f : A → Exec S E B) (s : S)
      → Ends P Q (m s)
      → ((a : A) (t : S) → P a t → Ends R Q (f a t))
      → Ends R Q ((m >>= f) s)
  Ends-bind m f s h g = Ends-after f (m s) s h g

module _ {ℓ κ} {S E A : Type ℓ} (P P' : A → S → Type κ) (Q Q' : E → S → Type κ) where
  pub Ends-map :
      (x : Result E A × S)
      → Ends P Q x
      → ((a : A) (s : S) → P a s → P' a s)
      → ((e : E) (s : S) → Q e s → Q' e s)
      → Ends P' Q' x
  Ends-map (ok a, s) h f g = f a s h
  Ends-map (err e, s) h f g = g e s h
