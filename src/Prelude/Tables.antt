-- ===== src/Prelude/Tables.antt =====
-- A database table: the rows under their primary keys, in the order of insertion.
use Prim.Native.String.{String}
use mathlib.Core.Path.{◌≡◌, refl, subst}
use mathlib.Core.Logic.{inl, inr}
use mathlib.Core.Option.{Option, none, some}
use mathlib.Core.List.{List, [], ◌∷◌}
use native.Mathlib.Omega.{arith}
use lucius_engineering.Prelude.Lists.{All}
use lucius_engineering.Prelude.Tests.{if◌then◌else◌, ◌==◌, eq_iff, eq_refl, Bool-cases}

abbrev pub Table {ℓ} : Type ℓ → Type ℓ
Table R = List (String × R)

module _ {ℓ} {R : Type ℓ} where
  -- `session.get(R, key)`
  unfoldable pub lookup : String → Table R → Option R
  lookup k [] = none
  lookup k ((j, r) ∷ t) = if j == k then some r else lookup k t

  -- The row `r` under `k`, changed where it stands or added at the end.
  unfoldable pub insert : String → R → Table R → Table R
  insert k r [] = (k, r) ∷ []
  insert k r ((j, q) ∷ t) = if j == k then (k, r) ∷ t else (j, q) ∷ insert k r t

  pub lookup-insert :
      (k j : String) (r : R) (t : Table R)
      → lookup j (insert k r t) ≡ (if k == j then some r else lookup j t)
  unfolding lookup insert
  lookup-insert k j r [] = refl
  lookup-insert k j r ((i, q) ∷ t) =
      ground (arith, eq_iff k j, eq_iff i k, eq_iff i j, lookup-insert k j r t)

  pub lookup-insert_self : (k : String) (r : R) (t : Table R) → lookup k (insert k r t) ≡ some r
  lookup-insert_self k r t = simp (lookup-insert, eq_refl)

-- what holds of every row
module _ {ℓ κ} {R : Type ℓ} (P : R → Type κ) where
  abbrev pub EveryRow : Table R → Type κ
  EveryRow = All (λ (row : String × R). P row.1)

  pub EveryRow_at : (k : String) (t : Table R) {r : R} → EveryRow t → lookup k t ≡ some r → P r
  unfolding lookup
  EveryRow_at k [] h e = absurd (ground arith)
  EveryRow_at k ((j, q) ∷ t) h e = elim (Bool-cases (j == k)) [
    | inl same ↦ let eq : q ≡ _ = ground (arith, same, e) in subst P eq h.0
    | inr other ↦ EveryRow_at k t h.1 (rw other at e)
  ]

  pub EveryRow-insert :
      (k : String) (r : R) (t : Table R) → P r → EveryRow t → EveryRow (insert k r t)
  unfolding insert
  EveryRow-insert k r [] p h = (p, tt)
  EveryRow-insert k r ((j, q) ∷ t) p h = elim (Bool-cases (j == k)) [
    | inl same ↦ rw same (p, h.1)
    | inr other ↦ rw other (h.0, EveryRow-insert k r t p h.1)
  ]
