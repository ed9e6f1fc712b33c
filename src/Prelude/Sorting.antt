-- ===== src/Prelude/Sorting.antt =====
-- Python's stable `sorted(xs, key=k)`, where `le a b` says that the key of `a` is at most that of `b`.
use mathlib.Core.Path.{◌≡◌, subst}
use mathlib.Core.Bool.{Bool, true, false}
use mathlib.Core.Logic.{◌⊎◌, inl, inr}
use mathlib.Core.List.{List, [], ◌∷◌, Perm}
use mathlib.Core.List.Perm
use lucius_engineering.Prelude.Tests.{if◌then◌else◌, Bool-cases}
use lucius_engineering.Prelude.Lists.{All, All-map, In, here, there, In-cons, All_at}

module _ {ℓ} {A : Type ℓ} (le : A → A → Bool) where
  pub insert_by : A → List A → List A
  insert_by x [] = x ∷ []
  insert_by x (y ∷ ys) = let rest = insert_by x ys in if le x y then x ∷ y ∷ ys else y ∷ rest

  unfoldable pub sorted : List A → List A
  unfolding insert_by
  sorted [] = []
  sorted (x ∷ xs) = insert_by x (sorted xs)

  -- the key of `x` is at most that of each element of the list
  abbrev pub IsLeast : A → List A → Type 0
  IsLeast x = All (λ y. le x y ≡ true)

  abbrev pub IsSorted : List A → Type 0
  IsSorted [] = Unit
  IsSorted (x ∷ xs) = IsLeast x xs × IsSorted xs

  insert_by-perm : (x : A) (xs : List A) → Perm (insert_by x xs) (x ∷ xs)
  unfolding insert_by
  insert_by-perm x [] = Perm.refl (x ∷ [])
  insert_by-perm x (y ∷ ys) = elim (Bool-cases (le x y)) [
    | inl e ↦ rw e (Perm.refl (x ∷ y ∷ ys))
    | inr e ↦ rw e (Perm.trans (Perm.cons y (insert_by-perm x ys)) (Perm.swap x y ys))
  ]

  pub sorted-perm : (xs : List A) → Perm (sorted xs) xs
  unfolding sorted
  sorted-perm [] = Perm.refl []
  sorted-perm (x ∷ xs) = Perm.trans (insert_by-perm x (sorted xs)) (Perm.cons x (sorted-perm xs))

  insert_by-All : (P : A → Type 0) (x : A) (xs : List A) → P x → All P xs → All P (insert_by x xs)
  unfolding insert_by
  insert_by-All P x [] p h = (p, tt)
  insert_by-All P x (y ∷ ys) p h = elim (Bool-cases (le x y)) [
    | inl e ↦ rw e (p, h)
    | inr e ↦ rw e (h.0, insert_by-All P x ys p h.1)
  ]

  -- The sorted list keeps what holds of all elements.
  pub sorted-All : (P : A → Type 0) (xs : List A) → All P xs → All P (sorted xs)
  unfolding sorted
  sorted-All P [] h = tt
  sorted-All P (x ∷ xs) h = insert_by-All P x (sorted xs) h.0 (sorted-All P xs h.1)

module _ {ℓ} {A : Type ℓ} (le : A → A → Bool) where
  insert_by-In_head : (x : A) (xs : List A) → In x (insert_by le x xs)
  unfolding insert_by
  insert_by-In_head x [] = here
  insert_by-In_head x (y ∷ ys) = elim (Bool-cases (le x y)) [
    | inl e ↦ rw e here
    | inr e ↦ rw e (there (insert_by-In_head x ys))
  ]

  insert_by-In_tail : {a : A} (x : A) (xs : List A) → In a xs → In a (insert_by le x xs)
  unfolding insert_by
  insert_by-In_tail x [] m = elim m [ ]
  insert_by-In_tail x (y ∷ ys) here = elim (Bool-cases (le x y)) [
    | inl e ↦ rw e (there here)
    | inr e ↦ rw e here
  ]
  insert_by-In_tail x (y ∷ ys) (there m) = elim (Bool-cases (le x y)) [
    | inl e ↦ rw e (there (there m))
    | inr e ↦ rw e (there (insert_by-In_tail x ys m))
  ]

  -- sorting loses nothing
  pub sorted-In : {a : A} (xs : List A) → In a xs → In a (sorted le xs)
  unfolding sorted
  sorted-In [] m = elim m [ ]
  sorted-In (x ∷ xs) here = insert_by-In_head x (sorted le xs)
  sorted-In (x ∷ xs) (there m) = insert_by-In_tail x (sorted le xs) (sorted-In xs m)

  In-insert_by : {a : A} (x : A) (xs : List A) → In a (insert_by le x xs) → (x ≡ a) ⊎ In a xs
  unfolding insert_by
  In-insert_by x [] m = In-cons m
  In-insert_by x (y ∷ ys) m = elim (Bool-cases (le x y)) [
    | inl e ↦ In-cons (rw e at m)
    | inr e ↦ elim (In-cons (rw e at m)) [
      | inl q ↦ inr (subst (λ b. In b (y ∷ ys)) q here)
      | inr n ↦ elim (In-insert_by x ys n) [ inl q ↦ inl q | inr k ↦ inr (there k) ]
    ]
  ]

  -- sorting adds nothing
  pub In-of_sorted : {a : A} (xs : List A) → In a (sorted le xs) → In a xs
  unfolding sorted
  In-of_sorted [] m = m
  In-of_sorted (x ∷ xs) m = elim (In-insert_by x (sorted le xs) m) [
    | inl q ↦ subst (λ b. In b (x ∷ xs)) q here
    | inr k ↦ there (In-of_sorted xs k)
  ]

-- The orders that keys induce: total and transitive.
pub record IsKeyOrder {ℓ} {A : Type ℓ} (le : A → A → Bool) : Type ℓ where
  pub total : (a b : A) → (le a b ≡ true) ⊎ (le b a ≡ true)
  pub trans : (a b c : A) → le a b ≡ true → le b c ≡ true → le a c ≡ true

module _ {ℓ} {A : Type ℓ} (le : A → A → Bool) (o : IsKeyOrder le) where
  IsLeast-trans : (x y : A) (xs : List A) → le x y ≡ true → IsLeast le y xs → IsLeast le x xs
  IsLeast-trans x y xs h = All-map _ _ xs (λ z k. o.trans x y z h k)

  other_way : (x y : A) → le x y ≡ false → le y x ≡ true
  other_way x y e = elim (o.total x y) [ inl h ↦ cc | inr h ↦ h ]

  insert_by-IsSorted : (x : A) (xs : List A) → IsSorted le xs → IsSorted le (insert_by le x xs)
  unfolding insert_by
  insert_by-IsSorted x [] h = (tt, tt)
  insert_by-IsSorted x (y ∷ ys) h = elim (Bool-cases (le x y)) [
    | inl e ↦ rw e ((e, IsLeast-trans x y ys e h.0), h)
    | inr e ↦ rw e (
      insert_by-All le (λ z. le y z ≡ true) x ys (other_way x y e) h.0,
      insert_by-IsSorted x ys h.1,
    )
  ]

  pub sorted-IsSorted : (xs : List A) → IsSorted le (sorted le xs)
  unfolding sorted
  sorted-IsSorted [] = tt
  sorted-IsSorted (x ∷ xs) = insert_by-IsSorted x (sorted le xs) (sorted-IsSorted xs)

  le_refl : (x : A) → le x x ≡ true
  le_refl x = elim (o.total x x) [ inl h ↦ h | inr h ↦ h ]

  -- The head of a sorted list is least in the list that was sorted.
  pub sorted_head :
      (x : A) (xs ys : List A) → sorted le xs ≡ x ∷ ys → (y : A) → In y xs → le x y ≡ true
  sorted_head x xs ys e y m =
      All_at (λ z. le x z ≡ true) (x ∷ ys)
        (le_refl x, (subst (IsSorted le) e (sorted-IsSorted xs)).0)
        (subst (In y) e (sorted-In le xs m))
