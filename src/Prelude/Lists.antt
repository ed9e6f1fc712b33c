-- ===== src/Prelude/Lists.antt =====
-- Lists with Boolean predicates: Python's `any`, `all`, `in`, comprehensions, and membership.
use Prim.Native.Nat.{ℕ, suc}
use Prim.Native.String.{String}
use mathlib.Core.Path.{◌≡◌, refl, subst}
use mathlib.Core.Logic.{◌⊎◌, ◌↔◌, inl, inr}
use mathlib.Core.Bool.{Bool, true, false, ◌&&◌, ◌||◌}
use mathlib.Core.List.{List, [], ◌∷◌, ◌++◌, map}
use mathlib.Core.Option.{Option, none, some}
use native.Mathlib.Omega.{arith}
use lucius_engineering.Prelude.Tests.{if◌then◌else◌, Bool-cases, ◌==◌, eq_iff}

module _ {ℓ} {A : Type ℓ} where
  abbrev pub length : List A → ℕ
  length [] = 0
  length (x ∷ xs) = suc (length xs)

  -- `[x for x in xs if p(x)]`
  unfoldable pub keep : (A → Bool) → List A → List A
  keep p [] = []
  keep p (x ∷ xs) = let rest = keep p xs in if p x then x ∷ rest else rest

  -- `all(p(x) for x in xs)`
  unfoldable pub all : (A → Bool) → List A → Bool
  all p [] = true
  all p (x ∷ xs) = p x && all p xs

  -- `any(p(x) for x in xs)`
  unfoldable pub any : (A → Bool) → List A → Bool
  any p [] = false
  any p (x ∷ xs) = p x || any p xs

  -- `not xs`
  abbrev pub is_empty : List A → Bool
  is_empty [] = true
  is_empty (x ∷ xs) = false

  -- `next((x for x in xs if p(x)), None)`
  unfoldable pub find_first : (A → Bool) → List A → Option A
  find_first p [] = none
  find_first p (x ∷ xs) = let rest = find_first p xs in if p x then some x else rest

-- `k in xs` of a list of texts
unfoldable pub mem : String → List String → Bool
mem k [] = false
mem k (x ∷ xs) = x == k || mem k xs

-- `set(xs)`: each text once
unfoldable pub distinct : List String → List String
distinct [] = []
distinct (x ∷ xs) = let rest = distinct xs in if mem x rest then rest else x ∷ rest

-- Every element satisfies `P`; there is an element that satisfies `P`.
module _ {ℓ κ} {A : Type ℓ} where
  abbrev pub All : (A → Type κ) → List A → Type κ
  All P [] = Unit
  All P (x ∷ xs) = P x × All P xs

  pub All-map : (P Q : A → Type κ) (xs : List A) → ((x : A) → P x → Q x) → All P xs → All Q xs
  All-map P Q [] f h = tt
  All-map P Q (x ∷ xs) f h = (f x h.0, All-map P Q xs f h.1)

pub data In {ℓ} {A : Type ℓ} (a : A) : List A → Type ℓ where
  here : {xs : List A} → In a (a ∷ xs)
  there : {x : A} {xs : List A} → In a xs → In a (x ∷ xs)

pub In-cons {ℓ} : {A : Type ℓ} {a x : A} {xs : List A} → In a (x ∷ xs) → (x ≡ a) ⊎ In a xs
In-cons here = inl refl
In-cons (there m) = inr m

module _ {ℓ} {A : Type ℓ} {a : A} where
  pub In-append : (xs ys : List A) → In a (xs ++ ys) → In a xs ⊎ In a ys
  In-append [] ys m = inr m
  In-append (x ∷ xs) ys m = elim (In-cons m) [
    | inl e ↦ inl (subst (λ b. In b (x ∷ xs)) e here)
    | inr n ↦ elim (In-append xs ys n) [ inl l ↦ inl (there l) | inr r ↦ inr r ]
  ]

  pub In-of_left : (xs ys : List A) → In a xs → In a (xs ++ ys)
  In-of_left [] ys m = elim m [ ]
  In-of_left (x ∷ xs) ys here = here
  In-of_left (x ∷ xs) ys (there m) = there (In-of_left xs ys m)

  pub In-of_right : (xs ys : List A) → In a ys → In a (xs ++ ys)
  In-of_right [] ys m = m
  In-of_right (x ∷ xs) ys m = there (In-of_right xs ys m)

module _ {ℓ κ} {A : Type ℓ} where
  pub All_at : {a : A} (P : A → Type κ) (xs : List A) → All P xs → In a xs → P a
  All_at P [] h m = elim m [ ]
  All_at P (x ∷ xs) h here = h.0
  All_at P (x ∷ xs) h (there m) = All_at P xs h.1 m

module _ {ℓ} {A : Type ℓ} (p : A → Bool) where
  pub In-keep : (a : A) (xs : List A) → In a xs → p a ≡ true → In a (keep p xs)
  unfolding keep
  In-keep a [] m e = elim m [ ]
  In-keep a (x ∷ xs) here e = rw e here
  In-keep a (x ∷ xs) (there m) e = elim (Bool-cases (p x)) [
    | inl q ↦ rw q (there (In-keep a xs m e))
    | inr q ↦ rw q (In-keep a xs m e)
  ]

  -- What the comprehension holds stands in the list and passes the test.
  pub In-of_keep : (a : A) (xs : List A) → In a (keep p xs) → In a xs × (p a ≡ true)
  unfolding keep
  In-of_keep a [] m = elim m [ ]
  In-of_keep a (x ∷ xs) m = elim (Bool-cases (p x)) [
    | inl q ↦ elim (In-cons (rw q at m)) [
      | inl e ↦ (subst (λ b. In b (x ∷ xs)) e here, subst (λ b. p b ≡ true) e q)
      | inr m' ↦ let (i, e) = In-of_keep a xs m' in (there i, e)
    ]
    | inr q ↦ let (i, e) = In-of_keep a xs (rw q at m) in (there i, e)
  ]

  pub find_first-In : (a : A) (xs : List A) → find_first p xs ≡ some a → In a xs × (p a ≡ true)
  unfolding find_first
  find_first-In a [] h = cc
  find_first-In a (x ∷ xs) h = elim (Bool-cases (p x)) [
    | inl q ↦
        let e : x ≡ a = cc (rw q at h) in
        (subst (λ b. In b (x ∷ xs)) e here, subst (λ b. p b ≡ true) e q)
    | inr q ↦ let (i, e) = find_first-In a xs (rw q at h) in (there i, e)
  ]

  pub all-In : (a : A) (xs : List A) → all p xs ≡ true → In a xs → p a ≡ true
  unfolding all
  all-In a [] h m = elim m [ ]
  all-In a (x ∷ xs) h here = ground arith
  all-In a (x ∷ xs) h (there m) = all-In a xs (ground arith) m

  pub any-In : (a : A) (xs : List A) → In a xs → p a ≡ true → any p xs ≡ true
  unfolding any
  any-In a [] m e = elim m [ ]
  any-In a (x ∷ xs) here e = ground (arith, e)
  any-In a (x ∷ xs) (there m) e = ground (arith, any-In a xs m e)

mem_to_In : (k : String) (xs : List String) → mem k xs ≡ true → In k xs
unfolding mem
mem_to_In k [] h = cc
mem_to_In k (x ∷ xs) h = elim (Bool-cases (x == k)) [
  | inl e ↦ subst (λ y. In y (x ∷ xs)) ((eq_iff x k).0 e) here
  | inr e ↦ there (mem_to_In k xs (rw e at h))
]

mem_of_In : (k : String) (xs : List String) → In k xs → mem k xs ≡ true
unfolding mem
mem_of_In k [] m = elim m [ ]
mem_of_In k (x ∷ xs) m = elim (In-cons m) [
  | inl e ↦ rw ((eq_iff x k).1 e)
  | inr m' ↦ ground (arith, mem_of_In k xs m')
]

-- `k in xs` is membership.
pub mem_iff : (k : String) (xs : List String) → (mem k xs ≡ true) ↔ In k xs
mem_iff k xs = (mem_to_In k xs, mem_of_In k xs)

module _ {ℓ κ} {A : Type ℓ} {B : Type κ} (f : A → B) where
  pub In-map : {a : A} (xs : List A) → In a xs → In (f a) (map f xs)
  In-map [] m = elim m [ ]
  In-map (x ∷ xs) here = here
  In-map (x ∷ xs) (there m) = there (In-map xs m)

  pub In-of_map : {b : B} (xs : List A) → In b (map f xs) → (a : A) × In a xs × (f a ≡ b)
  In-of_map [] m = elim m [ ]
  In-of_map (x ∷ xs) m = elim (In-cons m) [
    | inl e ↦ (x, here, e)
    | inr m' ↦ let (a, i, e) = In-of_map xs m' in (a, there i, e)
  ]

pub distinct-In : {k : String} (xs : List String) → In k xs → In k (distinct xs)
unfolding distinct
distinct-In [] m = m
distinct-In {k} (x ∷ xs) m = elim (Bool-cases (mem x (distinct xs))) [
  | inl e ↦ rw e (elim (In-cons m) [
    | inl q ↦ subst (λ y. In y (distinct xs)) q ((mem_iff x (distinct xs)).0 e)
    | inr m' ↦ distinct-In xs m'
  ])
  | inr e ↦ rw e (elim (In-cons m) [
    | inl q ↦ subst (λ y. In y (x ∷ distinct xs)) q here
    | inr m' ↦ there (distinct-In xs m')
  ])
]

pub In-of_distinct : {k : String} (xs : List String) → In k (distinct xs) → In k xs
unfolding distinct
In-of_distinct [] m = m
In-of_distinct {k} (x ∷ xs) m = elim (Bool-cases (mem x (distinct xs))) [
  | inl e ↦ there (In-of_distinct xs (rw e at m))
  | inr e ↦ elim (In-cons (rw e at m)) [
    | inl q ↦ subst (λ y. In y (x ∷ xs)) q here
    | inr m' ↦ there (In-of_distinct xs m')
  ]
]
