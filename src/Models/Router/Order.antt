-- ===== src/Models/Router/Order.antt =====
-- models/router.py: the order of the eligible profiles.
use lucius_engineering.Prelude.{
  ◌≡◌, ◌↔◌, ◌⊎◌, subst, String, true, List, [], ◌∷◌, inl, inr, In, here, there, In-cons, In-append,
  In-of_left, In-of_right, Bool-cases, str_leb_total, str_leb_trans, then_by_total, then_by_trans,
  then_by_trans_down,
}
use lucius_engineering.Prelude.Sorting.{sorted, IsKeyOrder, sorted-In, In-of_sorted, sorted_head}
use lucius_engineering.Models.Schemas.{ModelRequest}
use lucius_engineering.Models.Policies.{cost_rank, latency_rank}
use lucius_engineering.Models.Router.{
  Pair, model_key, provider_key, quality_key, name_key, selection_le, is_requested, take_requested,
  take_explicit, order_eligible,
}

In-head : {A : Type 0} {a x : A} {xs : List A} → x ≡ a → In a (x ∷ xs)
In-head {a} {x} {xs} e = subst (λ b. In b (x ∷ xs)) e here

In-take_requested :
    (name : String) (p : Pair) (ps : List Pair)
    → In p ps ↔ (In p (take_requested name ps).0 ⊎ In p (take_requested name ps).1)
unfolding take_requested
In-take_requested name p [] = ((λ m. inl m), (λ m. elim m [ inl l ↦ l | inr r ↦ r ]))
In-take_requested name p (q ∷ ps) = elim (Bool-cases (is_requested name q)) [
  | inl e ↦ rw e (
    (λ m. elim (In-cons m) [ inl h ↦ inl (In-head h) | inr n ↦ inr n ]),
    (λ m. elim m [
      | inl l ↦ elim (In-cons l) [ inl h ↦ In-head h | inr n ↦ elim n [ ] ]
      | inr r ↦ there r
    ]),
  )
  | inr e ↦
      let (to, back) = In-take_requested name p ps in
      rw e (
        (λ m. elim (In-cons m) [
          | inl h ↦ inr (In-head h)
          | inr n ↦ elim (to n) [ inl l ↦ inl l | inr r ↦ inr (there r) ]
        ]),
        (λ m. elim m [
          | inl l ↦ there (back (inl l))
          | inr r ↦ elim (In-cons r) [ inl h ↦ In-head h | inr n ↦ there (back (inr n)) ]
        ]),
      )
]

-- The order keeps the pairs.
In-take_explicit :
    (names : List String) (p : Pair) (ps : List Pair) → In p ps ↔ In p (take_explicit names ps)
unfolding take_explicit
In-take_explicit [] p ps = ((λ m. m), (λ m. m))
In-take_explicit (name ∷ names) p ps =
    let (split, join) = In-take_requested name p ps in
    let (found', others) = take_requested name ps in
    let (to, back) = In-take_explicit names p others in
    (
      (λ m. elim (split m) [ inl l ↦ In-of_left found' _ l | inr r ↦ In-of_right found' _ (to r) ]),
      (λ m. elim (In-append found' _ m) [ inl l ↦ join (inl l) | inr r ↦ join (inr (back r)) ]),
    )

pub order_eligible-In :
    (request : ModelRequest) (p : Pair) (ps : List Pair)
    → In p ps ↔ In p (order_eligible request ps)
unfolding order_eligible
order_eligible-In request p ps =
    let (to, back) =
      In-take_explicit request.fallback_model_ids p (sorted (selection_le request) ps) in
    (
      (λ m. to (sorted-In (selection_le request) ps m)),
      (λ m. In-of_sorted (selection_le request) ps (back m)),
    )

module _ (request : ModelRequest) where
  selection_total :
      (a b : Pair) → (selection_le request a b ≡ true) ⊎ (selection_le request b a ≡ true)
  unfolding selection_le
  selection_total a b = then_by_total (model_key request a) (model_key request b) _ _ (
      then_by_total (provider_key request a) (provider_key request b) _ _ (
        then_by_total (quality_key request b) (quality_key request a) _ _ (
          then_by_total (cost_rank a.0.cost_class) (cost_rank b.0.cost_class) _ _ (
            then_by_total (latency_rank a.0.latency_class) (latency_rank b.0.latency_class) _ _
              (str_leb_total (name_key a) (name_key b))))))

  selection_trans :
      (a b c : Pair)
      → selection_le request a b ≡ true
      → selection_le request b c ≡ true
      → selection_le request a c ≡ true
  unfolding selection_le
  selection_trans a b c =
      then_by_trans (model_key request a) (model_key request b) (model_key request c) _ _ _ (
        then_by_trans (provider_key request a) (provider_key request b) (provider_key request c) _ _
          _
          (then_by_trans_down (quality_key request a) (quality_key request b)
            (quality_key request c) _ _ _
            (then_by_trans (cost_rank a.0.cost_class) (cost_rank b.0.cost_class)
              (cost_rank c.0.cost_class) _ _ _
              (then_by_trans (latency_rank a.0.latency_class) (latency_rank b.0.latency_class)
                (latency_rank c.0.latency_class) _ _ _
                (str_leb_trans (name_key a) (name_key b) (name_key c))))))

  selection-IsKeyOrder : IsKeyOrder (selection_le request)
  selection-IsKeyOrder = record { total = selection_total; trans = selection_trans }

  -- without names to fall back on, the first pair comes first among all
  pub order_eligible-first :
      (p : Pair) (ps rest : List Pair)
      → request.fallback_model_ids ≡ []
      → order_eligible request ps ≡ p ∷ rest
      → (q : Pair) → In q ps
      → selection_le request p q ≡ true
  unfolding order_eligible take_explicit
  order_eligible-first p ps rest none' e =
      sorted_head (selection_le request) selection-IsKeyOrder p ps rest (simp none' at e)
