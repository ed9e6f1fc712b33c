-- ===== src/Models/Router/Choice.antt =====
-- models/router.py: what a routing decision guarantees.
use lucius_engineering.Prelude.{
  ◌≡◌, ◌≢◌, ◌↔◌, ◌⊎◌, ◌∙◌, refl, sym, subst, ap, String, true, none, some, List, [], ◌∷◌, arith,
  inl, inr, In, here, there, In-cons, Option-cases,
}
use lucius_engineering.Models.Schemas.{ModelProvider, ModelProfile, ModelRequest, RoutingRejection}
use lucius_engineering.Models.Policies.{validate_profile_for_request}
use lucius_engineering.Models.Router.{
  Pair, provider_by_id, Routed, place_valid, route_profiles, selection_le, order_eligible,
  profile_ids, route,
}
use lucius_engineering.Models.Router.Order.{order_eligible-In, order_eligible-first}

-- The profile is registered and nothing speaks against it.
abbrev pub IsEligible : ModelRequest → List ModelProvider → List ModelProfile → Pair → Type 0
IsEligible request providers profiles pair =
    In pair.0 profiles
    × (provider_by_id providers pair.0.provider_id ≡ some pair.1)
    × (validate_profile_for_request request pair.1 pair.0 ≡ [])

place_valid-In :
    (p q : Pair) (blockers : List RoutingRejection) (routed : Routed)
    → In q (place_valid p blockers routed).eligible
    → ((blockers ≡ []) × (p ≡ q)) ⊎ In q routed.eligible
place_valid-In p q [] routed m = elim (In-cons m) [ inl e ↦ inl (refl, e) | inr n ↦ inr n ]
place_valid-In p q (b ∷ bs) routed m = inr m

In-place_valid :
    (p q : Pair) (blockers : List RoutingRejection) (routed : Routed)
    → In q routed.eligible
    → In q (place_valid p blockers routed).eligible
In-place_valid p q [] routed m = there m
In-place_valid p q (b ∷ bs) routed m = m

module _ (request : ModelRequest) (providers : List ModelProvider) where
  IsEligible-cons :
      (pair : Pair) (profile : ModelProfile) (profiles : List ModelProfile)
      → IsEligible request providers profiles pair
      → IsEligible request providers (profile ∷ profiles) pair
  IsEligible-cons pair profile profiles (i, p, v) = (there i, p, v)

  route_profiles-IsEligible :
      (profiles : List ModelProfile) (pair : Pair)
      → In pair (route_profiles request providers profiles).eligible
      → IsEligible request providers profiles pair
  unfolding route_profiles
  route_profiles-IsEligible [] pair m = elim m [ ]
  route_profiles-IsEligible (profile ∷ profiles) pair m =
      elim (Option-cases (provider_by_id providers profile.provider_id)) [
        | inl q ↦
            IsEligible-cons pair profile profiles
              (route_profiles-IsEligible profiles pair (rw q at m))
        | inr (provider, q) ↦
            let valid = validate_profile_for_request request provider profile in
            elim (place_valid-In (profile, provider) pair valid
              (route_profiles request providers profiles) (rw q at m)) [
                | inl (v, e) ↦
                    subst (IsEligible request providers (profile ∷ profiles)) e (here, q, v)
                | inr n ↦
                    IsEligible-cons pair profile profiles
                      (route_profiles-IsEligible profiles pair n)
              ]
      ]

  In-route_profiles :
      (profiles : List ModelProfile) (profile : ModelProfile) (provider : ModelProvider)
      → IsEligible request providers profiles (profile, provider)
      → In (profile, provider) (route_profiles request providers profiles).eligible
  unfolding route_profiles
  In-route_profiles [] profile provider (m, p, v) = elim m [ ]
  In-route_profiles (first ∷ profiles) profile provider (here, p, v) = rw p (rw v here)
  In-route_profiles (first ∷ profiles) profile provider (there n, p, v) =
      elim (Option-cases (provider_by_id providers first.provider_id)) [
        | inl q ↦ rw q (In-route_profiles profiles profile provider (n, p, v))
        | inr (other, q) ↦ rw q (
            In-place_valid (first, other) (profile, provider)
              (validate_profile_for_request request other first) _
              (In-route_profiles profiles profile provider (n, p, v)))
      ]

List-cases : {A : Type 0} (xs : List A) → (xs ≡ []) ⊎ ((x : A) × (ys : List A) × (xs ≡ x ∷ ys))
List-cases [] = inl refl
List-cases (x ∷ xs) = inr (x, xs, refl)

profile_ids-In :
    (id : String) (ps : List Pair)
    → In id (profile_ids ps)
    → (p : Pair) × In p ps × (p.0.id ≡ some id)
unfolding profile_ids
profile_ids-In id [] m = elim m [ ]
profile_ids-In id ((profile, provider) ∷ ps) m = elim (Option-cases profile.id) [
  | inl q ↦ let (p, i, e) = profile_ids-In id ps (rw q at m) in (p, there i, e)
  | inr (id', q) ↦ elim (In-cons (rw q at m)) [
    | inl same ↦ ((profile, provider), here, q ∙ ap some same)
    | inr n ↦ let (p, i, e) = profile_ids-In id ps n in (p, there i, e)
  ]
]

module _ (request : ModelRequest) (providers : List ModelProvider)
    (profiles : List ModelProfile) where
  eligible_pairs : List Pair
  eligible_pairs = (route_profiles request providers profiles).eligible

  ordered_pairs : List Pair
  unfolding eligible_pairs
  ordered_pairs = order_eligible request eligible_pairs

  ordered-IsEligible : (p : Pair) → In p ordered_pairs → IsEligible request providers profiles p
  unfolding ordered_pairs eligible_pairs
  ordered-IsEligible p m =
      route_profiles-IsEligible request providers profiles p
        ((order_eligible-In request p eligible_pairs).1 m)

  In-ordered : (p : Pair) → IsEligible request providers profiles p → In p ordered_pairs
  unfolding ordered_pairs eligible_pairs
  In-ordered p h =
      (order_eligible-In request p eligible_pairs).0
        (In-route_profiles request providers profiles p.0 p.1 h)

-- what the names of a decision stand for
route-fallback :
    (request : ModelRequest) (providers : List ModelProvider) (profiles : List ModelProfile)
    (id : String)
    → In id (route request providers profiles).fallback_profile_ids
    → (pair : Pair) × IsEligible request providers profiles pair × (pair.0.id ≡ some id)
unfolding route ordered_pairs eligible_pairs
route-fallback request providers profiles id m =
    elim (List-cases (ordered_pairs request providers profiles)) [
      | inl q ↦ elim (rw q at m) [ ]
      | inr (p, rest, q) ↦
          let (other, i, e) = profile_ids-In id rest (rw q at m) in
          (
            other,
            ordered-IsEligible request providers profiles other
                (subst (In other) (sym q) (there i)),
            e,
          )
    ]

-- A routing without an error selects a registered profile to which nothing objects; where the request
-- names no profiles to fall back on, its key is least among those of all such profiles. So are all
-- profiles that it names to fall back on registered and free of objections.
pub route-IsEligible :
    (request : ModelRequest) (providers : List ModelProvider) (profiles : List ModelProfile)
    → (route request providers profiles).error_code ≡ none
    → (pair : Pair) × IsEligible request providers profiles pair
      × ((route request providers profiles).selected_profile_id ≡ pair.0.id)
      × (request.fallback_model_ids ≡ []
          → (profile : ModelProfile) (provider : ModelProvider)
          → IsEligible request providers profiles (profile, provider)
          → selection_le request pair (profile, provider) ≡ true)
      × ((id : String)
          → In id (route request providers profiles).fallback_profile_ids
          → (other : Pair) × IsEligible request providers profiles other × (other.0.id ≡ some id))
unfolding route ordered_pairs eligible_pairs
route-IsEligible request providers profiles e =
    elim (List-cases (ordered_pairs request providers profiles)) [
      | inl q ↦ absurd (ground (arith, rw q at e))
      | inr (p, rest, q) ↦ (
        p,
        ordered-IsEligible request providers profiles p (subst (In p) (sym q) here),
        rw q refl,
        λ none' profile provider h.
            order_eligible-first request p (eligible_pairs request providers profiles) rest none' q
              (profile, provider) (In-route_profiles request providers profiles profile provider h),
        route-fallback request providers profiles,
      )
    ]

-- A routing has an error exactly when no registered profile is free of objections.
pub route-refuses :
    (request : ModelRequest) (providers : List ModelProvider) (profiles : List ModelProfile)
    → ((route request providers profiles).error_code ≢ none)
      ↔ ((pair : Pair) → ¬ IsEligible request providers profiles pair)
unfolding route ordered_pairs eligible_pairs
route-refuses request providers profiles =
    elim (List-cases (ordered_pairs request providers profiles)) [
      | inl q ↦ (
        (λ _ pair h. elim (subst (In pair) q (In-ordered request providers profiles pair h)) [ ]),
        (λ _ e. ground (arith, rw q at e)),
      )
      | inr (p, rest, q) ↦ (
        (λ refused. absurd (refused (rw q refl))),
        (λ nothing _.
            nothing p
              (ordered-IsEligible request providers profiles p (subst (In p) (sym q) here))),
      )
    ]
