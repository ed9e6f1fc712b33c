-- ===== src/Models/Policies/Exact.antt =====
-- models/policies.py: what it means that nothing objects to a profile.
use lucius_engineering.Prelude.{
  ℕ, ◌*◌, ◌≤◌, ◌≡◌, ◌⊎◌, ◌↔◌, refl, String, Bool, true, false, not, Option, none, some, List, [],
  ◌∷◌, arith, inl, inr, map, ◌==◌, all, all-In, mem, mem_iff, All, In, here, there, Bool-cases,
  Option-cases,
}
use lucius_engineering.Models.Schemas.{
  ProviderStatus, ModelProfileStatus, ModelCapability, capability_value, ModelErrorCode,
  ModelProvider, ModelProfile, ModelRequest, CostClass,
}
use lucius_engineering.Models.Policies.{
  privacy_rank, cost_rank, capabilities_satisfied, estimate_request_tokens, estimate_profile_cost,
  required_of, exceeds, is_active, is_enabled, cost_allows, million, objections, rejections,
  validate_profile_for_request,
}

-- The profile has a capability, or its provider's locality stands for it.
abbrev pub Has : ModelProvider → ModelProfile → ModelCapability → Type 0
Has provider profile c =
    (((capability_value c == "PRIVATE_INFERENCE") ≡ true) × (provider.supports_local ≡ true))
    ⊎ In (capability_value c) (map capability_value profile.capabilities)

-- A profile that may serve a request, condition by condition.
pub record IsSuitable (request : ModelRequest) (provider : ModelProvider) (profile : ModelProfile)
    : Type 0 where
  pub active : provider.status ≡ ProviderStatus.active
  pub enabled : profile.status ≡ ModelProfileStatus.active
  pub capable : (c : ModelCapability) → In c (required_of request) → Has provider profile c
  pub private : privacy_rank request.privacy_class ≤ privacy_rank profile.privacy_class
  pub cheap :
      (most : CostClass)
      → request.max_cost_class ≡ some most
      → cost_rank profile.cost_class ≤ cost_rank most
  pub context :
      (most : ℕ) → profile.max_context_tokens ≡ some most → estimate_request_tokens request ≤ most
  pub output :
      (asked most : ℕ)
      → request.max_output_tokens ≡ some asked
      → profile.max_output_tokens ≡ some most
      → asked ≤ most
  pub good : request.minimum_quality ≤ profile.quality_score
  pub affordable :
      (cost most : ℕ)
      → estimate_profile_cost profile (estimate_request_tokens request) request.max_output_tokens
        ≡ some cost
      → request.max_estimated_cost ≡ some most
      → cost ≤ most * 1000000

no_rejections :
    (p q : Option String) (tests : List (Bool × ModelErrorCode))
    → (rejections p q tests ≡ []) ↔ All (λ (t : Bool × ModelErrorCode). t.0 ≡ false) tests
unfolding rejections
no_rejections p q [] = ((λ _. tt), (λ _. refl))
no_rejections p q ((true, code) ∷ tests) =
    ((λ e. absurd (ground arith)), (λ h. absurd (ground arith)))
no_rejections p q ((false, code) ∷ tests) =
    let (to, back) = no_rejections p q tests in ((λ e. (refl, to e)), (λ h. back h.1))

module _ (provider : ModelProvider) (profile : ModelProfile) where
  all-Has :
      (cs : List ModelCapability)
      → capabilities_satisfied profile.capabilities cs provider.supports_local ≡ true
      → (c : ModelCapability) → In c cs
      → Has provider profile c
  unfolding capabilities_satisfied
  all-Has cs h c m =
      elim (Bool-cases (mem (capability_value c) (map capability_value profile.capabilities))) [
        | inl e ↦ inr ((mem_iff _ _).0 e)
        | inr e ↦ let one = all-In _ c cs h m in inl (ground (arith, e, one))
      ]

  Has-all :
      (cs : List ModelCapability)
      → ((c : ModelCapability) → In c cs → Has provider profile c)
      → capabilities_satisfied profile.capabilities cs provider.supports_local ≡ true
  unfolding capabilities_satisfied all
  Has-all [] h = refl
  Has-all (c ∷ cs) h =
      let rest = Has-all cs (λ d m. h d (there m)) in
      elim (h c here) [
        | inl (named, near) ↦ ground (arith, named, near, rest)
        | inr m ↦ let has = (mem_iff _ _).1 m in ground (arith, has, rest)
      ]

exceeds_iff :
    (a b : Option ℕ) → (exceeds a b ≡ false) ↔ ((x y : ℕ) → a ≡ some x → b ≡ some y → x ≤ y)
exceeds_iff none b = ((λ _ x y e. absurd (ground arith)), (λ _. refl))
exceeds_iff (some a) none = ((λ _ x y e f. absurd (ground arith)), (λ _. refl))
exceeds_iff (some a) (some b) =
    ((λ h x y e f. ground arith), (λ h. let k = h a b refl refl in ground arith))

active_iff : (s : ProviderStatus) → (not (is_active s) ≡ false) ↔ (s ≡ ProviderStatus.active)
active_iff ProviderStatus.active = ((λ _. refl), (λ _. refl))
active_iff ProviderStatus.paused = ((λ e. cc), (λ e. cc))
active_iff ProviderStatus.disabled = ((λ e. cc), (λ e. cc))

enabled_iff :
    (s : ModelProfileStatus) → (not (is_enabled s) ≡ false) ↔ (s ≡ ModelProfileStatus.active)
enabled_iff ModelProfileStatus.active = ((λ _. refl), (λ _. refl))
enabled_iff ModelProfileStatus.paused = ((λ e. cc), (λ e. cc))
enabled_iff ModelProfileStatus.disabled = ((λ e. cc), (λ e. cc))

-- No test fails.
abbrev Passes : ModelRequest → ModelProvider → ModelProfile → Type 0
Passes request provider profile =
    All (λ (t : Bool × ModelErrorCode). t.0 ≡ false) (objections request provider profile)

IsSuitable-of :
    (request : ModelRequest) (provider : ModelProvider) (profile : ModelProfile)
    → Passes request provider profile
    → IsSuitable request provider profile
unfolding objections
IsSuitable-of request provider profile (p, (s, (c, (v, (k, (t, (o, (q, (b, _))))))))) = record {
  active = (active_iff _).0 p;
  enabled = (enabled_iff _).0 s;
  capable = all-Has provider profile (required_of request) (ground (arith, c));
  private = ground (arith, v);
  cheap = λ most e. ground (arith, k, e);
  context = λ most. (exceeds_iff _ _).0 t (estimate_request_tokens request) most refl;
  output = (exceeds_iff _ _).0 o;
  good = ground (arith, q);
  affordable = λ cost most e f. (exceeds_iff _ _).0 b cost (most * 1000000) e (rw f refl);
}

cost_of :
    (request : ModelRequest) (profile : ModelProfile)
    → ((most : CostClass)
        → request.max_cost_class ≡ some most
        → cost_rank profile.cost_class ≤ cost_rank most)
    → not (cost_allows profile.cost_class request.max_cost_class) ≡ false
cost_of request profile h = elim (Option-cases request.max_cost_class) [
  | inl e ↦ rw e refl
  | inr (most, e) ↦ let one = h most e in rw e (ground (arith, one))
]

budget_of :
    (cost budget : Option ℕ)
    → ((c most : ℕ) → cost ≡ some c → budget ≡ some most → c ≤ most * 1000000)
    → exceeds cost (million budget) ≡ false
budget_of none budget h = refl
budget_of (some c) none h = refl
budget_of (some c) (some most) h = let one = h c most refl refl in ground (arith, one)

Passes-of :
    (request : ModelRequest) (provider : ModelProvider) (profile : ModelProfile)
    → IsSuitable request provider profile
    → Passes request provider profile
unfolding objections
Passes-of request provider profile h =
    let has = Has-all provider profile (required_of request) h.capable in
    let kept = h.private in
    let enough = h.good in
    let tokens : exceeds (some (estimate_request_tokens request)) profile.max_context_tokens
        ≡ false =
      (exceeds_iff (some (estimate_request_tokens request)) profile.max_context_tokens).1
        (λ x most e f. let one = h.context most f in ground (arith, one, e)) in
    (
      (active_iff _).1 h.active,
      (
        (enabled_iff _).1 h.enabled,
        (
          ground (arith, has),
          (
            ground (arith, kept),
            (
              cost_of request profile h.cheap,
              (
                tokens,
                (
                  (exceeds_iff _ _).1 h.output,
                  (
                    ground (arith, enough),
                    (budget_of _ request.max_estimated_cost h.affordable, tt),
                  ),
                ),
              ),
            ),
          ),
        ),
      ),
    )

-- Nothing objects to a profile exactly when it may serve the request.
pub validate-IsSuitable :
    (request : ModelRequest) (provider : ModelProvider) (profile : ModelProfile)
    → (validate_profile_for_request request provider profile ≡ [])
      ↔ IsSuitable request provider profile
unfolding validate_profile_for_request
validate-IsSuitable request provider profile = (
  (λ e.
      IsSuitable-of request provider profile
        ((no_rejections provider.id profile.id (objections request provider profile)).0 e)),
  (λ h.
      (no_rejections provider.id profile.id (objections request provider profile)).1
        (Passes-of request provider profile h)),
)
