-- ===== src/Models/Policies.antt =====
-- models/policies.py and models/capabilities.py: whether a profile may serve a request. Amounts of
-- money are exact numbers where the source computes with floats.
pub mod Exact
use lucius_engineering.Prelude.{
  ℕ, ◌+◌, ◌*◌, ◌/◌, max, String, Bool, true, false, ◌&&◌, ◌||◌, not, Option, none, some, List, [],
  ◌∷◌, ◌++◌, map, if◌then◌else◌, ◌==◌, ltb, leb, eqb, all, any, mem, length, codes,
}
use lucius_engineering.Models.Schemas.{
  ProviderStatus, ModelProfileStatus, ModelCapability, capability_value, PrivacyClass, CostClass,
  ModelErrorCode, ModelProvider, ModelProfile, ModelRequest, RoutingRejection, LatencyClass,
}

abbrev pub privacy_rank : PrivacyClass → ℕ
privacy_rank PrivacyClass.public = 0
privacy_rank PrivacyClass.internal = 1
privacy_rank PrivacyClass.confidential = 2
privacy_rank PrivacyClass.restricted = 3

abbrev pub cost_rank : CostClass → ℕ
cost_rank CostClass.free = 0
cost_rank CostClass.low = 1
cost_rank CostClass.medium = 2
cost_rank CostClass.high = 3
cost_rank CostClass.premium = 4

abbrev pub latency_rank : LatencyClass → ℕ
latency_rank LatencyClass.low = 0
latency_rank LatencyClass.medium = 1
latency_rank LatencyClass.high = 2

abbrev pub privacy_allows : PrivacyClass → PrivacyClass → Bool
privacy_allows model request = leb (privacy_rank request) (privacy_rank model)

abbrev pub cost_allows : CostClass → Option CostClass → Bool
cost_allows model none = true
cost_allows model (some most) = leb (cost_rank model) (cost_rank most)

abbrev pub has_capability : ModelCapability → List ModelCapability → Bool
has_capability c cs = mem (capability_value c) (map capability_value cs)

unfoldable pub capabilities_satisfied : List ModelCapability → List ModelCapability → Bool → Bool
capabilities_satisfied model required supports_local =
    all
      (λ c.
        (capability_value c == "PRIVATE_INFERENCE" && supports_local)
        || mem (capability_value c) (map capability_value model))
      required

-- `sum(len(message.content) for message in request.input_messages)`
unfoldable pub total_chars : List String → ℕ
total_chars [] = 0
total_chars (m ∷ ms) = length (codes m) + total_chars ms

abbrev estimate_from : Option ℕ → ℕ → ℕ
estimate_from (some tokens) chars = tokens
estimate_from none chars = if eqb chars 0 then 0 else max 1 (chars / 4)

unfoldable pub estimate_request_tokens : ModelRequest → ℕ
estimate_request_tokens request =
    estimate_from request.context_tokens (total_chars request.input_messages)

-- `value or 0`
abbrev or_zero : Option ℕ → ℕ
or_zero none = 0
or_zero (some n) = n

abbrev known_cost : Option ℕ → Option ℕ → ℕ → ℕ → Option ℕ
known_cost none none input output = none
known_cost i o input output = some (or_zero i * input + or_zero o * output)

-- a million times the estimated cost, which is unknown for a profile without costs
unfoldable pub estimate_profile_cost : ModelProfile → ℕ → Option ℕ → Option ℕ
estimate_profile_cost profile input_tokens output_tokens =
    known_cost profile.input_cost_per_million profile.output_cost_per_million input_tokens
      (or_zero output_tokens)

-- `a is not None and b is not None and a > b`
abbrev pub exceeds : Option ℕ → Option ℕ → Bool
exceeds (some a) (some b) = ltb b a
exceeds _ _ = false

abbrev pub is_active : ProviderStatus → Bool
is_active ProviderStatus.active = true
is_active _ = false

abbrev pub is_enabled : ModelProfileStatus → Bool
is_enabled ModelProfileStatus.active = true
is_enabled _ = false

abbrev pub million : Option ℕ → Option ℕ
million none = none
million (some n) = some (n * 1000000)

-- the capabilities of a request, with the one that a schema adds
abbrev pub required_of : ModelRequest → List ModelCapability
required_of request =
    if request.structured_output
    then ModelCapability.structured_output ∷ request.required_capabilities
    else request.required_capabilities

abbrev pub over_budget : ModelRequest → ModelProfile → Bool
over_budget request profile =
    exceeds
      (estimate_profile_cost profile (estimate_request_tokens request) request.max_output_tokens)
      (million request.max_estimated_cost)

-- The tests of `validate_profile_for_request` in their order: what a failing one is reported as.
unfoldable pub objections :
    ModelRequest → ModelProvider → ModelProfile → List (Bool × ModelErrorCode)
objections request provider profile =
    (not (is_active provider.status), ModelErrorCode.provider_unavailable)
    ∷ (not (is_enabled profile.status), ModelErrorCode.model_disabled)
    ∷ (
      not (
          capabilities_satisfied profile.capabilities (required_of request)
            provider.supports_local),
      ModelErrorCode.capability_unavailable,
    )
    ∷ (
      not (privacy_allows profile.privacy_class request.privacy_class),
      ModelErrorCode.privacy_policy_block,
    )
    ∷ (
      not (cost_allows profile.cost_class request.max_cost_class),
      ModelErrorCode.cost_policy_block,
    )
    ∷ (
      exceeds (some (estimate_request_tokens request)) profile.max_context_tokens,
      ModelErrorCode.context_limit_exceeded,
    )
    ∷ (
      exceeds request.max_output_tokens profile.max_output_tokens,
      ModelErrorCode.context_limit_exceeded,
    )
    ∷ (ltb profile.quality_score request.minimum_quality, ModelErrorCode.capability_unavailable)
    ∷ (over_budget request profile, ModelErrorCode.budget_exceeded)
    ∷ []

-- the rejections of the tests that fail
unfoldable pub rejections :
    Option String → Option String → List (Bool × ModelErrorCode) → List RoutingRejection
rejections provider profile [] = []
rejections provider profile ((failed, code) ∷ tests) =
    let rest = rejections provider profile tests in
    if failed
    then record { provider_id = provider; model_profile_id = profile; reason = code } ∷ rest
    else rest

unfoldable pub validate_profile_for_request :
    ModelRequest → ModelProvider → ModelProfile → List RoutingRejection
validate_profile_for_request request provider profile =
    rejections provider.id profile.id (objections request provider profile)
