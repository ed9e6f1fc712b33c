-- ===== src/Models/Tests.antt =====
-- Concrete routings.
use lucius_engineering.Prelude.{
  ◌≡◌, ◌≢◌, ◌↔◌, refl, String, true, false, none, some, List, [], ◌∷◌, In, all, mem,
}
use lucius_engineering.Prelude.Sorting.{sorted}
use lucius_engineering.Models.Schemas.{
  ProviderType, ProviderStatus, ModelProfileStatus, ModelCapability, PrivacyClass, CostClass,
  LatencyClass, ModelProvider, ModelProfile, ModelRequest,
}
use lucius_engineering.Models.Policies.{
  validate_profile_for_request, objections, rejections, capabilities_satisfied,
  estimate_request_tokens, estimate_profile_cost, total_chars,
}
use lucius_engineering.Models.Policies.Exact.{IsSuitable, validate-IsSuitable}
use lucius_engineering.Models.Router.{
  Pair, route, route_profiles, provider_by_id, order_eligible, take_explicit, selection_le,
}
use lucius_engineering.Models.Router.Choice.{IsEligible, route-IsEligible, route-refuses}

abbrev provider : ModelProvider
provider = record {
  id = some "LPROV_000001";
  name = "local";
  provider_type = ProviderType.local;
  status = ProviderStatus.active;
  supports_local = true;
}

abbrev profile : String → CostClass → ModelProfile
profile id cost = record {
  id = some id;
  provider_id = "LPROV_000001";
  model_name = "coder";
  status = ModelProfileStatus.active;
  capabilities = ModelCapability.planning ∷ [];
  privacy_class = PrivacyClass.confidential;
  cost_class = cost;
  latency_class = LatencyClass.low;
  quality_score = 80;
  max_context_tokens = some 1000;
  max_output_tokens = none;
  input_cost_per_million = some 2;
  output_cost_per_million = none;
}

abbrev request : ModelRequest
request = record {
  request_id = "REQ-1";
  required_capabilities = ModelCapability.planning ∷ ModelCapability.private_inference ∷ [];
  privacy_class = PrivacyClass.internal;
  minimum_quality = 70;
  max_cost_class = some CostClass.medium;
  max_estimated_cost = some 1;
  preferred_provider = none;
  preferred_model = none;
  fallback_model_ids = [];
  input_messages = "Plan the parser" ∷ [];
  structured_output = false;
  max_output_tokens = some 100;
  context_tokens = none;
}

abbrev profiles : List ModelProfile
profiles =
    profile "M1" CostClass.medium ∷ profile "M2" CostClass.low ∷ profile "M3" CostClass.premium ∷ []

validate-IsSuitable_example :
    (validate_profile_for_request request provider (profile "M1" CostClass.medium) ≡ [])
    ↔ IsSuitable request provider (profile "M1" CostClass.medium)
validate-IsSuitable_example = validate-IsSuitable request provider (profile "M1" CostClass.medium)

routed : (route request (provider ∷ []) profiles).error_code ≡ none
unfolding route route_profiles order_eligible take_explicit sorted provider_by_id
    validate_profile_for_request rejections objections capabilities_satisfied all mem
    estimate_request_tokens total_chars estimate_profile_cost selection_le
routed = refl

cheaper_first : (route request (provider ∷ []) profiles).selected_profile_id ≡ some "M2"
unfolding route route_profiles order_eligible take_explicit sorted provider_by_id
    validate_profile_for_request rejections objections capabilities_satisfied all mem
    estimate_request_tokens total_chars estimate_profile_cost selection_le
cheaper_first = refl

route-IsEligible_example :
    (pair : Pair) × IsEligible request (provider ∷ []) profiles pair
    × ((route request (provider ∷ []) profiles).selected_profile_id ≡ pair.0.id)
    × (request.fallback_model_ids ≡ []
        → (other : ModelProfile) (by : ModelProvider)
        → IsEligible request (provider ∷ []) profiles (other, by)
        → selection_le request pair (other, by) ≡ true)
    × ((id : String)
        → In id (route request (provider ∷ []) profiles).fallback_profile_ids
        → (other : Pair) × IsEligible request (provider ∷ []) profiles other
          × (other.0.id ≡ some id))
route-IsEligible_example = route-IsEligible request (provider ∷ []) profiles routed

route-refuses_example :
    ((route request [] profiles).error_code ≢ none)
    ↔ ((pair : Pair) → ¬ IsEligible request [] profiles pair)
route-refuses_example = route-refuses request [] profiles
