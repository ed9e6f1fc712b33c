-- ===== src/Models/Router.antt =====
-- models/router.py: the choice of a profile for a request, and of those to fall back on.
pub mod Order
pub mod Choice
use lucius_engineering.Prelude.{
  ℕ, String, Bool, true, false, ◌&&◌, ◌||◌, not, Option, none, some, List, [], ◌∷◌, ◌++◌, map,
  if◌then◌else◌, ◌==◌, same_option, is_text, leb, ltb, eqb, any, mem, is_empty, codes, str_leb,
  then_by,
}
use lucius_engineering.Prelude.Sorting.{sorted}
use lucius_engineering.Models.Schemas.{
  ModelCapability, provider_type_value, ModelErrorCode, error_value, ModelProvider, ModelProfile,
  ModelRequest, RoutingRejection, RoutingDecision,
}
use lucius_engineering.Models.Policies.{
  cost_rank, latency_rank, has_capability, validate_profile_for_request,
}

-- An eligible profile with its provider.
abbrev pub Pair : Type 0
Pair = ModelProfile × ModelProvider

-- `provider_by_id.get(id)`: of two providers with one id, the later
abbrev first_of : Option ModelProvider → Option ModelProvider → Option ModelProvider
first_of (some later) other = some later
first_of none other = other

unfoldable pub provider_by_id : List ModelProvider → String → Option ModelProvider
provider_by_id [] id = none
provider_by_id (p ∷ providers) id =
    let later = provider_by_id providers id in
    first_of later (if is_text p.id id then some p else none)

-- What the loop over the profiles collects.
pub record Routed : Type 0 where
  pub eligible : List Pair
  pub rejected : List RoutingRejection

abbrev pub unregistered : ModelProfile → RoutingRejection
unregistered profile = record {
  provider_id = some profile.provider_id;
  model_profile_id = profile.id;
  reason = ModelErrorCode.provider_unavailable;
}

abbrev pub place_valid : Pair → List RoutingRejection → Routed → Routed
place_valid pair [] routed = record routed { eligible = pair ∷ routed.eligible }
place_valid pair blockers routed = record routed { rejected = blockers ++ routed.rejected }

abbrev pub place_profile : ModelRequest → ModelProfile → Option ModelProvider → Routed → Routed
place_profile request profile none routed = record routed {
  rejected = unregistered profile ∷ routed.rejected;
}
place_profile request profile (some provider) routed =
    place_valid (profile, provider) (validate_profile_for_request request provider profile) routed

unfoldable pub route_profiles : ModelRequest → List ModelProvider → List ModelProfile → Routed
route_profiles request providers [] = record { eligible = []; rejected = [] }
route_profiles request providers (profile ∷ profiles) =
    place_profile request profile (provider_by_id providers profile.provider_id)
      (route_profiles request providers profiles)

-- The components of `_selection_key`.
abbrev pub model_key : ModelRequest → Pair → ℕ
model_key request (profile, provider) =
    if same_option request.preferred_model profile.id
      || is_text request.preferred_model profile.model_name
    then 0
    else 1

abbrev pub provider_key : ModelRequest → Pair → ℕ
provider_key request (profile, provider) =
    if same_option request.preferred_provider provider.id
      || is_text request.preferred_provider provider.name
      || is_text request.preferred_provider (provider_type_value provider.provider_type)
    then 0
    else 1

-- the quality where it counts; the key holds its negative
abbrev pub quality_key : ModelRequest → Pair → ℕ
quality_key request (profile, provider) =
    if has_capability ModelCapability.high_reasoning request.required_capabilities
      || not (eqb request.minimum_quality 0)
    then profile.quality_score
    else 0

abbrev text_or : Option String → String → String
text_or none other = other
text_or (some text) other = if text == "" then other else text

abbrev pub name_key : Pair → String
name_key (profile, provider) = text_or profile.id profile.model_name

-- `_selection_key(request, *a) <= _selection_key(request, *b)`
unfoldable pub selection_le : ModelRequest → Pair → Pair → Bool
selection_le request a b = then_by (model_key request a) (model_key request b) (
    then_by (provider_key request a) (provider_key request b) (
      then_by (quality_key request b) (quality_key request a) (
        then_by (cost_rank a.0.cost_class) (cost_rank b.0.cost_class) (
          then_by (latency_rank a.0.latency_class) (latency_rank b.0.latency_class)
            (str_leb (name_key a) (name_key b))))))

-- the first of the remaining pairs that a name asks for, and the others
abbrev pub is_requested : String → Pair → Bool
is_requested name (profile, provider) = is_text profile.id name || profile.model_name == name

unfoldable pub take_requested : String → List Pair → List Pair × List Pair
take_requested name [] = ([], [])
take_requested name (p ∷ ps) =
    let (found', others) = take_requested name ps in
    if is_requested name p then (p ∷ [], ps) else (found', p ∷ others)

-- the loop over `fallback_model_ids`: those asked for in their order, then the remaining ones
unfoldable pub take_explicit : List String → List Pair → List Pair
take_explicit [] remaining = remaining
take_explicit (name ∷ names) remaining =
    let (found', others) = take_requested name remaining in found' ++ take_explicit names others

-- `_order_eligible`
unfoldable pub order_eligible : ModelRequest → List Pair → List Pair
order_eligible request eligible =
    take_explicit request.fallback_model_ids (sorted (selection_le request) eligible)

unfoldable pub has_reason : ModelErrorCode → List RoutingRejection → Bool
has_reason code = any (λ (r : RoutingRejection). error_value r.reason == error_value code)

unfoldable pub first_reason : List ModelErrorCode → List RoutingRejection → ModelErrorCode
first_reason [] rejected = ModelErrorCode.no_eligible_model
first_reason (code ∷ codes') rejected =
    let rest = first_reason codes' rejected in if has_reason code rejected then code else rest

-- `_dominant_error`; without a rejection no code is found
abbrev pub priorities : List ModelErrorCode
priorities =
    ModelErrorCode.privacy_policy_block ∷ ModelErrorCode.cost_policy_block
    ∷ ModelErrorCode.budget_exceeded ∷ ModelErrorCode.context_limit_exceeded
    ∷ ModelErrorCode.capability_unavailable ∷ ModelErrorCode.model_disabled
    ∷ ModelErrorCode.provider_unavailable ∷ []

unfoldable pub dominant_error : List RoutingRejection → ModelErrorCode
dominant_error = first_reason priorities

-- `[profile.id for profile, _ in pairs if profile.id is not None]`
abbrev add_id : Option String → List String → List String
add_id none ids = ids
add_id (some id) ids = id ∷ ids

unfoldable pub profile_ids : List Pair → List String
profile_ids [] = []
profile_ids ((profile, provider) ∷ pairs) = add_id profile.id (profile_ids pairs)

abbrev pub decide : ModelRequest → List RoutingRejection → List Pair → RoutingDecision
decide request rejected [] = record {
  request_id = request.request_id;
  selected_profile_id = none;
  fallback_profile_ids = [];
  rejected = rejected;
  error_code = some (dominant_error rejected);
}
decide request rejected ((selected, provider) ∷ rest) = record {
  request_id = request.request_id;
  selected_profile_id = selected.id;
  fallback_profile_ids = profile_ids rest;
  rejected = rejected;
  error_code = none;
}

unfoldable pub route : ModelRequest → List ModelProvider → List ModelProfile → RoutingDecision
route request providers profiles =
    let routed = route_profiles request providers profiles in
    decide request routed.rejected (order_eligible request routed.eligible)
