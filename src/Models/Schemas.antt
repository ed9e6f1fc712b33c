-- ===== src/Models/Schemas.antt =====
-- models/schemas.py, models/errors.py and the enumerations of domain/enums.py that they use: what a
-- request for a model and a model's profile say. A set is the list of its members.
use lucius_engineering.Prelude.{ℕ, String, Bool, Option, List}

pub data ProviderType : Type 0 where
  local openai anthropic google custom : ProviderType

abbrev pub provider_type_value : ProviderType → String
provider_type_value ProviderType.local = "LOCAL"
provider_type_value ProviderType.openai = "OPENAI"
provider_type_value ProviderType.anthropic = "ANTHROPIC"
provider_type_value ProviderType.google = "GOOGLE"
provider_type_value ProviderType.custom = "CUSTOM"

pub data ProviderStatus : Type 0 where
  active paused disabled : ProviderStatus

pub data ModelProfileStatus : Type 0 where
  active paused disabled : ModelProfileStatus

pub data ModelCapability : Type 0 where
  text_generation structured_output code_reasoning code_generation planning summarization
        classification long_context tool_use high_reasoning private_inference :
      ModelCapability

abbrev pub capability_value : ModelCapability → String
capability_value ModelCapability.text_generation = "TEXT_GENERATION"
capability_value ModelCapability.structured_output = "STRUCTURED_OUTPUT"
capability_value ModelCapability.code_reasoning = "CODE_REASONING"
capability_value ModelCapability.code_generation = "CODE_GENERATION"
capability_value ModelCapability.planning = "PLANNING"
capability_value ModelCapability.summarization = "SUMMARIZATION"
capability_value ModelCapability.classification = "CLASSIFICATION"
capability_value ModelCapability.long_context = "LONG_CONTEXT"
capability_value ModelCapability.tool_use = "TOOL_USE"
capability_value ModelCapability.high_reasoning = "HIGH_REASONING"
capability_value ModelCapability.private_inference = "PRIVATE_INFERENCE"

pub data PrivacyClass : Type 0 where
  public internal confidential restricted : PrivacyClass

pub data CostClass : Type 0 where
  free low medium high premium : CostClass

pub data LatencyClass : Type 0 where
  low medium high : LatencyClass

-- The members of `ModelErrorCode` that the router gives.
pub data ModelErrorCode : Type 0 where
  model_disabled provider_unavailable capability_unavailable privacy_policy_block cost_policy_block
        budget_exceeded context_limit_exceeded no_eligible_model :
      ModelErrorCode

abbrev pub error_value : ModelErrorCode → String
error_value ModelErrorCode.model_disabled = "MODEL_DISABLED"
error_value ModelErrorCode.provider_unavailable = "PROVIDER_UNAVAILABLE"
error_value ModelErrorCode.capability_unavailable = "CAPABILITY_UNAVAILABLE"
error_value ModelErrorCode.privacy_policy_block = "PRIVACY_POLICY_BLOCK"
error_value ModelErrorCode.cost_policy_block = "COST_POLICY_BLOCK"
error_value ModelErrorCode.budget_exceeded = "BUDGET_EXCEEDED"
error_value ModelErrorCode.context_limit_exceeded = "CONTEXT_LIMIT_EXCEEDED"
error_value ModelErrorCode.no_eligible_model = "NO_ELIGIBLE_MODEL"

pub record ModelProvider : Type 0 where
  pub id : Option String
  pub name : String
  pub provider_type : ProviderType
  pub status : ProviderStatus
  pub supports_local : Bool

-- The fields that routing reads; costs are amounts for a million tokens.
pub record ModelProfile : Type 0 where
  pub id : Option String
  pub provider_id : String
  pub model_name : String
  pub status : ModelProfileStatus
  pub capabilities : List ModelCapability
  pub privacy_class : PrivacyClass
  pub cost_class : CostClass
  pub latency_class : LatencyClass
  pub quality_score : ℕ
  pub max_context_tokens : Option ℕ
  pub max_output_tokens : Option ℕ
  pub input_cost_per_million : Option ℕ
  pub output_cost_per_million : Option ℕ

-- The fields that routing reads. `context_tokens` is the entry of the metadata, when it is a number,
-- `input_messages` the contents of the messages, and of a schema only its presence counts.
pub record ModelRequest : Type 0 where
  pub request_id : String
  pub required_capabilities : List ModelCapability
  pub privacy_class : PrivacyClass
  pub minimum_quality : ℕ
  pub max_cost_class : Option CostClass
  pub max_estimated_cost : Option ℕ
  pub preferred_provider : Option String
  pub preferred_model : Option String
  pub fallback_model_ids : List String
  pub input_messages : List String
  pub structured_output : Bool
  pub max_output_tokens : Option ℕ
  pub context_tokens : Option ℕ

-- The texts for people, `message` and `reasons`, are left out.
pub record RoutingRejection : Type 0 where
  pub provider_id : Option String
  pub model_profile_id : Option String
  pub reason : ModelErrorCode

pub record RoutingDecision : Type 0 where
  pub request_id : String
  pub selected_profile_id : Option String
  pub fallback_profile_ids : List String
  pub rejected : List RoutingRejection
  pub error_code : Option ModelErrorCode
