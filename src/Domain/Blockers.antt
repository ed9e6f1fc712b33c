-- ===== src/Domain/Blockers.antt =====
-- tasks/schemas.py: why a task is blocked. The text of a message, and the metadata beside it, are
-- told by their parts.
use lucius_engineering.Prelude.{String, Bool, List}
use lucius_engineering.Domain.Enums.{
  ProjectStatus, AuthorityLevel, TaskStatus, AllowedAction, BlockerCode, Environment,
}

pub data BlockerMessage : Type 0 where
  project_missing : BlockerMessage
  project_not_active : ProjectStatus → BlockerMessage
  no_active_contract : BlockerMessage
  objective_blank : BlockerMessage
  criteria_missing : BlockerMessage
  documentation_targets_missing : BlockerMessage
  repository_not_attached : String → BlockerMessage
  depends_on_itself : BlockerMessage
  dependency_missing : String → BlockerMessage
  dependency_cycle : String → BlockerMessage
  dependency_not_complete : String → TaskStatus → BlockerMessage
  contract_exceeds_task : AuthorityLevel → AuthorityLevel → BlockerMessage
  action_requires : AllowedAction → AuthorityLevel → BlockerMessage
  environment_requires : Environment → AuthorityLevel → BlockerMessage
  documentation_evidence_required : BlockerMessage
  documentation_targets_incomplete : List String → BlockerMessage
  given : String → BlockerMessage

pub record StructuredBlocker : Type 0 where
  pub code : BlockerCode
  pub message : BlockerMessage

pub record ContractValidationResult : Type 0 where
  pub valid : Bool
  pub blockers : List StructuredBlocker
