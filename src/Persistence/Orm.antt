-- ===== src/Persistence/Orm.antt =====
-- persistence/orm.py: the rows of the tables that tasks, the queue and workflows use, and the session
-- that holds them. A primary key is the key of its `Table`, not a field of the row. A column that
-- stores the value of an enumeration has that enumeration's type; a moment is a number.
use lucius_engineering.Prelude.{ℕ, String, Bool, Option, List, Table}
use lucius_engineering.Domain.Enums.{
  ProjectStatus, AuthorityLevel, TaskComplexity, TaskPriority, TaskStatus,
  AcceptanceCriterionStatus, AllowedAction, BlockerCode, TaskRunStatus, Actor, Environment,
  PersistentWorkflowState, ResumeValidationResult, QueueWorkItemState,
}
use lucius_engineering.Domain.Blockers.{BlockerMessage}
use lucius_engineering.Domain.Json.{Json, JsonDict}
use lucius_engineering.Persistence.{IdState}

pub record AcceptanceCriterion : Type 0 where
  pub id : String
  pub statement : String
  pub status : AcceptanceCriterionStatus

pub record Task : Type 0 where
  pub project_id : String
  pub title : String
  pub objective : String
  pub priority : TaskPriority
  pub complexity : TaskComplexity
  pub authority_level : AuthorityLevel
  pub status : TaskStatus
  pub created_by : Actor
  pub blocker_code : Option BlockerCode
  pub blocker_message : Option BlockerMessage
  pub blocked_at : Option ℕ
  pub failure_reason : Option String
  pub created_at : ℕ
  pub updated_at : ℕ

pub record TaskContract : Type 0 where
  pub task_id : String
  pub version : ℕ
  pub objective : String
  pub acceptance_criteria : List AcceptanceCriterion
  pub constraints : List String
  pub repository_ids : List String
  pub allowed_actions : List AllowedAction
  pub allowed_tools : List String
  pub environment : Environment
  pub authority_level : AuthorityLevel
  pub dependencies : List String
  pub documentation_required : Bool
  pub documentation_targets : List String
  pub stop_conditions : List String
  pub created_at : ℕ
  pub updated_at : ℕ

pub record TaskRun : Type 0 where
  pub task_id : String
  pub snapshot_id : Option String
  pub status : TaskRunStatus
  pub actor : Actor
  pub model_provider : Option String
  pub model_name : Option String
  pub started_at : ℕ
  pub finished_at : Option ℕ
  pub input_summary : Option String
  pub output_summary : Option String
  pub failure_reason : Option String

pub record DocumentationCompletion : Type 0 where
  pub task_id : String
  pub targets_completed : List String
  pub evidence_references : List String
  pub completed_at : ℕ
  pub completed_by : Actor

-- What a key of an item's dictionary holds: the key may be missing, hold `None`, or hold a text.
pub data RawField : Type 0 where
  missing : RawField
  none_value : RawField
  text : String → RawField

-- A block checkpoint (`QueueBlockCheckpoint` of pilots/schemas.py).
pub record QueueBlockCheckpoint : Type 0 where
  pub id : String
  pub workflow_id : String
  pub item_id : String
  pub prior_state : QueueWorkItemState
  pub blocking_state : QueueWorkItemState
  pub blocking_reason : String
  pub blocker_category : String
  pub work_completed : List String
  pub implementation_head : Option String
  pub pending_decision_or_dependency : Option String
  pub resume_condition : String
  pub known_risks : List String
  pub relevant_artifacts : List String
  pub repair_counters : JsonDict
  pub approval_requirements : List String
  pub next_safe_action : String
  pub stale_state_validation_requirements : List String
  pub created_at : ℕ

-- An entry of `block_checkpoints`: the dumped checkpoint with the item's version.
pub record BlockEntry : Type 0 where
  pub checkpoint : QueueBlockCheckpoint
  pub item_version : ℕ

-- A work item of `task_backlog`, a dictionary whose keys may be missing. The state and the priority tell
-- a missing key from `None`. Under the other keys a value has the type that the queue writes: `none` is
-- a missing key, and `None` only where the code reads it with `.get(key)` and so finds the same; the
-- version, the order, the substeps and the context limits are never `None`, and numbers are not
-- negative.
pub record WorkItem : Type 0 where
  pub id : Option String
  pub item_id : Option String
  pub task_id : Option String
  pub logical_task_id : Option String
  pub title : Option String
  pub state : RawField
  pub priority : RawField
  pub created_order : Option ℕ
  pub version : Option ℕ
  pub run_generation : Option ℕ
  pub dependencies : List String
  pub current_block_checkpoint_id : Option String
  pub block_checkpoints : List BlockEntry
  pub completed_substeps : List String
  pub work_completed : List String
  pub blocking_reason : Option String
  pub blocker_category : Option String
  pub resume_condition : Option String
  pub resolution_event : Option String
  pub timeout_seconds : Option Json
  pub context_limits : JsonDict
  pub started_at : Option ℕ
  pub blocked_at : Option ℕ
  pub resolved_at : Option ℕ
  pub completed_at : Option ℕ
  pub updated_at : Option ℕ

-- An entry of `checkpoint_history`: the id of a checkpoint, or the note that the candidate of a failed
-- task was put under quarantine, with the reason and the moment.
pub data HistoryEntry : Type 0 where
  checkpoint_entry : String → HistoryEntry
  quarantine_entry : String → ℕ → HistoryEntry

pub record PersistentWorkflow : Type 0 where
  pub project_id : Option String
  pub repository_id : Option String
  pub repository_snapshot_id : Option String
  pub task_id : Option String
  pub plan_id : Option String
  pub plan_freeze_id : Option String
  pub objective : String
  pub expected_main_head : String
  pub isolated_branch : String
  pub worktree_path : String
  pub workflow_state : PersistentWorkflowState
  pub authority_tier : String
  pub task_backlog : List WorkItem
  pub dependency_graph : List (String × List String)
  pub active_task_id : Option String
  pub completed_task_ids : List String
  pub pending_task_ids : List String
  pub decisions : List Json
  pub deviations : List Json
  pub repair_counters : JsonDict
  pub targeted_test_evidence : List Json
  pub full_test_status : JsonDict
  pub checkpoint_history : List HistoryEntry
  pub pending_human_approvals : List String
  pub resume_requirements : List String
  pub created_at : ℕ
  pub updated_at : ℕ

pub record WorkflowCheckpoint : Type 0 where
  pub workflow_id : String
  pub checkpoint_state : PersistentWorkflowState
  pub implementation_head : String
  pub expected_main_head : String
  pub branch : String
  pub worktree_path : String
  pub active_task_id : Option String
  pub completed_task_ids : List String
  pub pending_task_ids : List String
  pub dependency_graph : List (String × List String)
  pub decisions : List Json
  pub deviations : List Json
  pub repair_counters : JsonDict
  pub latest_test_results : List Json
  pub known_warnings : List String
  pub authority_tier : String
  pub pending_human_approvals : List String
  pub resume_conditions : List String
  pub recommended_next_action : String
  pub created_at : ℕ

pub record ResumeValidation : Type 0 where
  pub workflow_id : String
  pub checkpoint_id : String
  pub result : ResumeValidationResult
  pub checks : List JsonDict
  pub next_eligible_task_id : Option String
  pub notes : Option String
  pub validated_at : ℕ

-- An audit event; its free-form metadata is left out.
pub record AuditEvent : Type 0 where
  pub id : String
  pub event_type : String
  pub actor : Actor
  pub project_id : Option String
  pub repository_id : Option String
  pub task_id : Option String
  pub run_id : Option String
  pub action : String
  pub result : String
  pub timestamp : ℕ

-- `EngineeringPlanORM`: the columns that a promotion reads.
pub record EngineeringPlan : Type 0 where
  pub task_id : String
  pub project_id : String
  pub task_contract_id : String
  pub task_contract_version : ℕ
  pub risk_level : String

-- `PlanFreezeORM`: the columns that a promotion reads.
pub record PlanFreeze : Type 0 where
  pub plan_id : String
  pub task_id : String
  pub project_id : String
  pub commit_sha : Option String

-- A project is read for its status, a snapshot for its repository, a registration for its
-- location; an attachment is a pair of a project and a repository.
pub record Session : Type 0 where
  pub ids : IdState
  pub audit : List AuditEvent
  pub projects : Table ProjectStatus
  pub registrations : Table String
  pub attachments : List (String × String)
  pub snapshots : Table String
  pub tasks : Table Task
  pub contracts : Table TaskContract
  pub runs : Table TaskRun
  pub completions : Table DocumentationCompletion
  pub workflows : Table PersistentWorkflow
  pub checkpoints : Table WorkflowCheckpoint
  pub resume_validations : Table ResumeValidation
  pub plans : Table EngineeringPlan
  pub freezes : Table PlanFreeze
