-- ===== src/NightShift/Services.antt =====
-- night_shift/supervisor.py: the services that the supervisor is given, what it asks them and what they
-- return, with Git and the clock. A service reads and changes the session and the world outside it.
use lucius_engineering.Prelude.{ℕ, String, Bool, Option, List, Result, Table}
use lucius_engineering.Persistence.Orm.{Session}
use lucius_engineering.Domain.Enums.{Actor, AuthorityLevel}

-- runtime/schemas.py
pub data RuntimeLoopStatus : Type 0 where
  completed idle waiting blocked escalated failed : RuntimeLoopStatus

abbrev pub loop_status_value : RuntimeLoopStatus → String
loop_status_value completed = "COMPLETED"
loop_status_value idle = "IDLE"
loop_status_value waiting = "WAITING"
loop_status_value blocked = "BLOCKED"
loop_status_value escalated = "ESCALATED"
loop_status_value failed = "FAILED"

pub data RuntimeExecutionOutcome : Type 0 where
  outcome_completed outcome_blocked outcome_escalated outcome_failed : RuntimeExecutionOutcome

abbrev pub outcome_value : RuntimeExecutionOutcome → String
outcome_value outcome_completed = "COMPLETED"
outcome_value outcome_blocked = "BLOCKED"
outcome_value outcome_escalated = "ESCALATED"
outcome_value outcome_failed = "FAILED"

pub record RuntimeLoopConfig : Type 0 where
  pub workflow_ids : List String
  pub max_tasks : ℕ
  pub dispatcher_count : ℕ
  pub stop_on_block : Bool
  pub stop_on_escalation : Bool

-- The record of one task, and the result of a runtime loop: the fields that the supervisor reads.
pub record RuntimeTaskRecord : Type 0 where
  pub workflow_id : String
  pub item_id : String
  pub project_id : Option String
  pub provider_id : Option String
  pub outcome : RuntimeExecutionOutcome

pub record RuntimeLoopResult : Type 0 where
  pub status : RuntimeLoopStatus
  pub stopped_reason : Option String
  pub selected_tasks : ℕ
  pub completed_tasks : ℕ
  pub blocked_tasks : ℕ
  pub escalations : ℕ
  pub project_switches : ℕ
  pub provider_ids : List String
  pub task_records : List RuntimeTaskRecord

-- integration/service.py; the access mode and the authority of a request are its defaults.
pub record CanonicalIntegrationRequest : Type 0 where
  pub workflow_id : String
  pub canonical_repository_path : String
  pub candidate_workspace_path : String
  pub expected_baseline_commit : String
  pub actor : Actor

pub record CanonicalIntegrationResult : Type 0 where
  pub status : String
  pub reason : Option String
  pub protected_untracked_hashes : Table String
  pub rollback_attempted : Bool
  pub rollback_succeeded : Bool

-- integration/controlled_commit.py
pub record ControlledCommitRequest : Type 0 where
  pub workflow_id : String
  pub canonical_repository_path : String
  pub expected_baseline_commit : String
  pub authority_level : AuthorityLevel
  pub actor : Actor
  pub protected_untracked_hashes : Table String

pub record ControlledCommitResult : Type 0 where
  pub status : String
  pub reason : Option String
  pub resulting_commit : Option String
  pub manual_reconciliation_required : Bool

-- The session and the world outside it: the repositories on disk and the clocks.
pub record Shift (W : Type 0) : Type 0 where
  pub session : Session
  pub world : W

-- The services of the constructor, the Git readings of repositories/git_mutation.py, whose failure is
-- the code of a `GitMutationError`, and the clocks. A reading of the clock may change the world.
pub record Services (W : Type 0) : Type 0 where
  pub run_runtime : RuntimeLoopConfig → Shift W → RuntimeLoopResult × Shift W
  pub integrate : CanonicalIntegrationRequest → Shift W → CanonicalIntegrationResult × Shift W
  pub commit : ControlledCommitRequest → Shift W → ControlledCommitResult × Shift W
  pub actor : Actor
  pub clock : W → ℕ × W
  pub utc_now : W → ℕ
  pub resolve : W → String → String
  pub current_head : W → String → Result String String
  pub tracked_worktree_paths : W → String → Result String (List String)
  pub staged_paths : W → String → Result String (List String)
  pub changed_paths : W → String → Result String (List String)
  pub capture_untracked_file_hashes : W → String → Result String (Table String)
  pub verify_untracked_file_hashes : W → String → Table String → Result String (Unit {0})
