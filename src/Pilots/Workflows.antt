-- ===== src/Pilots/Workflows.antt =====
-- pilots/workflows.py: the service of persistent workflows, their checkpoints and the validation of a
-- resume. `now` is the clock's reading during the call.
pub mod Checkpoints
pub mod Resume
pub mod Checks
mod Tests
use lucius_engineering.Prelude.{
  ℕ, String, Bool, true, false, not, Option, none, some, List, [], ◌∷◌, ◌++◌, if◌then◌else◌, ◌==◌,
  is_empty, keep, any, lookup, insert, Result, ok, err, found,
}
use lucius_engineering.Prelude.Exec.{Exec, pure, reads, modify, ◌>>=◌, ◌>>◌}
use lucius_engineering.Domain.Enums.{Actor, PersistentWorkflowState, ResumeValidationResult}
use lucius_engineering.Domain.Ids.{persistent_workflow, workflow_checkpoint, resume_validation}
use lucius_engineering.Domain.Json.{Json, text, num, obj, Members, JsonDict}
use lucius_engineering.Domain.Json
use lucius_engineering.Persistence.{next_id, add_row_id}
use lucius_engineering.Persistence.Orm.{
  WorkItem, PersistentWorkflow, WorkflowCheckpoint, ResumeValidation, Session,
}
use lucius_engineering.Audit.{record_event}

pub data WorkflowError : Type 0 where
  unknown_workflow : String → WorkflowError
  unknown_checkpoint : String → WorkflowError

abbrev pub Action : Type 0 → Type 0
Action = Exec Session WorkflowError

-- the value of a member, as the audit stores it
abbrev pub workflow_state_value : PersistentWorkflowState → String
workflow_state_value PersistentWorkflowState.objective_accepted = "OBJECTIVE_ACCEPTED"
workflow_state_value PersistentWorkflowState.planning = "PLANNING"
workflow_state_value PersistentWorkflowState.plan_ready = "PLAN_READY"
workflow_state_value PersistentWorkflowState.implementing = "IMPLEMENTING"
workflow_state_value PersistentWorkflowState.verifying = "VERIFYING"
workflow_state_value PersistentWorkflowState.checkpoint_review_required =
    "CHECKPOINT_REVIEW_REQUIRED"
workflow_state_value PersistentWorkflowState.paused = "PAUSED"
workflow_state_value PersistentWorkflowState.resume_validation = "RESUME_VALIDATION"
workflow_state_value PersistentWorkflowState.blocked = "BLOCKED"
workflow_state_value PersistentWorkflowState.approved_to_continue = "APPROVED_TO_CONTINUE"
workflow_state_value PersistentWorkflowState.completed_pending_integration =
    "COMPLETED_PENDING_INTEGRATION"
workflow_state_value PersistentWorkflowState.closed = "CLOSED"

abbrev pub resume_value : ResumeValidationResult → String
resume_value ResumeValidationResult.safe_to_resume = "SAFE_TO_RESUME"
resume_value ResumeValidationResult.checkpoint_review_required = "CHECKPOINT_REVIEW_REQUIRED"
resume_value ResumeValidationResult.blocked = "BLOCKED"

-- `_workflow`
unfoldable pub get_row : String → Session → Result WorkflowError PersistentWorkflow
get_row wid s = found (unknown_workflow wid) (lookup wid s.workflows)

unfoldable pub put_row : String → PersistentWorkflow → Session → Session
put_row wid row s = record s { workflows = insert wid row s.workflows }

unfoldable pub audit_row :
    PersistentWorkflow → String → String → String → Actor → ℕ → Session → Session
unfolding record_event
audit_row row event_type action result actor now =
    record_event
      (record {
        event_type = event_type;
        actor = actor;
        project_id = row.project_id;
        repository_id = row.repository_id;
        task_id = row.task_id;
        run_id = none;
        action = action;
        result = result;
      })
      now

-- The arguments of `create`; a list or a dictionary that is not given is empty.
pub record WorkflowCreate : Type 0 where
  pub objective : String
  pub expected_main_head : String
  pub isolated_branch : String
  pub worktree_path : String
  pub authority_tier : String
  pub project_id : Option String
  pub repository_id : Option String
  pub repository_snapshot_id : Option String
  pub task_id : Option String
  pub task_backlog : List WorkItem
  pub dependency_graph : List (String × List String)
  pub active_task_id : Option String
  pub completed_task_ids : List String
  pub pending_task_ids : List String
  pub decisions : List Json
  pub deviations : List Json
  pub repair_counters : JsonDict
  pub pending_human_approvals : List String
  pub resume_requirements : List String

abbrev pub default_counters : JsonDict
default_counters =
    ("total", num 0)
    ∷ ("by_task", obj Json.end)
    ∷ ("limits", obj (Json.member "per_task" (num 3) (Json.member "total" (num 8) Json.end)))
    ∷ []

abbrev pub counters_or_default : JsonDict → JsonDict
counters_or_default [] = default_counters
counters_or_default (c ∷ cs) = c ∷ cs

unfoldable pub new_workflow : WorkflowCreate → ℕ → PersistentWorkflow
new_workflow args now = record {
  project_id = args.project_id;
  repository_id = args.repository_id;
  repository_snapshot_id = args.repository_snapshot_id;
  task_id = args.task_id;
  plan_id = none;
  plan_freeze_id = none;
  objective = args.objective;
  expected_main_head = args.expected_main_head;
  isolated_branch = args.isolated_branch;
  worktree_path = args.worktree_path;
  workflow_state = PersistentWorkflowState.objective_accepted;
  authority_tier = args.authority_tier;
  task_backlog = args.task_backlog;
  dependency_graph = args.dependency_graph;
  active_task_id = args.active_task_id;
  completed_task_ids = args.completed_task_ids;
  pending_task_ids = args.pending_task_ids;
  decisions = args.decisions;
  deviations = args.deviations;
  repair_counters = counters_or_default args.repair_counters;
  targeted_test_evidence = [];
  full_test_status = [];
  checkpoint_history = [];
  pending_human_approvals = args.pending_human_approvals;
  resume_requirements = args.resume_requirements;
  created_at = now;
  updated_at = now;
}

-- The id of the new workflow is the next one.
unfoldable pub create : WorkflowCreate → Actor → ℕ → Action String
create args actor now s =
    let (id, ids) = next_id persistent_workflow s.ids in
    let row = new_workflow args now in
    (
      ok id,
      audit_row row "PERSISTENT_WORKFLOW_CREATED" "create_persistent_workflow"
          (workflow_state_value row.workflow_state) actor now
          (put_row id row (record s { ids = add_row_id id ids })),
    )

unfoldable pub write_plan :
    String → PersistentWorkflow → String → String → Actor → ℕ → Session → Session
write_plan wid row plan freeze actor now s =
    let planned = record row {
      plan_id = some plan;
      plan_freeze_id = some freeze;
      workflow_state = PersistentWorkflowState.plan_ready;
      updated_at = now;
    } in
    audit_row row "PERSISTENT_WORKFLOW_PLAN_ATTACHED" "attach_workflow_plan"
      (workflow_state_value PersistentWorkflowState.plan_ready) actor now (put_row wid planned s)

unfoldable pub attach_plan : String → String → String → Actor → ℕ → Action (Unit {0})
attach_plan wid plan freeze actor now = do
  row ← reads (get_row wid)
  modify (write_plan wid row plan freeze actor now)

-- The optional arguments of `update_progress`: `none` leaves a column as it is.
pub record ProgressUpdate : Type 0 where
  pub completed_task_ids : Option (List String)
  pub pending_task_ids : Option (List String)
  pub decisions : Option (List Json)
  pub deviations : Option (List Json)
  pub repair_counters : Option JsonDict
  pub targeted_test_evidence : Option (List Json)
  pub full_test_status : Option JsonDict
  pub pending_human_approvals : Option (List String)

abbrev pub given_or {ℓ} : {A : Type ℓ} → A → Option A → A
given_or old none = old
given_or old (some new) = new

unfoldable pub updated_row :
    PersistentWorkflowState
    → Option String
    → ProgressUpdate
    → ℕ
    → PersistentWorkflow
    → PersistentWorkflow
updated_row state active args now row = record row {
  workflow_state = state;
  active_task_id = active;
  completed_task_ids = given_or row.completed_task_ids args.completed_task_ids;
  pending_task_ids = given_or row.pending_task_ids args.pending_task_ids;
  decisions = given_or row.decisions args.decisions;
  deviations = given_or row.deviations args.deviations;
  repair_counters = given_or row.repair_counters args.repair_counters;
  targeted_test_evidence = given_or row.targeted_test_evidence args.targeted_test_evidence;
  full_test_status = given_or row.full_test_status args.full_test_status;
  pending_human_approvals = given_or row.pending_human_approvals args.pending_human_approvals;
  updated_at = now;
}

unfoldable pub update_progress :
    String
    → PersistentWorkflowState
    → Option String
    → ProgressUpdate
    → Actor
    → ℕ
    → Action (Unit {0})
update_progress wid state active args actor now = do
  row ← reads (get_row wid)
  modify (λ s.
      audit_row row "PERSISTENT_WORKFLOW_PROGRESS_UPDATED" "update_workflow_progress"
        (workflow_state_value state) actor now
        (put_row wid (updated_row state active args now row) s))
