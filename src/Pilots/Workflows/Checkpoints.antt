-- ===== src/Pilots/Workflows/Checkpoints.antt =====
-- pilots/workflows.py: recording a checkpoint, and validating a resume from one.
use lucius_engineering.Prelude.{
  ℕ, String, Bool, false, not, Option, some, List, [], ◌∷◌, ◌++◌, if◌then◌else◌, ◌==◌, is_empty,
  keep, any, lookup, insert, Result, ok, found, raise_when,
}
use lucius_engineering.Prelude.{◌>>=◌ as then_result, ◌>>◌ as and_result}
use lucius_engineering.Prelude.Exec.{pure, reads, modify, ◌>>=◌, ◌>>◌}
use lucius_engineering.Domain.Enums.{Actor, PersistentWorkflowState, ResumeValidationResult}
use lucius_engineering.Domain.Ids.{workflow_checkpoint, resume_validation}
use lucius_engineering.Domain.Json.{Json, JsonDict}
use lucius_engineering.Persistence.{next_id, add_row_id}
use lucius_engineering.Persistence.Orm.{
  checkpoint_entry, PersistentWorkflow, WorkflowCheckpoint, ResumeValidation, Session,
}
use lucius_engineering.Pilots.Workflows.{
  WorkflowError, unknown_checkpoint, Action, workflow_state_value, resume_value, get_row, put_row,
  audit_row,
}

-- The arguments of `record_checkpoint`.
pub record CheckpointCreate : Type 0 where
  pub checkpoint_state : PersistentWorkflowState
  pub implementation_head : String
  pub expected_main_head : String
  pub branch : String
  pub worktree_path : String
  pub active_task_id : Option String
  pub completed_task_ids : List String
  pub pending_task_ids : List String
  pub dependency_graph : List (String × List String)
  pub decisions : List Json
  pub deviations : List Json
  pub repair_counters : JsonDict
  pub latest_test_results : List Json
  pub known_warnings : List String
  pub authority_tier : String
  pub pending_human_approvals : List String
  pub resume_conditions : List String
  pub recommended_next_action : String

unfoldable pub new_checkpoint : String → CheckpointCreate → ℕ → WorkflowCheckpoint
new_checkpoint wid args now = record {
  workflow_id = wid;
  checkpoint_state = args.checkpoint_state;
  implementation_head = args.implementation_head;
  expected_main_head = args.expected_main_head;
  branch = args.branch;
  worktree_path = args.worktree_path;
  active_task_id = args.active_task_id;
  completed_task_ids = args.completed_task_ids;
  pending_task_ids = args.pending_task_ids;
  dependency_graph = args.dependency_graph;
  decisions = args.decisions;
  deviations = args.deviations;
  repair_counters = args.repair_counters;
  latest_test_results = args.latest_test_results;
  known_warnings = args.known_warnings;
  authority_tier = args.authority_tier;
  pending_human_approvals = args.pending_human_approvals;
  resume_conditions = args.resume_conditions;
  recommended_next_action = args.recommended_next_action;
  created_at = now;
}

-- what the checkpoint `cid` leaves in the workflow
unfoldable pub checkpointed_row :
    String → CheckpointCreate → ℕ → PersistentWorkflow → PersistentWorkflow
checkpointed_row cid args now row = record row {
  workflow_state = args.checkpoint_state;
  active_task_id = args.active_task_id;
  completed_task_ids = args.completed_task_ids;
  pending_task_ids = args.pending_task_ids;
  decisions = args.decisions;
  deviations = args.deviations;
  repair_counters = args.repair_counters;
  targeted_test_evidence = args.latest_test_results;
  pending_human_approvals = args.pending_human_approvals;
  checkpoint_history = row.checkpoint_history ++ checkpoint_entry cid ∷ [];
  updated_at = now;
}

unfoldable pub write_checkpoint :
    String → String → PersistentWorkflow → CheckpointCreate → Actor → ℕ → Session → Session
write_checkpoint cid wid row args actor now s =
    let added = record s {
      ids = add_row_id cid (next_id workflow_checkpoint s.ids).1;
      checkpoints = insert cid (new_checkpoint wid args now) s.checkpoints;
    } in
    audit_row row "PERSISTENT_WORKFLOW_CHECKPOINT_RECORDED" "record_workflow_checkpoint"
      (workflow_state_value args.checkpoint_state) actor now
      (put_row wid (checkpointed_row cid args now row) added)

unfoldable pub record_checkpoint : String → CheckpointCreate → Actor → ℕ → Action String
record_checkpoint wid args actor now = do
  row ← reads (get_row wid)
  cid ← reads (λ s. ok (next_id workflow_checkpoint s.ids).0)
  modify (write_checkpoint cid wid row args actor now)
  pure cid

-- `check.get(key) == expected`, for a text
abbrev pub is_text : String → Option Json → Bool
is_text expected (some (Json.text t)) = t == expected
is_text expected _ = false

abbrev pub has_passed : JsonDict → Bool
has_passed check = is_text "PASS" (lookup "status" check)

abbrev pub is_blocking : JsonDict → Bool
is_blocking check = is_text "BLOCKING" (lookup "severity" check)

-- `_resume_result`
unfoldable pub resume_result : List JsonDict → ResumeValidationResult
resume_result checks =
    let failed = keep (λ c. not (has_passed c)) checks in
    if is_empty failed
    then ResumeValidationResult.safe_to_resume
    else if any is_blocking failed
    then ResumeValidationResult.blocked
    else ResumeValidationResult.checkpoint_review_required

-- The workflow that a resume is validated for: the checkpoint must be one of it.
unfoldable pub resume_guard : String → String → Session → Result WorkflowError PersistentWorkflow
resume_guard wid cid s = then_result (get_row wid s) (λ row.
    then_result (found (unknown_checkpoint cid) (lookup cid s.checkpoints)) (λ checkpoint.
      and_result (raise_when (not (checkpoint.workflow_id == wid)) (unknown_checkpoint cid))
        (ok row)))

unfoldable pub resumed_row : Option String → ℕ → PersistentWorkflow → PersistentWorkflow
resumed_row next now row = record row {
  workflow_state = PersistentWorkflowState.resume_validation;
  active_task_id = next;
  updated_at = now;
}

unfoldable pub new_validation :
    String → String → List JsonDict → Option String → Option String → ℕ → ResumeValidation
new_validation wid cid checks next notes now = record {
  workflow_id = wid;
  checkpoint_id = cid;
  result = resume_result checks;
  checks = checks;
  next_eligible_task_id = next;
  notes = notes;
  validated_at = now;
}

unfoldable pub write_resume :
    String → String → PersistentWorkflow → ResumeValidation → Actor → ℕ → Session → Session
write_resume rid wid row validation actor now s =
    let added = record s {
      ids = add_row_id rid (next_id resume_validation s.ids).1;
      resume_validations = insert rid validation s.resume_validations;
    } in
    audit_row row "PERSISTENT_WORKFLOW_RESUME_VALIDATED" "validate_workflow_resume"
      (resume_value validation.result) actor now
      (put_row wid (resumed_row validation.next_eligible_task_id now row) added)

unfoldable pub validate_resume :
    String
    → String
    → List JsonDict
    → Option String
    → Option String
    → Actor
    → ℕ
    → Action ResumeValidation
validate_resume wid cid checks next notes actor now = do
  row ← reads (resume_guard wid cid)
  rid ← reads (λ s. ok (next_id resume_validation s.ids).0)
  modify (write_resume rid wid row (new_validation wid cid checks next notes now) actor now)
  pure (new_validation wid cid checks next notes now)
