-- ===== src/Pilots/Workflows/Tests.antt =====
-- Concrete runs of the workflow service.
use mathlib.Core.Bool.{false≢true}
use lucius_engineering.Prelude.{
  String, ◌≡◌, ◌↔◌, refl, true, none, some, List, [], ◌∷◌, lookup, insert, ok, err, All, eq_iff,
}
use lucius_engineering.Domain.Enums.{Actor, PersistentWorkflowState, ResumeValidationResult}
use lucius_engineering.Domain.Json.{text, JsonDict}
use lucius_engineering.Persistence.Orm.{PersistentWorkflow, ResumeValidation, Session}
use lucius_engineering.Pilots.Workflows.{unknown_checkpoint, get_row, put_row, audit_row}
use lucius_engineering.Pilots.Workflows.Checkpoints.{
  CheckpointCreate, write_checkpoint, record_checkpoint, has_passed, resume_result, validate_resume,
}
use lucius_engineering.Pilots.Workflows.Resume.{
  IsResumed, IsDecided, checkpoint-resume, checkpoint-foreign,
}
use lucius_engineering.Pilots.Workflows.Checks.{HasBlocking, resume_result_decides}
use lucius_engineering.Persistence.{next_id}
use lucius_engineering.Domain.Ids.{workflow_checkpoint}

abbrev paused : PersistentWorkflow
paused = record {
  project_id = some "LPROJ_000001";
  repository_id = none;
  repository_snapshot_id = none;
  task_id = none;
  plan_id = none;
  plan_freeze_id = none;
  objective = "Parse the manifest";
  expected_main_head = "0a1b";
  isolated_branch = "work";
  worktree_path = "/tmp/work";
  workflow_state = PersistentWorkflowState.implementing;
  authority_tier = "L1";
  task_backlog = [];
  dependency_graph = [];
  active_task_id = none;
  completed_task_ids = [];
  pending_task_ids = [];
  decisions = [];
  deviations = [];
  repair_counters = [];
  targeted_test_evidence = [];
  full_test_status = [];
  checkpoint_history = [];
  pending_human_approvals = [];
  resume_requirements = [];
  created_at = 1;
  updated_at = 1;
}

abbrev desk : Session
desk = record {
  ids = record { counters = []; persisted = [] };
  audit = [];
  projects = [];
  registrations = [];
  attachments = [];
  snapshots = [];
  tasks = [];
  contracts = [];
  runs = [];
  completions = [];
  workflows = ("LFLOW_000001", paused) ∷ ("LFLOW_000002", paused) ∷ [];
  checkpoints = [];
  resume_validations = [];
  plans = [];
  freezes = [];
}

abbrev progress : CheckpointCreate
progress = record {
  checkpoint_state = PersistentWorkflowState.paused;
  implementation_head = "1c2d";
  expected_main_head = "0a1b";
  branch = "work";
  worktree_path = "/tmp/work";
  active_task_id = none;
  completed_task_ids = "A" ∷ [];
  pending_task_ids = "B" ∷ [];
  dependency_graph = [];
  decisions = [];
  deviations = [];
  repair_counters = [];
  latest_test_results = [];
  known_warnings = [];
  authority_tier = "L1";
  pending_human_approvals = [];
  resume_conditions = [];
  recommended_next_action = "Go on with B";
}

abbrev checks : List JsonDict
checks =
    (("status", text "PASS") ∷ [])
    ∷ (("status", text "FAIL") ∷ ("severity", text "BLOCKING") ∷ [])
    ∷ []

resume_result_decides_example :
    ((resume_result checks ≡ ResumeValidationResult.safe_to_resume)
      ↔ All (λ c. has_passed c ≡ true) checks)
    × ((resume_result checks ≡ ResumeValidationResult.blocked) ↔ HasBlocking checks)
resume_result_decides_example = resume_result_decides checks

abbrev cid : String
cid = (next_id workflow_checkpoint desk.ids).0

abbrev recorded_desk : Session
recorded_desk = (record_checkpoint "LFLOW_000001" progress Actor.human 5 desk).1

desk-row : get_row "LFLOW_000001" desk ≡ ok paused
unfolding get_row lookup
desk-row = refl

desk-recorded :
    record_checkpoint "LFLOW_000001" progress Actor.human 5 desk ≡ (ok cid, recorded_desk)
unfolding record_checkpoint get_row lookup
desk-recorded = refl

other-row : get_row "LFLOW_000002" recorded_desk ≡ ok paused
unfolding record_checkpoint write_checkpoint get_row lookup audit_row put_row insert
other-row = refl

checkpoint-resume_example :
    (validation : ResumeValidation) × (now : PersistentWorkflow) × ((validate_resume "LFLOW_000001"
        cid checks
        (some "B")
        none
        Actor.human
        6
        recorded_desk).0
      ≡ ok validation)
    × (lookup "LFLOW_000001"
          (validate_resume "LFLOW_000001" cid checks
            (some "B")
            none
            Actor.human
            6
            recorded_desk).1.workflows
        ≡ some now)
    × IsDecided cid checks validation
    × IsResumed cid progress (some "B") paused now
checkpoint-resume_example =
    checkpoint-resume "LFLOW_000001" progress Actor.human Actor.human 5 6 desk recorded_desk cid
      paused checks (some "B") none desk-row desk-recorded

checkpoint-foreign_example :
    validate_resume "LFLOW_000002" cid checks (some "B") none Actor.human 6 recorded_desk
    ≡ (err (unknown_checkpoint cid), recorded_desk)
checkpoint-foreign_example =
    checkpoint-foreign "LFLOW_000001" "LFLOW_000002" progress Actor.human Actor.human 5 6 desk
      recorded_desk cid paused paused checks (some "B") none desk-row desk-recorded
      (λ e. false≢true ((eq_iff "LFLOW_000001" "LFLOW_000002").1 e)) other-row
