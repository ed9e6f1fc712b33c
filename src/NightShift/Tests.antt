-- ===== src/NightShift/Tests.antt =====
-- Concrete runs of the night shift supervisor.
use lucius_engineering.Prelude.{
  ℕ, ◌≡◌, ◌≤◌, refl, String, true, false, Option, none, some, [], ◌∷◌, lookup, ok, arith, any, mem,
  insert, keep,
}
use lucius_engineering.Domain.Enums.{
  AuthorityLevel, TaskComplexity, TaskPriority, TaskStatus, AllowedAction, Actor, Environment,
  PersistentWorkflowState,
}
use lucius_engineering.Persistence.Orm.{Task, TaskContract, PersistentWorkflow, Session}
use lucius_engineering.NightShift.Schemas.{
  pos, at_most, NightShiftConfig, NightShiftResult, new_result,
}
use lucius_engineering.NightShift.Services.{
  RuntimeLoopStatus, RuntimeExecutionOutcome, RuntimeTaskRecord, RuntimeLoopResult, Shift, Services,
}
use lucius_engineering.NightShift.Containment.{
  contained, prove_contained_failure, ContainmentSnapshot, capture_snapshots, get_if, read_snapshot,
  workflow_snapshot, containment_evidence, safe_before, safe_after, contain_candidate,
}
use lucius_engineering.NightShift.Containment.Evidence.{
  contained-IsUntouched, IsUntouched, IsSetAside,
}
use lucius_engineering.NightShift.Night.{last_record, extend_unique}
use lucius_engineering.NightShift.Cycle.{
  promote_task, run_cycle, run_task, ask_runtime, task_record, handle_task, promote_in,
  commit_integrated, commit_task, integrate_task, settle_commit, settle_integration,
}
use lucius_engineering.Audit.{record_event}
use lucius_engineering.Domain.Ids.{decimal6, digit, pad, public_id}
use lucius_engineering.Persistence.{
  add_row_id, highest_number, next_id, next_number, parse_digits, persisted_next_number,
  public_id_number, strip_prefix,
}
use lucius_engineering.Pilots.Queue.Selection.{upper_is}
use lucius_engineering.NightShift.Promotion.{
  create_commit_authorized, promotion_rows, promotion_context,
}
use lucius_engineering.NightShift.Loop.{
  run, repeat, turn, turn_of, reached_limit, settle, finish_clean,
}
use lucius_engineering.NightShift.Loop.Report.{IsReport, run-IsReport}
use lucius_engineering.NightShift.Loop.Ending.{run_ends, run_within_limits}

abbrev task : Task
task = record {
  project_id = "LPROJ_000001";
  title = "Add the parser";
  objective = "Parse the manifest";
  priority = TaskPriority.normal;
  complexity = TaskComplexity.t1;
  authority_level = AuthorityLevel.l2;
  status = TaskStatus.running;
  created_by = Actor.human;
  blocker_code = none;
  blocker_message = none;
  blocked_at = none;
  failure_reason = none;
  created_at = 1;
  updated_at = 1;
}

abbrev contract : TaskContract
contract = record {
  task_id = "LTASK_000001";
  version = 1;
  objective = "Parse the manifest";
  acceptance_criteria = [];
  constraints = [];
  repository_ids = [];
  allowed_actions = AllowedAction.create_commit ∷ [];
  allowed_tools = [];
  environment = Environment.development;
  authority_level = AuthorityLevel.l2;
  dependencies = [];
  documentation_required = false;
  documentation_targets = [];
  stop_conditions = [];
  created_at = 1;
  updated_at = 1;
}

abbrev workflow : PersistentWorkflow
workflow = record {
  project_id = some "LPROJ_000001";
  repository_id = some "LREPO_000001";
  repository_snapshot_id = none;
  task_id = some "LTASK_000001";
  plan_id = some "LPLAN_000001";
  plan_freeze_id = some "LFREEZE_000001";
  objective = "Parse the manifest";
  expected_main_head = "abc";
  isolated_branch = "night";
  worktree_path = "/work/candidate";
  workflow_state = PersistentWorkflowState.completed_pending_integration;
  authority_tier = "L2";
  task_backlog = [];
  dependency_graph = [];
  active_task_id = none;
  completed_task_ids = [];
  pending_task_ids = [];
  decisions = [];
  deviations = [];
  repair_counters = [];
  targeted_test_evidence = [];
  full_test_status = [];
  checkpoint_history = [];
  pending_human_approvals = [];
  resume_requirements = [];
  created_at = 1;
  updated_at = 1;
}

abbrev session : Session
session = record {
  ids = record { counters = []; persisted = [] };
  audit = [];
  projects = [];
  registrations = ("LREPO_000001", "/work/canonical") ∷ [];
  attachments = [];
  snapshots = [];
  tasks = ("LTASK_000001", task) ∷ [];
  contracts = ("LCONTRACT_000001", contract) ∷ [];
  runs = [];
  completions = [];
  workflows = ("LWF_000001", workflow) ∷ [];
  checkpoints = [];
  resume_validations = [];
  plans =
      (
        "LPLAN_000001",
        record {
          task_id = "LTASK_000001";
          project_id = "LPROJ_000001";
          task_contract_id = "LCONTRACT_000001";
          task_contract_version = 1;
          risk_level = "low";
        },
      )
      ∷ [];
  freezes =
      (
        "LFREEZE_000001",
        record {
          plan_id = "LPLAN_000001";
          task_id = "LTASK_000001";
          project_id = "LPROJ_000001";
          commit_sha = some "abc";
        },
      )
      ∷ [];
}

-- a runtime that completes one task at each call, and services that do their work; the clock stands
abbrev reported : RuntimeExecutionOutcome → RuntimeLoopResult
reported outcome = record {
  status = RuntimeLoopStatus.completed;
  stopped_reason = none;
  selected_tasks = 1;
  completed_tasks = 1;
  blocked_tasks = 0;
  escalations = 0;
  project_switches = 0;
  provider_ids = "local" ∷ [];
  task_records =
      record {
        workflow_id = "LWF_000001";
        item_id = "ITEM-1";
        project_id = some "LPROJ_000001";
        provider_id = some "local";
        outcome = outcome;
      }
      ∷ [];
}

abbrev services : Services ℕ
services = record {
  run_runtime = λ config shift. (reported RuntimeExecutionOutcome.outcome_completed, shift);
  integrate = λ request shift. (
    record {
      status = "COMPLETED";
      reason = none;
      protected_untracked_hashes = [];
      rollback_attempted = false;
      rollback_succeeded = false;
    },
    shift,
  );
  commit = λ request shift. (
    record {
      status = "COMPLETED";
      reason = none;
      resulting_commit = some "def";
      manual_reconciliation_required = false;
    },
    shift,
  );
  actor = Actor.lucius;
  clock = λ w. (w, w);
  utc_now = λ w. w;
  resolve = λ w path. path;
  current_head = λ w path. ok "abc";
  tracked_worktree_paths = λ w path. ok [];
  staged_paths = λ w path. ok [];
  changed_paths = λ w path. ok ("notes.txt" ∷ []);
  capture_untracked_file_hashes = λ w path. ok (("notes.txt", "1") ∷ []);
  verify_untracked_file_hashes = λ w path hashes. ok tt;
}

abbrev config : NightShiftConfig
config = record {
  workflow_ids = [];
  max_tasks = pos 3;
  max_commits = pos 2;
  max_wall_clock_seconds = pos 3600;
  stop_on_escalation = true;
  stop_on_manual_reconciliation = true;
  dispatcher_count = pos 1;
  allowed_task_complexities = "T0" ∷ "T1" ∷ [];
  allowed_risk_levels = "LOW" ∷ [];
}

abbrev start : Shift ℕ
start = record { session = session; world = 5 }

run_ends_example :
    (r : NightShiftResult) × (shift : Shift ℕ) × (run services config 4 start ≡ some (r, shift))
run_ends_example = run_ends services config start (λ _ _ _ _. omega arith)

-- the night with two commits, after which the limit on commits ends it
abbrev night : Option (NightShiftResult × Shift ℕ)
night = run services config 4 start

abbrev result_or_new : Option (NightShiftResult × Shift ℕ) → NightShiftResult × Shift ℕ
result_or_new none = (new_result, start)
result_or_new (some x) = x

night_result : run services config 4 start ≡ some (result_or_new night)
unfolding run repeat turn turn_of reached_limit at_most settle run_cycle run_task ask_runtime
    task_record last_record handle_task promote_task promote_in promotion_context lookup
    record_event decimal6 digit pad public_id capture_snapshots get_if read_snapshot
    workflow_snapshot commit_integrated commit_task extend_unique integrate_task settle_commit
    settle_integration finish_clean create_commit_authorized promotion_rows add_row_id
    highest_number next_id next_number parse_digits persisted_next_number public_id_number
    strip_prefix upper_is any mem insert
night_result = refl

run-IsReport_example : IsReport (result_or_new night).0
run-IsReport_example =
    run-IsReport services config 4 (result_or_new night).0 start (result_or_new night).1
      night_result

run_within_limits_example :
    ((result_or_new night).0.tasks_selected ≤ 3)
    × ((result_or_new night).0.l2_commits_succeeded ≤ 2)
run_within_limits_example =
    run_within_limits services config 4 (result_or_new night).0 start (result_or_new night).1
      (λ _ _ one. one) night_result

night_commits : (result_or_new night).0.l2_commits_succeeded ≡ 2
unfolding run repeat turn turn_of reached_limit at_most settle run_cycle run_task ask_runtime
    task_record last_record handle_task promote_task promote_in promotion_context lookup
    record_event decimal6 digit pad public_id capture_snapshots get_if read_snapshot
    workflow_snapshot commit_integrated commit_task extend_unique integrate_task settle_commit
    settle_integration finish_clean create_commit_authorized promotion_rows add_row_id
    highest_number next_id next_number parse_digits persisted_next_number public_id_number
    strip_prefix upper_is any mem insert
night_commits = refl

-- a failed task, whose snapshot shows clean repositories
abbrev before : ContainmentSnapshot
before = record {
  workflow_id = "LWF_000001";
  canonical_repository_path = "/work/canonical";
  candidate_workspace_path = "/work/candidate";
  baseline_commit = some "abc";
  canonical_head = "abc";
  canonical_tracked_paths = [];
  canonical_staged_paths = [];
  protected_untracked_hashes = ("notes.txt", "1") ∷ [];
  candidate_head = "abc";
  candidate_changed_paths = [];
}

failure_contained :
    (prove_contained_failure services "LWF_000001" (some before) start).0.status ≡ contained
unfolding prove_contained_failure containment_evidence safe_before safe_after keep mem
    contain_candidate
failure_contained = refl

contained-IsUntouched_example :
    (snapshot : ContainmentSnapshot) × (baseline : String) × (some before ≡ some snapshot)
    × IsUntouched services snapshot baseline 5
    × IsSetAside services "LWF_000001" snapshot start
        (prove_contained_failure services "LWF_000001" (some before) start).1.workflows
contained-IsUntouched_example =
    contained-IsUntouched services "LWF_000001" (some before) start failure_contained

abbrev done : RuntimeTaskRecord
done = record {
  workflow_id = "LWF_000001";
  item_id = "ITEM-1";
  project_id = some "LPROJ_000001";
  provider_id = some "local";
  outcome = RuntimeExecutionOutcome.outcome_completed;
}
