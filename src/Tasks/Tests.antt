-- ===== src/Tasks/Tests.antt =====
-- Concrete runs of the task service.
use lucius_engineering.Prelude.{
  ◌≡◌, ◌↔◌, refl, true, none, some, [], ◌∷◌, lookup, ok, is_blank, mem, keep, distinct, any,
}
use lucius_engineering.Prelude.Sorting.{sorted}
use lucius_engineering.Domain.Enums.{
  ProjectStatus, AuthorityLevel, TaskComplexity, TaskPriority, TaskStatus,
  AcceptanceCriterionStatus, AllowedAction, Actor, Environment,
}
use lucius_engineering.Domain.Blockers.{ContractValidationResult}
use lucius_engineering.Persistence.Orm.{Task, TaskContract, DocumentationCompletion, Session}
use lucius_engineering.Tasks.Errors
use lucius_engineering.Tasks.Policy.{
  validate_authority, action_blockers, action_authority, environment_authority,
}
use lucius_engineering.Tasks.Policy.Exact.{IsAuthorized, validate_authority-IsAuthorized}
use lucius_engineering.Tasks.Contracts.{
  active_contract, get_task, contract_blockers, validate_contract, validate_repositories,
  validate_dependencies,
}
use lucius_engineering.Tasks.Service.{is_terminal, with_status, mark_ready, transition_guard}
use lucius_engineering.Tasks.Service.Progress.{
  complete_task, documentation_gate, completion_of, gate_result,
}
use lucius_engineering.Tasks.Calls.{TaskEvent, ready, run}
use lucius_engineering.Tasks.Calls.Reachable.{Trace, run-Trace, run-terminal}
use lucius_engineering.Tasks.Calls.Readiness.{IsDecided, mark_ready-IsDecided}
use lucius_engineering.Tasks.Calls.Gate.{IsDocumented, complete_task-IsDocumented}

abbrev task_in : TaskStatus → Task
task_in status = record {
  project_id = "LPROJ_000001";
  title = "Add the parser";
  objective = "Parse the manifest";
  priority = TaskPriority.normal;
  complexity = TaskComplexity.t1;
  authority_level = AuthorityLevel.l1;
  status = status;
  created_by = Actor.human;
  blocker_code = none;
  blocker_message = none;
  blocked_at = none;
  failure_reason = none;
  created_at = 1;
  updated_at = 1;
}

abbrev contract : TaskContract
contract = record {
  task_id = "LTASK_000001";
  version = 1;
  objective = "Parse the manifest";
  acceptance_criteria =
      record { id = "AC-001"; statement = "It parses"; status = AcceptanceCriterionStatus.pending }
      ∷ [];
  constraints = [];
  repository_ids = [];
  allowed_actions = AllowedAction.write_source ∷ [];
  allowed_tools = [];
  environment = Environment.sandbox;
  authority_level = AuthorityLevel.l1;
  dependencies = [];
  documentation_required = true;
  documentation_targets = "README.md" ∷ [];
  stop_conditions = [];
  created_at = 1;
  updated_at = 1;
}

abbrev completion : DocumentationCompletion
completion = record {
  task_id = "LTASK_000001";
  targets_completed = "README.md" ∷ [];
  evidence_references = "LEVID_000001" ∷ [];
  completed_at = 3;
  completed_by = Actor.human;
}

abbrev session_in : TaskStatus → Session
session_in status = record {
  ids = record { counters = []; persisted = [] };
  audit = [];
  projects = ("LPROJ_000001", ProjectStatus.active) ∷ [];
  registrations = [];
  attachments = [];
  snapshots = [];
  tasks = ("LTASK_000001", task_in status) ∷ [];
  contracts = ("LCONTR_000001", contract) ∷ [];
  runs = [];
  completions = ("LDOC_000001", completion) ∷ [];
  workflows = [];
  checkpoints = [];
  resume_validations = [];
  plans = [];
  freezes = [];
}

abbrev event : TaskEvent
event = record { task_id = "LTASK_000001"; call = ready; actor = Actor.human; now = 5 }

stored_in :
    (status : TaskStatus) → lookup "LTASK_000001" (session_in status).tasks ≡ some (task_in status)
unfolding lookup
stored_in status = refl

run-Trace_example :
    (row' : Task) × (lookup "LTASK_000001" (run (event ∷ []) (session_in TaskStatus.draft)).tasks
      ≡ some row')
    × Trace "LTASK_000001" (event ∷ []) (task_in TaskStatus.draft) row'
run-Trace_example =
    run-Trace (event ∷ []) "LTASK_000001" (session_in TaskStatus.draft) (stored_in TaskStatus.draft)

cancelled_is_terminal : is_terminal TaskStatus.cancelled ≡ true
unfolding is_terminal
cancelled_is_terminal = refl

run-terminal_example :
    lookup "LTASK_000001" (run (event ∷ []) (session_in TaskStatus.cancelled)).tasks
    ≡ some (task_in TaskStatus.cancelled)
run-terminal_example =
    run-terminal (event ∷ []) "LTASK_000001" (session_in TaskStatus.cancelled)
      (stored_in TaskStatus.cancelled) cancelled_is_terminal

validate_authority-IsAuthorized_example :
    (validate_authority AuthorityLevel.l1 AuthorityLevel.l1
        (AllowedAction.create_commit ∷ [])
        Environment.staging
      ≡ [])
    ↔ IsAuthorized AuthorityLevel.l1 AuthorityLevel.l1
        (AllowedAction.create_commit ∷ [])
        Environment.staging
validate_authority-IsAuthorized_example =
    validate_authority-IsAuthorized AuthorityLevel.l1 AuthorityLevel.l1
      (AllowedAction.create_commit ∷ []) Environment.staging

abbrev validated : ContractValidationResult
validated = record { valid = true; blockers = [] }

abbrev readied : Session
readied = (mark_ready "LTASK_000001" Actor.human 5 (session_in TaskStatus.draft)).1

ready_returns :
    mark_ready "LTASK_000001" Actor.human 5 (session_in TaskStatus.draft) ≡ (ok validated, readied)
unfolding mark_ready transition_guard validate_contract get_task lookup is_terminal any
    active_contract contract_blockers is_blank validate_repositories validate_dependencies
    validate_authority action_blockers action_authority environment_authority
ready_returns = refl

mark_ready-IsDecided_example :
    (task : Task) × (lookup "LTASK_000001" readied.tasks ≡ some task) × IsDecided validated task
mark_ready-IsDecided_example =
    mark_ready-IsDecided "LTASK_000001" Actor.human 5 (session_in TaskStatus.draft) ready_returns

abbrev completed : Session
completed =
    (complete_task "LTASK_000001" Actor.human 5 (session_in TaskStatus.documentation_pending)).1

complete_returns :
    complete_task "LTASK_000001" Actor.human 5 (session_in TaskStatus.documentation_pending)
    ≡ (ok validated, completed)
unfolding complete_task transition_guard get_task lookup is_terminal any active_contract
    documentation_gate completion_of gate_result keep mem distinct sorted
complete_returns = refl

contract_is_active :
    active_contract "LTASK_000001" (session_in TaskStatus.documentation_pending).contracts
    ≡ some ("LCONTR_000001", contract)
unfolding active_contract
contract_is_active = refl

complete_task-IsDocumented_example :
    (task : Task) × (lookup "LTASK_000001" (session_in TaskStatus.documentation_pending).tasks
      ≡ some task)
    × (lookup "LTASK_000001" completed.tasks ≡ some (with_status TaskStatus.complete 5 task))
    × IsDocumented task contract
        (completion_of "LTASK_000001" (session_in TaskStatus.documentation_pending).completions)
complete_task-IsDocumented_example =
    complete_task-IsDocumented "LTASK_000001" Actor.human 5
      (session_in TaskStatus.documentation_pending) complete_returns refl
      ("LCONTR_000001", contract) contract_is_active refl
