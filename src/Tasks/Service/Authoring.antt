-- ===== src/Tasks/Service/Authoring.antt =====
-- tasks/service.py: `create_task` and `create_or_update_contract`.
use lucius_engineering.Prelude.{
  ℕ, String, Bool, false, not, Option, none, some, List, [], lookup, insert, Result, ok, found,
}
use lucius_engineering.Prelude.Exec.{pure, reads, modify, raise_if, ◌>>=◌, ◌>>◌}
use lucius_engineering.Domain.Enums.{
  ProjectStatus, AuthorityLevel, TaskComplexity, TaskPriority, TaskStatus, Actor, Environment,
}
use lucius_engineering.Domain.Ids.{task, task_contract}
use lucius_engineering.Persistence.{next_id, add_row_id}
use lucius_engineering.Persistence.Orm.{Task, TaskContract, Session}
use lucius_engineering.Tasks.Errors
use lucius_engineering.Tasks.Errors.{TaskError}
use lucius_engineering.Tasks.Contracts.{is_active, get_task, active_contract}
use lucius_engineering.Tasks.Criteria.{
  CriterionInput, ActionInput, normalize_acceptance_criteria, coerce_actions,
}
use lucius_engineering.Tasks.Service.{Action, audit_task, put_task}

-- The arguments of `create_task`.
pub record TaskCreate : Type 0 where
  pub project_id : String
  pub title : String
  pub objective : String
  pub priority : TaskPriority
  pub complexity : TaskComplexity
  pub authority_level : AuthorityLevel

-- `_project`
unfoldable pub get_project : String → Session → Result TaskError ProjectStatus
get_project id s = found (Errors.unknown_project id) (lookup id s.projects)

unfoldable pub new_task : TaskCreate → Actor → ℕ → Task
new_task args actor now = record {
  project_id = args.project_id;
  title = args.title;
  objective = args.objective;
  priority = args.priority;
  complexity = args.complexity;
  authority_level = args.authority_level;
  status = TaskStatus.draft;
  created_by = actor;
  blocker_code = none;
  blocker_message = none;
  blocked_at = none;
  failure_reason = none;
  created_at = now;
  updated_at = now;
}

unfoldable pub write_task : TaskCreate → Actor → ℕ → Session → Session
write_task args actor now s =
    let (id, ids) = next_id task s.ids in
    audit_task args.project_id id none "TASK_CREATED" "create_task" "SUCCESS" actor now
      (put_task id (new_task args actor now) (record s { ids = add_row_id id ids }))

-- The id of the new task is the next one.
unfoldable pub create_task : TaskCreate → Actor → ℕ → Action String
create_task args actor now = do
  status ← reads (get_project args.project_id)
  raise_if (not (is_active status)) Errors.project_inactive
  id ← reads (λ s. ok (next_id task s.ids).0)
  modify (write_task args actor now)
  pure id

-- The arguments of `create_or_update_contract`; a list that is not given is empty.
pub record ContractUpdate : Type 0 where
  pub objective : String
  pub acceptance_criteria : List CriterionInput
  pub constraints : List String
  pub repository_ids : List String
  pub allowed_actions : List ActionInput
  pub allowed_tools : List String
  pub environment : Environment
  pub authority_level : AuthorityLevel
  pub dependencies : List String
  pub documentation_required : Bool
  pub documentation_targets : List String
  pub stop_conditions : List String

-- The row that the constructor makes: a column that is not set yet is empty here.
unfoldable pub blank_contract : String → ℕ → TaskContract
blank_contract id now = record {
  task_id = id;
  version = 1;
  objective = "";
  acceptance_criteria = [];
  constraints = [];
  repository_ids = [];
  allowed_actions = [];
  allowed_tools = [];
  environment = Environment.sandbox;
  authority_level = AuthorityLevel.l0;
  dependencies = [];
  documentation_required = false;
  documentation_targets = [];
  stop_conditions = [];
  created_at = now;
  updated_at = now;
}

unfoldable pub put_contract : String → TaskContract → Session → Session
put_contract cid contract s = record s { contracts = insert cid contract s.contracts }

-- the active contract, or a new one that is added to the session
abbrev pub contract_or_new :
    String → ℕ → Option (String × TaskContract) → Action (String × TaskContract × String)
contract_or_new id now (some c) s = (ok (c.0, c.1, "TASK_CONTRACT_UPDATED"), s)
contract_or_new id now none s =
    let (cid, ids) = next_id task_contract s.ids in
    (
      ok (cid, blank_contract id now, "TASK_CONTRACT_CREATED"),
      put_contract cid (blank_contract id now) (record s { ids = add_row_id cid ids }),
    )

-- The columns are assigned in the order of the source, so what an error leaves is there.
unfoldable pub create_or_update_contract : String → ContractUpdate → Actor → ℕ → Action String
create_or_update_contract id args actor now = do
  owner ← reads (get_task id)
  latest ← reads (λ s. ok (active_contract id s.contracts))
  (cid, contract, event_type) ← contract_or_new id now latest
  modify (put_contract cid (record contract { objective = args.objective }))
  criteria ← reads (λ s. normalize_acceptance_criteria args.acceptance_criteria)
  modify (
      put_contract cid (record contract {
        objective = args.objective;
        acceptance_criteria = criteria;
        constraints = args.constraints;
        repository_ids = args.repository_ids;
      }))
  actions ← reads (λ s. coerce_actions args.allowed_actions)
  modify (
      put_contract cid (record contract {
        objective = args.objective;
        acceptance_criteria = criteria;
        constraints = args.constraints;
        repository_ids = args.repository_ids;
        allowed_actions = actions;
        allowed_tools = args.allowed_tools;
        environment = args.environment;
        authority_level = args.authority_level;
        dependencies = args.dependencies;
        documentation_required = args.documentation_required;
        documentation_targets = args.documentation_targets;
        stop_conditions = args.stop_conditions;
        updated_at = now;
      }))
  modify (
      audit_task owner.project_id id none event_type "create_or_update_contract" "SUCCESS" actor
        now)
  pure cid
