-- ===== src/Tasks/Contracts.antt =====
-- tasks/service.py: the active contract of a task, and `validate_contract`.
use lucius_engineering.Prelude.{
  String, Bool, true, false, ◌&&◌, Option, none, some, List, [], ◌∷◌, ◌++◌, if◌then◌else◌, ◌==◌,
  ltb, is_empty, is_blank, mem, any, Table, lookup, Result, found, ok, ◌>>=◌,
}
use lucius_engineering.Domain.Enums.{ProjectStatus, TaskStatus, BlockerCode}
use lucius_engineering.Domain.Blockers.{
  BlockerMessage, StructuredBlocker, ContractValidationResult, project_missing, project_not_active,
  no_active_contract, objective_blank, criteria_missing, documentation_targets_missing,
  repository_not_attached, depends_on_itself, dependency_missing, dependency_cycle,
  dependency_not_complete,
}
use lucius_engineering.Persistence.Orm.{Task, TaskContract, Session}
use lucius_engineering.Tasks.Errors
use lucius_engineering.Tasks.Errors.{TaskError}
use lucius_engineering.Tasks.Policy.{validate_authority}

abbrev pub status_value : TaskStatus → String
status_value TaskStatus.draft = "DRAFT"
status_value TaskStatus.ready = "READY"
status_value TaskStatus.running = "RUNNING"
status_value TaskStatus.blocked = "BLOCKED"
status_value TaskStatus.implementation_complete = "IMPLEMENTATION_COMPLETE"
status_value TaskStatus.documentation_pending = "DOCUMENTATION_PENDING"
status_value TaskStatus.complete = "COMPLETE"
status_value TaskStatus.failed = "FAILED"
status_value TaskStatus.cancelled = "CANCELLED"

-- The comparison of two members is the comparison of their values.
abbrev pub same_status : TaskStatus → TaskStatus → Bool
same_status p q = status_value p == status_value q

abbrev pub is_active : ProjectStatus → Bool
is_active ProjectStatus.active = true
is_active _ = false

-- `_task`
unfoldable pub get_task : String → Session → Result TaskError Task
get_task id s = found (Errors.unknown_task id) (lookup id s.tasks)

-- Of two contracts, the one that `ORDER BY version DESC` puts first.
abbrev pub newer :
    String × TaskContract → Option (String × TaskContract) → Option (String × TaskContract)
newer c none = some c
newer c (some d) = if ltb c.1.version d.1.version then some d else some c

-- `_active_contract`, with its id
unfoldable pub active_contract : String → Table TaskContract → Option (String × TaskContract)
active_contract id [] = none
active_contract id ((cid, contract) ∷ rows) =
    let rest = active_contract id rows in
    if contract.task_id == id then newer (cid, contract) rest else rest

abbrev pub one : BlockerCode → BlockerMessage → List StructuredBlocker
one code message = record { code = code; message = message } ∷ []

abbrev pub is_attached : String → String → List (String × String) → Bool
is_attached project repository rows =
    any (λ (r : String × String). r.0 == project && r.1 == repository) rows

abbrev pub is_known {ℓ} : {A : Type ℓ} → Option A → Bool
is_known none = false
is_known (some a) = true

-- `_validate_repositories`, the loop
unfoldable pub validate_repositories : String → List String → Session → List StructuredBlocker
validate_repositories project [] s = []
validate_repositories project (repository ∷ repositories) s =
    let rest = validate_repositories project repositories s in
    if is_known (lookup repository s.registrations) && is_attached project repository s.attachments
    then rest
    else one BlockerCode.missing_repository (repository_not_attached repository) ++ rest

-- `dependency_contract and task.id in dependency_contract.dependencies`
abbrev pub depends_back : String → Option (String × TaskContract) → Bool
depends_back id none = false
depends_back id (some c) = mem id c.1.dependencies

unfoldable pub check_dependency : String → String → Option Task → Session → List StructuredBlocker
check_dependency id dependency_id none s =
    one BlockerCode.dependency_blocked (dependency_missing dependency_id)
check_dependency id dependency_id (some dependency) s =
    (if depends_back id (active_contract dependency_id s.contracts)
      then one BlockerCode.dependency_blocked (dependency_cycle dependency_id)
      else [])
    ++ (if same_status dependency.status TaskStatus.complete
        then []
        else one BlockerCode.dependency_blocked
            (dependency_not_complete dependency_id dependency.status))

-- `_validate_dependencies`, the loop
unfoldable pub validate_dependencies : String → List String → Session → List StructuredBlocker
validate_dependencies id [] s = []
validate_dependencies id (dependency ∷ dependencies) s =
    let rest = validate_dependencies id dependencies s in
    (if dependency == id
      then one BlockerCode.dependency_blocked depends_on_itself
      else check_dependency id dependency (lookup dependency s.tasks) s)
    ++ rest

abbrev pub project_blockers : Option ProjectStatus → List StructuredBlocker
project_blockers none = one BlockerCode.invalid_contract project_missing
project_blockers (some status) =
    if is_active status then [] else one BlockerCode.project_inactive (project_not_active status)

unfoldable pub contract_blockers : String → Task → TaskContract → Session → List StructuredBlocker
contract_blockers id task contract s =
    (if is_blank contract.objective then one BlockerCode.invalid_contract objective_blank else [])
    ++ (if is_empty contract.acceptance_criteria
        then one BlockerCode.invalid_contract criteria_missing
        else [])
    ++ (if contract.documentation_required && is_empty contract.documentation_targets
        then one BlockerCode.documentation_required documentation_targets_missing
        else [])
    ++ validate_repositories task.project_id contract.repository_ids s
    ++ validate_dependencies id contract.dependencies s
    ++ validate_authority task.authority_level contract.authority_level contract.allowed_actions
        contract.environment

-- The result of a list of blockers: valid when there is none.
abbrev pub result_of : List StructuredBlocker → ContractValidationResult
result_of blockers = record { valid = is_empty blockers; blockers = blockers }

-- `validate_contract` on the contract that was found
abbrev pub validate_active :
    String
    → Task
    → List StructuredBlocker
    → Option (String × TaskContract)
    → Session
    → ContractValidationResult
validate_active id task first none s = record {
  valid = false;
  blockers = first ++ one BlockerCode.invalid_contract no_active_contract;
}
validate_active id task first (some c) s = result_of (first ++ contract_blockers id task c.1 s)

unfoldable pub validate_contract : String → Session → Result TaskError ContractValidationResult
validate_contract id s = do
  task ← get_task id s
  ok (
      validate_active id task (project_blockers (lookup task.project_id s.projects))
        (active_contract id s.contracts) s)
