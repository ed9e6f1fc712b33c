-- ===== src/Tasks/Service/Progress.antt =====
-- tasks/service.py: the methods that take a running task to its end: failure, implementation,
-- documentation, completion and cancellation.
use lucius_engineering.Prelude.{
  ℕ, String, Bool, false, ◌||◌, not, Option, none, some, List, [], ◌∷◌, if◌then◌else◌, ◌==◌, Table,
  lookup, insert, ok, is_empty, keep, mem, distinct, str_leb,
}
use lucius_engineering.Prelude.Exec.{pure, reads, modify, ◌>>=◌, ◌>>◌}
use lucius_engineering.Prelude.Sorting.{sorted}
use lucius_engineering.Domain.Enums.{Actor, TaskStatus, TaskRunStatus, BlockerCode}
use lucius_engineering.Domain.Blockers.{
  ContractValidationResult, documentation_evidence_required, documentation_targets_incomplete,
}
use lucius_engineering.Domain.Ids.{documentation_completion}
use lucius_engineering.Persistence.{next_id, add_row_id}
use lucius_engineering.Persistence.Orm.{
  Task, TaskContract, TaskRun, DocumentationCompletion, Session,
}
use lucius_engineering.Tasks.Contracts.{same_status, get_task, active_contract, one, result_of}
use lucius_engineering.Tasks.Service.{Action, audit_task, put_task, transition_guard, with_status}

-- `run = session.get(TaskRunORM, run_id); if run: …`
abbrev pub change_found : String → (TaskRun → TaskRun) → Option TaskRun → Session → Session
change_found id f none s = s
change_found id f (some run) s = record s { runs = insert id (f run) s.runs }

-- the same under `if run_id:`
unfoldable pub change_run : Option String → (TaskRun → TaskRun) → Session → Session
change_run none f s = s
change_run (some String.[]) f s = s
change_run (some (String.◌∷◌ c id)) f s =
    change_found (String.◌∷◌ c id) f (lookup (String.◌∷◌ c id) s.runs) s

unfoldable pub failed_run : String → ℕ → TaskRun → TaskRun
failed_run reason now run = record run {
  status = TaskRunStatus.failed;
  finished_at = some now;
  failure_reason = some reason;
}

unfoldable pub succeeded_run : Option String → ℕ → TaskRun → TaskRun
succeeded_run summary now run = record run {
  status = TaskRunStatus.succeeded;
  finished_at = some now;
  output_summary = summary;
}

unfoldable pub write_failure :
    String → Task → String → Option String → Actor → ℕ → Session → Session
write_failure id task reason run actor now s =
    let failed = record (with_status TaskStatus.failed now task) { failure_reason = some reason } in
    audit_task task.project_id id run "TASK_FAILED" "fail_task" "FAILED" actor now
      (change_run run (failed_run reason now) (put_task id failed s))

unfoldable pub fail_task : String → String → Option String → Actor → ℕ → Action (Unit {0})
fail_task id reason run actor now = do
  task ←
      reads (transition_guard id (TaskStatus.running ∷ TaskStatus.blocked ∷ TaskStatus.ready ∷ []))
  modify (write_failure id task reason run actor now)

unfoldable pub write_implemented :
    String → Task → Option String → Option String → Actor → ℕ → Session → Session
write_implemented id task run summary actor now s =
    audit_task task.project_id id run "TASK_IMPLEMENTATION_COMPLETE" "mark_implementation_complete"
      "SUCCESS" actor now
      (change_run run (succeeded_run summary now)
        (put_task id (with_status TaskStatus.implementation_complete now task) s))

unfoldable pub mark_implementation_complete :
    String → Option String → Option String → Actor → ℕ → Action (Unit {0})
mark_implementation_complete id run summary actor now = do
  task ← reads (transition_guard id (TaskStatus.running ∷ []))
  modify (write_implemented id task run summary actor now)

-- a change of the status alone, and its audit event
unfoldable pub write_status :
    TaskStatus → String → String → String → Task → Actor → ℕ → Session → Session
write_status status event_type action id task actor now s =
    audit_task task.project_id id none event_type action "SUCCESS" actor now
      (put_task id (with_status status now task) s)

unfoldable pub mark_documentation_pending : String → Actor → ℕ → Action (Unit {0})
mark_documentation_pending id actor now = do
  task ← reads (transition_guard id (TaskStatus.implementation_complete ∷ []))
  modify (
      write_status TaskStatus.documentation_pending "TASK_DOCUMENTATION_PENDING"
        "mark_documentation_pending" id task actor now)

-- `scalar(select(DocumentationCompletionORM).where(task_id == …))`, with its id
unfoldable pub completion_of :
    String → Table DocumentationCompletion → Option (String × DocumentationCompletion)
completion_of id [] = none
completion_of id ((cid, completion) ∷ rows) =
    let rest = completion_of id rows in
    if completion.task_id == id then some (cid, completion) else rest

abbrev pub put_completion : String → DocumentationCompletion → Session → Session
put_completion cid completion s = record s { completions = insert cid completion s.completions }

-- The completion is stored in the row of the task, or in a new one.
abbrev pub write_completion :
    Option (String × DocumentationCompletion) → DocumentationCompletion → Session → Session
write_completion (some c) completion s = put_completion c.0 completion s
write_completion none completion s =
    let (cid, ids) = next_id documentation_completion s.ids in
    put_completion cid completion (record s { ids = add_row_id cid ids })

unfoldable pub store_completion : String → DocumentationCompletion → Session → Session
store_completion id completion s = write_completion (completion_of id s.completions) completion s

unfoldable pub record_documentation_completion :
    String → List String → List String → Actor → ℕ → Action (Unit {0})
record_documentation_completion id targets evidence completed_by now = do
  task ← reads (get_task id)
  modify (
      store_completion id (record {
        task_id = id;
        targets_completed = targets;
        evidence_references = evidence;
        completed_at = now;
        completed_by = completed_by;
      }))

-- `sorted(set(targets) - set(completed))`
abbrev pub missing_targets : List String → List String → List String
missing_targets targets completed =
    sorted str_leb (distinct (keep (λ t. not (mem t completed)) targets))

-- Whether a completion is there with evidence.
abbrev pub has_evidence : Option (String × DocumentationCompletion) → Bool
has_evidence none = false
has_evidence (some c) = not (is_empty c.1.evidence_references)

abbrev pub targets_of : Option (String × DocumentationCompletion) → List String
targets_of none = []
targets_of (some c) = c.1.targets_completed

-- What the documentation gate of `complete_task` finds: nothing, no evidence, or missing targets.
pub data DocumentationGate : Type 0 where
  satisfied : DocumentationGate
  no_evidence : DocumentationGate
  incomplete : List String → DocumentationGate

abbrev pub gate_of_missing : List String → DocumentationGate
gate_of_missing [] = satisfied
gate_of_missing (t ∷ ts) = incomplete (t ∷ ts)

abbrev pub contract_gate :
    Option (String × TaskContract)
    → Task
    → Option (String × DocumentationCompletion)
    → DocumentationGate
contract_gate none task completion = satisfied
contract_gate (some c) task completion =
    if not c.1.documentation_required
    then satisfied
    else if not (same_status task.status TaskStatus.documentation_pending)
        || not (has_evidence completion)
    then no_evidence
    else gate_of_missing (missing_targets c.1.documentation_targets (targets_of completion))

unfoldable pub documentation_gate : String → Task → Session → DocumentationGate
documentation_gate id task s =
    contract_gate (active_contract id s.contracts) task (completion_of id s.completions)

-- the session and the result for what the gate found
unfoldable pub write_complete : String → Task → DocumentationGate → Actor → ℕ → Session → Session
write_complete id task satisfied actor now s =
    write_status TaskStatus.complete "TASK_COMPLETE" "complete_task" id task actor now s
write_complete id task no_evidence actor now s =
    audit_task task.project_id id none "POLICY_BLOCK" "complete_task" "BLOCKED" actor now s
write_complete id task (incomplete targets) actor now s = s

unfoldable pub gate_result : DocumentationGate → ContractValidationResult
gate_result satisfied = result_of []
gate_result no_evidence =
    result_of (one BlockerCode.documentation_required documentation_evidence_required)
gate_result (incomplete targets) =
    result_of (one BlockerCode.documentation_required (documentation_targets_incomplete targets))

unfoldable pub complete_task : String → Actor → ℕ → Action ContractValidationResult
complete_task id actor now = do
  task ← reads (
      transition_guard id
        (TaskStatus.implementation_complete ∷ TaskStatus.documentation_pending ∷ []))
  gate ← reads (λ s. ok (documentation_gate id task s))
  modify (write_complete id task gate actor now)
  pure (gate_result gate)

unfoldable pub cancel_task : String → Actor → ℕ → Action (Unit {0})
cancel_task id actor now = do
  task ← reads (
      transition_guard id
        (TaskStatus.draft ∷ TaskStatus.ready ∷ TaskStatus.running ∷ TaskStatus.blocked ∷ []))
  modify (write_status TaskStatus.cancelled "TASK_CANCELLED" "cancel_task" id task actor now)
