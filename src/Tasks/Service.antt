-- ===== src/Tasks/Service.antt =====
-- tasks/service.py: the methods that change a task. Each is an action on the session; `now` is the
-- clock's reading during the call.
pub mod Progress
pub mod Authoring
use lucius_engineering.Prelude.{
  ℕ, String, Bool, true, false, ◌||◌, not, Option, none, some, List, [], ◌∷◌, ◌++◌, any, lookup,
  insert, Result, ok, err, found, raise_when, is_empty,
}
use lucius_engineering.Prelude.Exec.{Exec, pure, reads, modify, ◌>>=◌, ◌>>◌}
use lucius_engineering.Prelude.{◌>>=◌ as then_result, ◌>>◌ as and_result}
use lucius_engineering.Domain.Enums.{Actor, TaskStatus, TaskRunStatus, BlockerCode}
use lucius_engineering.Domain.Blockers.{StructuredBlocker, ContractValidationResult, given}
use lucius_engineering.Domain.Ids.{task_run}
use lucius_engineering.Persistence.{next_id, add_row_id}
use lucius_engineering.Persistence.Orm.{Task, TaskRun, Session}
use lucius_engineering.Audit.{record_event}
use lucius_engineering.Tasks.Errors
use lucius_engineering.Tasks.Errors.{TaskError}
use lucius_engineering.Tasks.Contracts.{
  status_value, same_status, get_task, is_attached, validate_contract,
}

abbrev pub Action : Type 0 → Type 0
Action = Exec Session TaskError

unfoldable pub audit_task :
    String → String → Option String → String → String → String → Actor → ℕ → Session → Session
unfolding record_event
audit_task project id run event_type action result actor now =
    record_event
      (record {
        event_type = event_type;
        actor = actor;
        project_id = some project;
        repository_id = none;
        task_id = some id;
        run_id = run;
        action = action;
        result = result;
      })
      now

unfoldable pub put_task : String → Task → Session → Session
put_task id task s = record s { tasks = insert id task s.tasks }

unfoldable pub is_terminal : TaskStatus → Bool
is_terminal status =
    same_status status TaskStatus.complete || same_status status TaskStatus.cancelled

-- `_task` and `_ensure_transition`
unfoldable pub transition_guard : String → List TaskStatus → Session → Result TaskError Task
transition_guard id allowed s = then_result (get_task id s) (λ task.
    and_result (raise_when (is_terminal task.status) Errors.terminal) (
      and_result
        (raise_when (not (any (same_status task.status) allowed))
          (Errors.invalid_transition task.status))
        (ok task)))

abbrev pub with_status : TaskStatus → ℕ → Task → Task
with_status status now task = record task { status = status; updated_at = now }

-- `_apply_blocker`
unfoldable pub apply_blocker : StructuredBlocker → ℕ → Task → Task
apply_blocker blocker now task = record task {
  status = TaskStatus.blocked;
  blocker_code = some blocker.code;
  blocker_message = some blocker.message;
  blocked_at = some now;
  updated_at = now;
}

unfoldable pub make_ready : ℕ → Task → Task
make_ready now task = record task {
  status = TaskStatus.ready;
  blocker_code = none;
  blocker_message = none;
  blocked_at = none;
  updated_at = now;
}

-- the task after `mark_ready`, by the blockers that were found
unfoldable pub write_ready : String → Task → List StructuredBlocker → Actor → ℕ → Session → Session
write_ready id task [] actor now s =
    audit_task task.project_id id none "TASK_READY" "mark_ready" "SUCCESS" actor now
      (put_task id (make_ready now task) s)
write_ready id task (blocker ∷ blockers) actor now s =
    audit_task task.project_id id none "TASK_BLOCKED" "mark_ready" "BLOCKED" actor now (
      audit_task task.project_id id none "POLICY_BLOCK" "mark_ready" "BLOCKED" actor now
        (put_task id (apply_blocker blocker now task) s))

unfoldable pub mark_ready : String → Actor → ℕ → Action ContractValidationResult
mark_ready id actor now = do
  task ←
      reads (transition_guard id (TaskStatus.draft ∷ TaskStatus.blocked ∷ TaskStatus.failed ∷ []))
  result ← reads (validate_contract id)
  modify (write_ready id task result.blockers actor now)
  pure result

-- `_validate_snapshot_binding`, when there is a snapshot
unfoldable pub snapshot_guard : Task → Option String → Session → Result TaskError (Unit {0})
snapshot_guard task none s = ok tt
snapshot_guard task (some snapshot) s =
    then_result (found (Errors.unknown_snapshot snapshot) (lookup snapshot s.snapshots))
      (λ repository.
        raise_when (not (is_attached task.project_id repository s.attachments))
          Errors.snapshot_not_attached)

unfoldable pub start_guard : String → Option String → Session → Result TaskError Task
start_guard id snapshot s = then_result (get_task id s) (λ task.
    and_result (raise_when (not (same_status task.status TaskStatus.ready)) Errors.not_ready)
      (and_result (snapshot_guard task snapshot s) (ok task)))

-- The optional texts that `start_run` stores with a run.
pub record RunDetails : Type 0 where
  pub model_provider : Option String
  pub model_name : Option String
  pub input_summary : Option String

unfoldable pub new_run : String → Option String → RunDetails → Actor → ℕ → TaskRun
new_run id snapshot details actor now = record {
  task_id = id;
  snapshot_id = snapshot;
  status = TaskRunStatus.running;
  actor = actor;
  model_provider = details.model_provider;
  model_name = details.model_name;
  started_at = now;
  finished_at = none;
  input_summary = details.input_summary;
  output_summary = none;
  failure_reason = none;
}

unfoldable pub write_run :
    String → Task → Option String → RunDetails → Actor → ℕ → Session → Session
write_run id task snapshot details actor now s =
    let (run_id, ids) = next_id task_run s.ids in
    let added = record s {
      ids = add_row_id run_id ids;
      runs = insert run_id (new_run id snapshot details actor now) s.runs;
      tasks = insert id (with_status TaskStatus.running now task) s.tasks;
    } in
    audit_task task.project_id id (some run_id) "TASK_RUN_STARTED" "start_run" "SUCCESS" actor now
      added

unfoldable pub start_run : String → Option String → RunDetails → Actor → ℕ → Action (Unit {0})
start_run id snapshot details actor now = do
  task ← reads (start_guard id snapshot)
  modify (write_run id task snapshot details actor now)

unfoldable pub write_block : String → Task → BlockerCode → String → Actor → ℕ → Session → Session
write_block id task code message actor now s =
    audit_task task.project_id id none "TASK_BLOCKED" "block_task" "BLOCKED" actor now
      (put_task id (apply_blocker (record { code = code; message = given message }) now task) s)

unfoldable pub block_task : String → BlockerCode → String → Actor → ℕ → Action (Unit {0})
block_task id code message actor now = do
  task ← reads (
      transition_guard id
        (TaskStatus.draft ∷ TaskStatus.ready ∷ TaskStatus.running ∷ TaskStatus.blocked ∷ []))
  modify (write_block id task code message actor now)
