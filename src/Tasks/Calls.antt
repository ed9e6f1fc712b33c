-- ===== src/Tasks/Calls.antt =====
-- The calls on one task of the task service, as data, so that histories of calls can be spoken of.
pub mod Steps
pub mod Raising
pub mod Lifecycle
pub mod Reachable
pub mod Readiness
pub mod Gate
use lucius_engineering.Prelude.{ℕ, String, Option, none, some, List, [], ◌∷◌, Result, ok, err}
use lucius_engineering.Domain.Enums.{Actor, BlockerCode}
use lucius_engineering.Persistence.Orm.{Session}
use lucius_engineering.Tasks.Errors.{TaskError}
use lucius_engineering.Tasks.Service.{RunDetails, mark_ready, start_run, block_task}
use lucius_engineering.Tasks.Service.Authoring.{ContractUpdate, create_or_update_contract}
use lucius_engineering.Tasks.Service.Progress.{
  fail_task, mark_implementation_complete, mark_documentation_pending,
  record_documentation_completion, complete_task, cancel_task,
}

pub data TaskCall : Type 0 where
  ready : TaskCall
  start : Option String → RunDetails → TaskCall
  block : BlockerCode → String → TaskCall
  fail : String → Option String → TaskCall
  implemented : Option String → Option String → TaskCall
  documentation_pending : TaskCall
  documented : List String → List String → TaskCall
  complete : TaskCall
  cancel : TaskCall
  author : ContractUpdate → TaskCall

-- the session after a call on a task, whether the call returns or raises
unfoldable pub perform : String → TaskCall → Actor → ℕ → Session → Session
perform id ready actor now s = (mark_ready id actor now s).1
perform id (start snapshot details) actor now s = (start_run id snapshot details actor now s).1
perform id (block code message) actor now s = (block_task id code message actor now s).1
perform id (fail reason run) actor now s = (fail_task id reason run actor now s).1
perform id (implemented run summary) actor now s =
    (mark_implementation_complete id run summary actor now s).1
perform id documentation_pending actor now s = (mark_documentation_pending id actor now s).1
perform id (documented targets evidence) actor now s =
    (record_documentation_completion id targets evidence actor now s).1
perform id complete actor now s = (complete_task id actor now s).1
perform id cancel actor now s = (cancel_task id actor now s).1
perform id (author args) actor now s = (create_or_update_contract id args actor now s).1

abbrev pub error_of : {A : Type 0} → Result TaskError A → Option TaskError
error_of (ok a) = none
error_of (err e) = some e

-- the error that a call raises, if it raises one
unfoldable pub raised : String → TaskCall → Actor → ℕ → Session → Option TaskError
raised id ready actor now s = error_of (mark_ready id actor now s).0
raised id (start snapshot details) actor now s =
    error_of (start_run id snapshot details actor now s).0
raised id (block code message) actor now s = error_of (block_task id code message actor now s).0
raised id (fail reason run) actor now s = error_of (fail_task id reason run actor now s).0
raised id (implemented run summary) actor now s =
    error_of (mark_implementation_complete id run summary actor now s).0
raised id documentation_pending actor now s = error_of (mark_documentation_pending id actor now s).0
raised id (documented targets evidence) actor now s =
    error_of (record_documentation_completion id targets evidence actor now s).0
raised id complete actor now s = error_of (complete_task id actor now s).0
raised id cancel actor now s = error_of (cancel_task id actor now s).0
raised id (author args) actor now s = error_of (create_or_update_contract id args actor now s).0

-- one call of a history: the task, the call, who makes it and when
pub record TaskEvent : Type 0 where
  pub task_id : String
  pub call : TaskCall
  pub actor : Actor
  pub now : ℕ

unfoldable pub run : List TaskEvent → Session → Session
run [] s = s
run (e ∷ es) s = run es (perform e.task_id e.call e.actor e.now s)
