-- ===== src/Runtime/Mission.antt =====
-- runtime/mission.py: missions that wait for resources, dependencies and decisions, and their tables of
-- persistence/orm.py. Of a mission's and of a wait's metadata the model keeps the entries that this code
-- reads or writes under its own keys, not those that a caller passes in; the ids that `uuid` makes are
-- arguments; a moment is a number of seconds.
pub mod Reconcile
pub mod Waits
use lucius_engineering.Prelude.{
  ℕ, ◌+◌, max, String, Bool, true, false, ◌&&◌, ◌||◌, not, Option, none, some, List, [], ◌∷◌, ◌++◌,
  map, if◌then◌else◌, ◌==◌, is_text, leb, ltb, eqb, any, all, keep, length, is_empty, Table, lookup,
  insert, Result, ok, err, found, raise_when, ◌>>=◌, ◌>>◌,
}
use lucius_engineering.Domain.Enums.{Actor, QueueWorkItemState, item_state_value}
use lucius_engineering.Persistence.Orm.{
  RawField, missing, none_value, text, WorkItem, PersistentWorkflow, Session,
}
use lucius_engineering.Audit.{record_event}

-- domain/enums.py
pub data MissionStatus : Type 0 where
  active waiting sleeping paused interrupted completed failed cancelled : MissionStatus

pub data DurableWaitClass : Type 0 where
  resource resource_short resource_long dependency schedule human authority decision :
      DurableWaitClass

pub record MissionAttempt : Type 0 where
  pub attempt_id : String
  pub started_at : ℕ
  pub recovered : Bool

pub record Interruption : Type 0 where
  pub attempt_id : Option String
  pub timestamp : ℕ
  pub reason : String

pub record SleepingMetadata : Type 0 where
  pub earliest_wake_at : Option ℕ
  pub unresolved_dependencies : List String
  pub blocked_authority_decisions : List String

pub record DurableMission : Type 0 where
  pub canonical_sha : String
  pub status : MissionStatus
  pub completed_tasks_count : ℕ
  pub waiting_tasks_count : ℕ
  pub blocked_tasks_count : ℕ
  pub current_attempt_id : Option String
  pub attempts : List MissionAttempt
  pub last_interruption : Option Interruption
  pub sleeping_metadata : Option SleepingMetadata
  pub updated_at : ℕ

-- `required_paths` and `can_resume` are entries of a wait's metadata: the files that a dependency waits
-- for, and whether a provider is available again or the caller lets the item resume.
pub record DurableWait : Type 0 where
  pub mission_id : String
  pub item_id : Option String
  pub task_id : Option String
  pub wait_class : DurableWaitClass
  pub reason : String
  pub retry_after : Option ℕ
  pub cleared_at : Option ℕ
  pub is_cleared : Bool
  pub required_paths : List String
  pub can_resume : Bool

pub record MissionStore : Type 0 where
  pub session : Session
  pub missions : Table DurableMission
  pub waits : Table DurableWait

pub data MissionError : Type 0 where
  mission_not_found : String → MissionError
  canonical_sha_mismatch : String → String → MissionError

-- `i.get("state") in states`
abbrev pub in_states : List QueueWorkItemState → WorkItem → Bool
in_states states item = state_in item.state
  where
    state_in : RawField → Bool
    state_in (text raw) = any (λ q. item_state_value q == raw) states
    state_in _ = false

-- `_get_all_items`
unfoldable pub all_items : Table PersistentWorkflow → List WorkItem
all_items [] = []
all_items ((wid, wf) ∷ workflows) = wf.task_backlog ++ all_items workflows

abbrev pub is_item : String → WorkItem → Bool
is_item id item = is_text item.id id || is_text item.item_id id || is_text item.logical_task_id id

abbrev pub set_item : String → QueueWorkItemState → WorkItem → WorkItem
set_item id state item =
    if is_item id item then record item { state = text (item_state_value state) } else item

-- `_update_item_state`: every item with the id in the first workflow that has one
unfoldable pub update_item_state :
    String → QueueWorkItemState → Table PersistentWorkflow → Table PersistentWorkflow
update_item_state id state [] = []
update_item_state id state ((wid, wf) ∷ workflows) =
    let rest = update_item_state id state workflows in
    if any (is_item id) wf.task_backlog
    then (wid, record wf { task_backlog = map (set_item id state) wf.task_backlog }) ∷ workflows
    else (wid, wf) ∷ rest
