-- ===== src/Pilots/Queue/Operations.antt =====
-- pilots/queue.py: the methods that change the items of one workflow. Each is an action on the
-- session that raises before it writes. `now` is the clock's reading during the call.
pub mod Changes
use lucius_engineering.Prelude.{
  ℕ, ◌+◌, String, Bool, true, false, ◌&&◌, ◌||◌, not, Option, none, some, List, [], ◌∷◌, ◌++◌, map,
  if◌then◌else◌, ◌==◌, eqb, keep, find_first, mem, is_empty, lookup, insert, Result, ok, err, found,
  refuse, str_leb,
}
use lucius_engineering.Prelude.Exec.{Exec, pure, reads, modify, raise_if, ◌>>=◌, ◌>>◌}
use lucius_engineering.Prelude.Sorting.{sorted}
use lucius_engineering.Domain.Enums.{Actor, QueueWorkItemState, item_state_value, parse_item_state}
use lucius_engineering.Domain.Ids.{queue_checkpoint}
use lucius_engineering.Domain.Json.{JsonDict}
use lucius_engineering.Persistence.{next_id}
use lucius_engineering.Persistence.Orm.{
  RawField, missing, none_value, text, QueueBlockCheckpoint, WorkItem, PersistentWorkflow, Session,
}
use lucius_engineering.Audit.{record_event}
use lucius_engineering.Pilots.Queue.Errors
use lucius_engineering.Pilots.Queue.Errors.{QueueError, ExclusionReason}
use lucius_engineering.Pilots.Queue.Guards.{has_id, start_guard}
use lucius_engineering.Pilots.Queue.Items.{
  str_of, is_blocked_state, is_terminal_state, is_eligible_state, is_completed_state, has_state,
  workflow_execution_exclusion_reason, item_id_of, int_or_zero, state_of, state_if_valid,
}
use lucius_engineering.Pilots.Queue.Parsed.{QueueItem, execution_items}
use lucius_engineering.Pilots.Queue.Selection.{QueueSelection, select_next}

abbrev pub Action : Type 0 → Type 0
Action = Exec Session QueueError

-- the items after a change of the first one with the id, the dictionary that `_item` returned
unfoldable pub change_item : String → (WorkItem → WorkItem) → List WorkItem → List WorkItem
change_item id f [] = []
change_item id f (item ∷ items) =
    let rest = change_item id f items in if has_id id item then f item ∷ items else item ∷ rest

unfoldable pub set_state : QueueWorkItemState → ℕ → WorkItem → WorkItem
set_state q now item = record item {
  state = text (item_state_value q);
  version = some (int_or_zero item.version + 1);
  updated_at = some now;
}

unfoldable pub put_workflow : String → PersistentWorkflow → Session → Session
put_workflow wid wf s = record s { workflows = insert wid wf s.workflows }

-- an audit record with the identity of a workflow
unfoldable pub audit_workflow :
    PersistentWorkflow → String → String → String → Actor → ℕ → Session → Session
unfolding record_event
audit_workflow wf event_type action result actor now =
    record_event
      (record {
        event_type = event_type;
        actor = actor;
        project_id = wf.project_id;
        repository_id = wf.repository_id;
        task_id = wf.task_id;
        run_id = none;
        action = action;
        result = result;
      })
      now

unfoldable pub mark_started : ℕ → WorkItem → WorkItem
mark_started now item =
    let started = set_state QueueWorkItemState.running now item in
    record started {
      started_at = some now;
      run_generation = some (int_or_zero item.run_generation + 1);
    }

-- `workflow.active_task_id = …`, the new backlog and the new time
unfoldable pub with_backlog :
    Option String → List WorkItem → ℕ → PersistentWorkflow → PersistentWorkflow
with_backlog active items now wf = record wf {
  active_task_id = active;
  task_backlog = items;
  updated_at = now;
}

-- `start_next` with an item selected
unfoldable pub write_start :
    String → PersistentWorkflow → WorkItem → String → Actor → ℕ → Session → Session
write_start wid wf item id actor now s =
    let started = mark_started now item in
    let items = change_item id (mark_started now) wf.task_backlog in
    audit_workflow wf "QUEUE_WORK_ITEM_STARTED" "start_queue_work_item" (item_id_of started) actor
      now (put_workflow wid (with_backlog (some (item_id_of started)) items now wf) s)

-- Nothing is written when no item is selected.
abbrev pub write_selected :
    String → Actor → ℕ → PersistentWorkflow × QueueSelection × Option WorkItem → Session → Session
write_selected wid actor now (wf, selection, none) s = s
write_selected wid actor now (wf, selection, some item) s =
    write_start wid wf item (str_of selection.selected_item_id) actor now s

unfoldable pub start_next : String → Actor → ℕ → Action QueueSelection
start_next wid actor now = do
  start ← reads (start_guard wid)
  modify (write_selected wid actor now start)
  pure start.1
