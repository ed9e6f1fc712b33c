-- ===== src/Pilots/Queue/Completion.antt =====
-- pilots/queue.py: completing an item, and the completed and pending ids of a workflow.
pub mod Exact
use lucius_engineering.Prelude.{
  ℕ, String, Bool, true, false, not, ◌||◌, Option, none, some, List, [], ◌∷◌, if◌then◌else◌, ◌==◌,
  mem, distinct, map, keep, Result, ok, err, str_leb,
}
use lucius_engineering.Prelude.Exec.{Exec, pure, reads, modify, raise_if, ◌>>=◌, ◌>>◌}
use lucius_engineering.Prelude.Sorting.{sorted}
use lucius_engineering.Domain.Enums.{Actor, QueueWorkItemState, parse_item_state}
use lucius_engineering.Persistence.Orm.{
  RawField, missing, none_value, text, WorkItem, PersistentWorkflow, Session,
}
use lucius_engineering.Pilots.Queue.Errors
use lucius_engineering.Pilots.Queue.Errors.{QueueError}
use lucius_engineering.Pilots.Queue.Items.{
  is_terminal_state, is_completed_state, is_running_state, is_resumable_state, has_state,
  workflow_execution_exclusion_reason, item_id_of, state_if_valid,
}
use lucius_engineering.Pilots.Queue.Operations.{
  Action, change_item, set_state, put_workflow, audit_workflow, with_backlog,
}
use lucius_engineering.Pilots.Queue.Blocking.{merge_substeps}
use lucius_engineering.Pilots.Queue.Guards.{holds_text, complete_guard}

abbrev pub is_completed_item : WorkItem → Bool
is_completed_item item = has_state is_completed_state (state_if_valid item.state)

-- an invalid state counts as pending
abbrev pub is_pending_item : WorkItem → Bool
is_pending_item item = not (has_state is_terminal_state (state_if_valid item.state))

-- `sorted(_completed_item_ids_for_completion(items))`
unfoldable pub completed_ids : List WorkItem → List String
completed_ids items = sorted str_leb (distinct (map item_id_of (keep is_completed_item items)))

-- `sorted(_pending_item_ids_for_completion(items))`
unfoldable pub pending_ids : List WorkItem → List String
pending_ids items = sorted str_leb (distinct (map item_id_of (keep is_pending_item items)))

unfoldable pub mark_completed : List String → ℕ → WorkItem → WorkItem
mark_completed substeps now item = set_state QueueWorkItemState.completed now (record item {
  completed_substeps = merge_substeps item.completed_substeps substeps;
  completed_at = some now;
})

unfoldable pub complete_item : String → String → List String → Actor → ℕ → Action WorkItem
complete_item wid item_id substeps actor now = do
  (wf, item) ← reads (complete_guard wid item_id)
  let items = change_item item_id (mark_completed substeps now) wf.task_backlog
  let active = if holds_text wf.active_task_id item_id then none else wf.active_task_id
  let completed = with_backlog active items now wf
  modify (
      put_workflow wid (record completed {
        completed_task_ids = completed_ids items;
        pending_task_ids = pending_ids items;
      }))
  modify
      (audit_workflow wf "QUEUE_WORK_ITEM_COMPLETED" "complete_queue_work_item" item_id actor now)
  pure (mark_completed substeps now item)
