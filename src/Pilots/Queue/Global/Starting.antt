-- ===== src/Pilots/Queue/Global/Starting.antt =====
-- pilots/queue.py: starting the item that a global selection names.
use lucius_engineering.Prelude.{
  ℕ, String, Bool, true, false, ◌&&◌, not, Option, none, some, List, [], ◌∷◌, ◌==◌, eqb, is_empty,
  mem, find_first, Result, ok, err, raise_when,
}
use lucius_engineering.Prelude.{◌>>=◌ as then_result, ◌>>◌ as and_result}
use lucius_engineering.Prelude.Exec.{pure, reads, modify, raise_if, ◌>>=◌, ◌>>◌}
use lucius_engineering.Domain.Enums.{Actor}
use lucius_engineering.Persistence.Orm.{WorkItem, PersistentWorkflow, Session}
use lucius_engineering.Pilots.Queue.Errors
use lucius_engineering.Pilots.Queue.Errors.{QueueError}
use lucius_engineering.Pilots.Queue.Items.{
  is_eligible_state, has_state, workflow_execution_exclusion_reason, item_id_of,
}
use lucius_engineering.Pilots.Queue.Parsed.{QueueItem, is_some, workflow_items}
use lucius_engineering.Pilots.Queue.Selection.{dependencies_complete, running_of}
use lucius_engineering.Pilots.Queue.Guards.{get_workflow, get_item}
use lucius_engineering.Pilots.Queue.Operations.{
  Action, change_item, put_workflow, audit_workflow, with_backlog, mark_started,
}
use lucius_engineering.Pilots.Queue.Global.{
  GlobalQueueSelection, text_or_empty, same_option, global_le, identities_distinct,
  select_global_next,
}

abbrev pub same_version : Option ℕ → Option ℕ → Bool
same_version none none = true
same_version (some a) (some b) = eqb a b
same_version _ _ = false

-- the four fields that make a selection stale when they differ
abbrev pub same_selection : GlobalQueueSelection → GlobalQueueSelection → Bool
same_selection a b =
    same_option a.selected_project_id b.selected_project_id
    && same_option a.selected_workflow_id b.selected_workflow_id
    && same_option a.selected_item_id b.selected_item_id
    && same_version a.selected_item_version b.selected_item_version

-- two selection keys are equal
abbrev pub same_key : QueueItem → QueueItem → Bool
same_key a b = global_le a b && global_le b a

-- the checks of the parsed item against the current selection
unfoldable pub check_selected :
    List QueueItem → List QueueItem → Option QueueItem → Result QueueError (Unit {0})
check_selected parsed eligible none = err Errors.stale_item
check_selected parsed [] (some selected) = err Errors.no_first_item
check_selected parsed (first ∷ rest) (some selected) =
    and_result (raise_when (not selected.schedulable) Errors.global_not_schedulable) (
      and_result
        (raise_when (not (has_state is_eligible_state selected.state)) Errors.global_not_eligible)
        (and_result
          (raise_when (not (dependencies_complete selected parsed))
            Errors.selected_dependencies_incomplete)
          (raise_when (not (same_key selected first)) Errors.stale_ordering)))

-- `_start_global_selection`, up to the first write
unfoldable pub global_guard :
    GlobalQueueSelection → List String → Session → Result QueueError (PersistentWorkflow × WorkItem)
global_guard selection wids s =
    let wid = text_or_empty selection.selected_workflow_id in
    let id = text_or_empty selection.selected_item_id in
    then_result (get_workflow wid s) (λ wf.
      and_result (raise_when (not (is_empty wids) && not (mem wid wids)) Errors.outside_scope) (
        and_result
          (raise_when (is_some (workflow_execution_exclusion_reason wf)) Errors.stale_workflow)
          (then_result (select_global_next wids s) (λ current.
            and_result (raise_when (not (same_selection current selection)) Errors.stale_selection)
              (then_result (workflow_items none wid wf) (λ parsed.
                and_result
                  (raise_when (not (identities_distinct (running_of parsed)))
                    Errors.duplicate_global_running)
                  (and_result (raise_when (not (is_empty (running_of parsed))) Errors.stale_running)
                    (then_result (get_item wf.task_backlog id) (λ item.
                      and_result
                        (check_selected parsed current.eligible_items
                          (find_first (λ (c : QueueItem). c.item_id == id) parsed))
                        (ok (wf, item)))))))))))

unfoldable pub write_global :
    String → String → PersistentWorkflow → WorkItem → ℕ → Session → Session
write_global wid id wf item now s =
    put_workflow wid
      (with_backlog (some (item_id_of (mark_started now item)))
        (change_item id (mark_started now) wf.task_backlog) now wf)
      s

-- the selection names what was written
abbrev pub matches_mutation : GlobalQueueSelection → String → PersistentWorkflow → WorkItem → Bool
matches_mutation selection wid wf item =
    same_option selection.selected_project_id wf.project_id
    && same_option selection.selected_workflow_id (some wid)
    && same_option selection.selected_item_id (some (item_id_of item))

unfoldable pub start_global_selection :
    GlobalQueueSelection → List String → Actor → ℕ → Action (Unit {0})
start_global_selection selection wids actor now = do
  (wf, item) ← reads (global_guard selection wids)
  modify (
      write_global (text_or_empty selection.selected_workflow_id)
        (text_or_empty selection.selected_item_id) wf item now)
  raise_if
      (not (
        matches_mutation selection (text_or_empty selection.selected_workflow_id) wf
          (mark_started now item)))
      Errors.identity_mismatch
  modify (
      audit_workflow wf "GLOBAL_QUEUE_WORK_ITEM_STARTED" "start_global_queue_work_item"
        (item_id_of (mark_started now item)) actor now)

abbrev pub start_named :
    Option String → GlobalQueueSelection → List String → Actor → ℕ → Action (Unit {0})
start_named none selection wids actor now s = (ok tt, s)
start_named (some wid) selection wids actor now s =
    start_global_selection selection wids actor now s

unfoldable pub start_selected_global_item :
    GlobalQueueSelection → List String → Actor → ℕ → Action (Unit {0})
start_selected_global_item selection wids actor now s =
    start_named selection.selected_workflow_id selection wids actor now s

-- the selection is returned without the fields of the started item
unfoldable pub start_global_next : List String → Actor → ℕ → Action GlobalQueueSelection
start_global_next wids actor now = do
  selection ← reads (select_global_next wids)
  start_selected_global_item selection wids actor now
  pure selection
