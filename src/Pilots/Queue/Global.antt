-- ===== src/Pilots/Queue/Global.antt =====
-- pilots/queue.py: the selection of the next item over several workflows.
pub mod Starting
pub mod Choice
pub mod Current
pub mod Inspect
use lucius_engineering.Prelude.{
  ℕ, String, Bool, true, false, ◌&&◌, ◌||◌, not, Option, none, some, List, [], ◌∷◌, ◌++◌, map,
  if◌then◌else◌, ◌==◌, same_option, then_by, then_by_text, eqb, keep, length, is_empty, mem,
  str_leb, Result, ok, err, raise_when, ◌>>=◌, ◌>>◌,
}
use lucius_engineering.Prelude.Sorting.{sorted}
use lucius_engineering.Domain.Enums.{QueueWorkItemState, PersistentWorkflowState}
use lucius_engineering.Persistence.Orm.{PersistentWorkflow, Session}
use lucius_engineering.Pilots.Queue.Errors
use lucius_engineering.Pilots.Queue.Errors.{ExclusionReason, QueueError}
use lucius_engineering.Pilots.Queue.Items.{workflow_execution_exclusion_reason}
use lucius_engineering.Pilots.Queue.Parsed.{QueueItem, workflow_items}
use lucius_engineering.Pilots.Queue.Selection.{
  priority_rank, state_rank, executable, stateful, running_of, eligible_of, blocked_of,
}
use lucius_engineering.Pilots.Queue.Guards.{get_workflow}

-- a workflow with its id
abbrev pub Row : Type 0
Row = String × PersistentWorkflow

-- `[self._workflow(id) for id in workflow_ids]`
unfoldable pub get_rows : List String → Session → Result QueueError (List Row)
get_rows [] s = ok []
get_rows (wid ∷ wids) s = do wf ← get_workflow wid s; rest ← get_rows wids s; ok ((wid, wf) ∷ rest)

abbrev pub row_le : Row → Row → Bool
row_le a b = str_leb a.0 b.0

abbrev pub rows_of : List String → Session → Result QueueError (List Row)
rows_of [] s = ok (sorted row_le s.workflows)
rows_of (wid ∷ wids) s = get_rows (wid ∷ wids) s

-- `_global_workflows`: the workflows that are asked for, or all, without those with no backlog
unfoldable pub global_workflows : List String → Session → Result QueueError (List Row)
global_workflows wids s = do
  rows ← rows_of wids s
  ok (keep (λ (r : Row). not (is_empty r.1.task_backlog)) rows)

-- `_global_items`
unfoldable pub global_items : List Row → Result QueueError (List QueueItem)
global_items [] = ok []
global_items ((wid, wf) ∷ rows) = do
  items ← workflow_items none wid wf
  rest ← global_items rows
  ok (items ++ rest)

-- `GlobalWorkflowExclusion` of pilots/schemas.py.
pub record GlobalWorkflowExclusion : Type 0 where
  pub project_id : Option String
  pub workflow_id : String
  pub workflow_state : PersistentWorkflowState
  pub reason : ExclusionReason
  pub item_count : ℕ
  pub items : List QueueItem

-- What `_partition_global_workflows` makes.
pub record Partition : Type 0 where
  pub schedulable : List Row
  pub excluded : List GlobalWorkflowExclusion

abbrev pub place_row : Row → Option ExclusionReason → Partition → Result QueueError Partition
place_row row none p = ok (record p { schedulable = row ∷ p.schedulable })
place_row (wid, wf) (some reason) p = do
  items ← workflow_items (some reason) wid wf
  let exclusion : GlobalWorkflowExclusion = record {
    project_id = wf.project_id;
    workflow_id = wid;
    workflow_state = wf.workflow_state;
    reason = reason;
    item_count = length wf.task_backlog;
    items = items;
  }
  ok (record p { excluded = exclusion ∷ p.excluded })

abbrev pub no_rows : Partition
no_rows = record { schedulable = []; excluded = [] }

unfoldable pub partition : List Row → Result QueueError Partition
partition [] = ok no_rows
partition (row ∷ rows) = do
  rest ← partition rows
  place_row row (workflow_execution_exclusion_reason row.1) rest

-- `[item for exclusion in lifecycle_excluded for item in exclusion.items]`
unfoldable pub excluded_of : List GlobalWorkflowExclusion → List QueueItem
excluded_of [] = []
excluded_of (exclusion ∷ exclusions) = exclusion.items ++ excluded_of exclusions

abbrev pub text_or_empty : Option String → String
text_or_empty none = ""
text_or_empty (some s) = s

-- `_global_selection_key(a) <= _global_selection_key(b)`
unfoldable pub global_le : QueueItem → QueueItem → Bool
global_le a b = then_by (priority_rank a.priority) (priority_rank b.priority) (
    then_by (state_rank a.state) (state_rank b.state) (
      then_by a.created_order b.created_order (
        then_by_text (text_or_empty a.project_id) (text_or_empty b.project_id)
          (then_by_text a.workflow_id b.workflow_id (str_leb a.item_id b.item_id)))))

-- `(item.project_id, item.logical_task_id)` is among those of the items
unfoldable pub has_identity : QueueItem → List QueueItem → Bool
has_identity item [] = false
has_identity item (i ∷ items) =
    (same_option i.project_id item.project_id && i.logical_task_id == item.logical_task_id)
    || has_identity item items

unfoldable pub identities_distinct : List QueueItem → Bool
identities_distinct [] = true
identities_distinct (i ∷ items) = not (has_identity i items) && identities_distinct items

pub data GlobalReason : Type 0 where
  global_running_active : GlobalReason
  no_global_eligible_work : GlobalReason
  global_chosen : Option String → String → String → Option QueueWorkItemState → ℕ → GlobalReason

-- `GlobalQueueSelection` of pilots/schemas.py; the fields of a started item are left out.
pub record GlobalQueueSelection : Type 0 where
  pub selected_project_id : Option String
  pub selected_workflow_id : Option String
  pub selected_item_id : Option String
  pub selected_item_version : Option ℕ
  pub reason : GlobalReason
  pub eligible_items : List QueueItem
  pub blocked_items : List QueueItem
  pub running_items : List QueueItem
  pub excluded_items : List QueueItem

abbrev pub none_selected :
    GlobalReason → List QueueItem → List QueueItem → List QueueItem → GlobalQueueSelection
none_selected reason blocked running excluded = record {
  selected_project_id = none;
  selected_workflow_id = none;
  selected_item_id = none;
  selected_item_version = none;
  reason = reason;
  eligible_items = [];
  blocked_items = blocked;
  running_items = running;
  excluded_items = excluded;
}

-- `sorted(eligible, key=…)[0]` with its list, or no eligible work
unfoldable pub select_global_first :
    List QueueItem → List QueueItem → List QueueItem → GlobalQueueSelection
select_global_first excluded blocked [] = none_selected no_global_eligible_work blocked [] excluded
select_global_first excluded blocked (selected ∷ rest) = record {
  selected_project_id = selected.project_id;
  selected_workflow_id = some selected.workflow_id;
  selected_item_id = some selected.item_id;
  selected_item_version = some selected.version;
  reason =
      global_chosen selected.project_id selected.workflow_id selected.priority selected.state
        selected.created_order;
  eligible_items = selected ∷ rest;
  blocked_items = blocked;
  running_items = [];
  excluded_items = excluded;
}

-- `select_global_next`, after the items have been parsed
unfoldable pub select_global_from :
    List QueueItem → List QueueItem → Result QueueError GlobalQueueSelection
select_global_from lifecycle_items items = do
  let excluded = lifecycle_items ++ keep (λ (i : QueueItem). not i.schedulable) items
  raise_when (not (identities_distinct (running_of items))) Errors.duplicate_global_running
  ok (
      if is_empty (running_of items)
      then select_global_first excluded (blocked_of items) (sorted global_le (eligible_of items))
      else none_selected global_running_active [] (running_of items) excluded)

unfoldable pub select_global_next : List String → Session → Result QueueError GlobalQueueSelection
select_global_next wids s = do
  rows ← global_workflows wids s
  parts ← partition rows
  items ← global_items parts.schedulable
  select_global_from (excluded_of parts.excluded) items
