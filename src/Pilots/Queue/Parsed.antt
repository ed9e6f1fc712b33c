-- ===== src/Pilots/Queue/Parsed.antt =====
-- pilots/queue.py: `_global_items`, which parses the dictionaries of a backlog into queue items.
use lucius_engineering.Prelude.{
  ℕ, String, Bool, true, false, ◌&&◌, not, Option, none, some, List, [], ◌∷◌, map, mem, Result, ok,
  refuse,
}
use lucius_engineering.Domain.Enums.{QueueWorkItemState}
use lucius_engineering.Persistence.Orm.{WorkItem, PersistentWorkflow}
use lucius_engineering.Pilots.Queue.Errors.{ExclusionReason, QueueError, duplicate_item_id}
use lucius_engineering.Pilots.Queue.Items.{
  item_id_of, logical_id_of, int_or_zero, parse_global_state, parse_global_priority,
}

-- `GlobalQueueItem` of pilots/schemas.py.
pub record QueueItem : Type 0 where
  pub project_id : Option String
  pub workflow_id : String
  pub repository_id : Option String
  pub workflow_task_id : Option String
  pub item_id : String
  pub logical_task_id : String
  pub title : Option String
  pub state : Option QueueWorkItemState
  pub state_label : String
  pub raw_state : Option String
  pub priority : String
  pub raw_priority : Option String
  pub created_order : ℕ
  pub version : ℕ
  pub dependencies : List String
  pub current_block_checkpoint_id : Option String
  pub queue_state_present : Bool
  pub priority_valid : Bool
  pub schedulable : Bool
  pub exclusion_reason : Option ExclusionReason
  pub item : WorkItem

abbrev pub is_some {ℓ} : {A : Type ℓ} → Option A → Bool
is_some none = false
is_some (some a) = true

abbrev pub or_else {ℓ} : {A : Type ℓ} → Option A → Option A → Option A
or_else none b = b
or_else (some a) b = some a

-- one round of the inner loop of `_global_items`
unfoldable pub queue_item :
    Option ExclusionReason → String → PersistentWorkflow → WorkItem → QueueItem
queue_item reason wid wf item =
    let s = parse_global_state item.state in
    let p = parse_global_priority item.priority in
    let excluded = or_else reason (or_else s.exclusion_reason p.exclusion_reason) in
    record {
      project_id = wf.project_id;
      workflow_id = wid;
      repository_id = wf.repository_id;
      workflow_task_id = wf.task_id;
      item_id = item_id_of item;
      logical_task_id = logical_id_of item;
      title = item.title;
      state = s.state;
      state_label = s.state_label;
      raw_state = s.raw_state;
      priority = p.priority;
      raw_priority = p.raw_priority;
      created_order = int_or_zero item.created_order;
      version = int_or_zero item.version;
      dependencies = item.dependencies;
      current_block_checkpoint_id = item.current_block_checkpoint_id;
      queue_state_present = is_some s.state;
      priority_valid = not (is_some p.exclusion_reason);
      schedulable = is_some s.state && not (is_some excluded);
      exclusion_reason = excluded;
      item = item;
    }

-- `len(xs) == len(set(xs))`
unfoldable pub all_distinct : List String → Bool
all_distinct [] = true
all_distinct (x ∷ xs) = not (mem x xs) && all_distinct xs

-- `_global_items` of one workflow, after `_validate_unique_item_ids`.
unfoldable pub workflow_items :
    Option ExclusionReason → String → PersistentWorkflow → Result QueueError (List QueueItem)
workflow_items reason wid wf =
    refuse (not (all_distinct (map item_id_of wf.task_backlog))) duplicate_item_id
      (ok (map (queue_item reason wid wf) wf.task_backlog))

unfoldable pub execution_items : String → PersistentWorkflow → Result QueueError (List QueueItem)
unfolding workflow_items
execution_items wid wf = workflow_items none wid wf
