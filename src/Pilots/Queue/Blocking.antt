-- ===== src/Pilots/Queue/Blocking.antt =====
-- pilots/queue.py: blocking a running or a selected item, and resolving the block.
use lucius_engineering.Prelude.{
  ℕ, String, Option, none, some, List, [], ◌∷◌, ◌++◌, if◌then◌else◌, mem, ok,
}
use lucius_engineering.Prelude.Exec.{pure, reads, modify, ◌>>=◌, ◌>>◌}
use lucius_engineering.Domain.Enums.{Actor, QueueWorkItemState, item_state_value}
use lucius_engineering.Domain.Ids.{queue_checkpoint}
use lucius_engineering.Domain.Json.{JsonDict}
use lucius_engineering.Persistence.{next_id}
use lucius_engineering.Persistence.Orm.{
  checkpoint_entry, QueueBlockCheckpoint, WorkItem, PersistentWorkflow,
}
use lucius_engineering.Pilots.Queue.Items.{int_or_zero}
use lucius_engineering.Pilots.Queue.Guards.{block_guard, dispatch_guard, blocked_guard}
use lucius_engineering.Pilots.Queue.Operations.{
  Action, change_item, set_state, put_workflow, audit_workflow, with_backlog,
}

-- The arguments that `block_running_item` and `block_dispatch_selected_item` share; an empty list or
-- dictionary stands for `None` too, which the code treats alike.
pub record BlockRequest : Type 0 where
  pub blocking_state : QueueWorkItemState
  pub blocking_reason : String
  pub blocker_category : String
  pub resume_condition : String
  pub work_completed : List String
  pub implementation_head : Option String
  pub pending_decision_or_dependency : Option String
  pub known_risks : List String
  pub relevant_artifacts : List String
  pub repair_counters : JsonDict
  pub approval_requirements : List String
  pub next_safe_action : String
  pub stale_state_validation_requirements : List String

-- `a or b` of two lists
abbrev pub or_else_list {ℓ} : {A : Type ℓ} → List A → List A → List A
or_else_list [] b = b
or_else_list (x ∷ xs) b = x ∷ xs

abbrev default_requirements : List String
default_requirements =
    "current_block_checkpoint_id matches" ∷ "item_state matches blocking_state"
    ∷ "item_version matches checkpoint item_version" ∷ []

-- the checkpoint that both methods build
unfoldable pub make_checkpoint :
    String
    → String
    → String
    → PersistentWorkflow
    → WorkItem
    → QueueWorkItemState
    → BlockRequest
    → ℕ
    → QueueBlockCheckpoint
make_checkpoint id wid item_id wf item prior req now = record {
  id = id;
  workflow_id = wid;
  item_id = item_id;
  prior_state = prior;
  blocking_state = req.blocking_state;
  blocking_reason = req.blocking_reason;
  blocker_category = req.blocker_category;
  work_completed = or_else_list req.work_completed item.completed_substeps;
  implementation_head = req.implementation_head;
  pending_decision_or_dependency = req.pending_decision_or_dependency;
  resume_condition = req.resume_condition;
  known_risks = req.known_risks;
  relevant_artifacts = req.relevant_artifacts;
  repair_counters = or_else_list req.repair_counters wf.repair_counters;
  approval_requirements = req.approval_requirements;
  next_safe_action = req.next_safe_action;
  stale_state_validation_requirements =
      or_else_list req.stale_state_validation_requirements default_requirements;
  created_at = now;
}

-- `_merge_substeps`
unfoldable pub merge_substeps : List String → List String → List String
merge_substeps merged [] = merged
merge_substeps merged (substep ∷ additional) =
    merge_substeps (if mem substep merged then merged else merged ++ substep ∷ []) additional

-- what both methods write into the item
unfoldable pub mark_blocked : QueueBlockCheckpoint → ℕ → WorkItem → WorkItem
mark_blocked checkpoint now item = set_state checkpoint.blocking_state now (record item {
  block_checkpoints =
      item.block_checkpoints
      ++ record { checkpoint = checkpoint; item_version = int_or_zero item.version } ∷ [];
  current_block_checkpoint_id = some checkpoint.id;
  blocked_at = some now;
  blocking_reason = some checkpoint.blocking_reason;
  blocker_category = some checkpoint.blocker_category;
  resume_condition = some checkpoint.resume_condition;
  work_completed = checkpoint.work_completed;
  completed_substeps = merge_substeps item.completed_substeps checkpoint.work_completed;
})

-- `next_id(session, "queue_checkpoint")`: a queue checkpoint is no row of its own
unfoldable pub fresh_checkpoint_id : Action String
fresh_checkpoint_id s =
    let (id, ids) = next_id queue_checkpoint s.ids in (ok id, record s { ids = ids })

-- the tail of both methods, from the checkpoint on
unfoldable pub write_block :
    String
    → String
    → PersistentWorkflow
    → WorkItem
    → QueueWorkItemState
    → BlockRequest
    → String
    → Actor
    → ℕ
    → Action QueueBlockCheckpoint
write_block wid item_id wf item prior req action actor now = do
  id ← fresh_checkpoint_id
  let checkpoint = make_checkpoint id wid item_id wf item prior req now
  let items = change_item item_id (mark_blocked checkpoint now) wf.task_backlog
  let blocked = with_backlog none items now wf
  modify (
      put_workflow wid (record blocked {
        checkpoint_history = wf.checkpoint_history ++ checkpoint_entry checkpoint.id ∷ [];
      }))
  modify (
      audit_workflow wf "QUEUE_WORK_ITEM_BLOCKED" action (item_state_value req.blocking_state) actor
        now)
  pure checkpoint

unfoldable pub block_running_item :
    String → String → BlockRequest → Actor → ℕ → Action QueueBlockCheckpoint
block_running_item wid item_id req actor now = do
  (wf, item, prior) ← reads (block_guard wid item_id req.blocking_state)
  write_block wid item_id wf item prior req "block_queue_work_item" actor now

unfoldable pub block_dispatch_selected_item :
    String
    → String
    → QueueWorkItemState
    → ℕ
    → BlockRequest
    → Actor
    → ℕ
    → Action QueueBlockCheckpoint
block_dispatch_selected_item wid item_id expected expected_version req actor now = do
  (wf, item, prior) ←
      reads (dispatch_guard wid item_id req.blocking_state expected expected_version)
  write_block wid item_id wf item prior req "block_dispatch_selected_queue_work_item" actor now

unfoldable pub mark_resolved : String → ℕ → WorkItem → WorkItem
mark_resolved resolution_event now item =
    set_state QueueWorkItemState.ready_to_resume now
      (record item { resolution_event = some resolution_event; resolved_at = some now })

unfoldable pub resolve_blocker : String → String → String → ℕ → String → Actor → ℕ → Action WorkItem
resolve_blocker wid item_id checkpoint_id expected_version resolution_event actor now = do
  (wf, item) ← reads (blocked_guard wid item_id checkpoint_id expected_version)
  let items = change_item item_id (mark_resolved resolution_event now) wf.task_backlog
  modify (put_workflow wid (with_backlog wf.active_task_id items now wf))
  modify (
      audit_workflow wf "QUEUE_WORK_ITEM_READY_TO_RESUME" "resolve_queue_blocker" "READY_TO_RESUME"
        actor now)
  pure (mark_resolved resolution_event now item)
