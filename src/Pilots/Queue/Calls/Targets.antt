-- ===== src/Pilots/Queue/Calls/Targets.antt =====
-- What the guards of the queue's methods say of their targets, and what the changes of an item keep.
use lucius_engineering.Prelude.{
  ℕ, String, ◌≡◌, refl, true, false, Option, some, List, arith, lookup, ok,
}
use lucius_engineering.Domain.Enums.{QueueWorkItemState, parse-value_item_state}
use lucius_engineering.Domain.Json.{Json, JsonDict}
use lucius_engineering.Persistence.Orm.{QueueBlockCheckpoint, WorkItem, PersistentWorkflow, Session}
use lucius_engineering.Pilots.Queue.Items.{
  is_blocked_state, is_running_state, item_id_of, state_of, state_if_valid,
}
use lucius_engineering.Pilots.Queue.Guards.{
  get_workflow, get_item, find_target, block_guard, dispatch_guard, blocked_guard, complete_guard,
}
use lucius_engineering.Pilots.Queue.Operations.{set_state, mark_started}
use lucius_engineering.Pilots.Queue.Operations.Changes.{KeepsId}
use lucius_engineering.Pilots.Queue.Calls.Running.{is_running_item}
use lucius_engineering.Pilots.Queue.Blocking.{mark_blocked, mark_resolved}
use lucius_engineering.Pilots.Queue.Repair.{mark_repaired}
use lucius_engineering.Pilots.Queue.Completion.{mark_completed}

-- the state that `set_state` writes is read back
pub state-set_state :
    (q : QueueWorkItemState) (now : ℕ) (item : WorkItem)
    → state_if_valid (set_state q now item).state ≡ some q
unfolding set_state state_if_valid state_of
state-set_state q now item = rw (parse-value_item_state q, state_if_valid, state_of)

-- What a guard that lets a call pass says of the call's target.
pub record IsTarget (wid id : String) (s : Session) (wf : PersistentWorkflow) (item : WorkItem)
    : Type 0 where
  pub stored : lookup wid s.workflows ≡ some wf
  pub target : get_item wf.task_backlog id ≡ ok item

module _ (wid id : String) (s : Session) {wf : PersistentWorkflow} {item : WorkItem} where
  pub find_target-IsTarget : find_target wid id s ≡ ok (wf, item) → IsTarget wid id s wf item
  unfolding find_target get_workflow
  find_target-IsTarget h = record { stored = ground arith; target = ground arith }

  pub blocked_guard-find :
      (checkpoint : String) (version : ℕ)
      → blocked_guard wid id checkpoint version s ≡ ok (wf, item)
      → find_target wid id s ≡ ok (wf, item)
  unfolding blocked_guard
  blocked_guard-find checkpoint version h = ground arith

  pub block_guard-find :
      (q : QueueWorkItemState) {prior : QueueWorkItemState}
      → block_guard wid id q s ≡ ok (wf, item, prior)
      → find_target wid id s ≡ ok (wf, item)
  unfolding block_guard
  block_guard-find q h = ground arith

  pub block_guard-blocked :
      (q : QueueWorkItemState) {prior : QueueWorkItemState}
      → block_guard wid id q s ≡ ok (wf, item, prior)
      → is_blocked_state q ≡ true
  unfolding block_guard
  block_guard-blocked q h = ground arith

  pub dispatch_guard-blocked :
      (q expected : QueueWorkItemState) (version : ℕ) {prior : QueueWorkItemState}
      → dispatch_guard wid id q expected version s ≡ ok (wf, item, prior)
      → is_blocked_state q ≡ true
  unfolding dispatch_guard
  dispatch_guard-blocked q expected version h = ground arith

  pub dispatch_guard-find :
      (q expected : QueueWorkItemState) (version : ℕ) {prior : QueueWorkItemState}
      → dispatch_guard wid id q expected version s ≡ ok (wf, item, prior)
      → find_target wid id s ≡ ok (wf, item)
  unfolding dispatch_guard
  dispatch_guard-find q expected version h = ground arith

  pub complete_guard-find :
      complete_guard wid id s ≡ ok (wf, item) → find_target wid id s ≡ ok (wf, item)
  unfolding complete_guard find_target
  complete_guard-find h = ground arith

pub keeps-mark_started : (now : ℕ) → KeepsId (mark_started now)
unfolding mark_started set_state item_id_of
keeps-mark_started now item = refl

pub keeps-mark_blocked :
    (checkpoint : QueueBlockCheckpoint) (now : ℕ) → KeepsId (mark_blocked checkpoint now)
unfolding mark_blocked set_state item_id_of
keeps-mark_blocked checkpoint now item = refl

pub keeps-mark_resolved : (event : String) (now : ℕ) → KeepsId (mark_resolved event now)
unfolding mark_resolved set_state item_id_of
keeps-mark_resolved event now item = refl

pub keeps-mark_repaired :
    (timeout : Option Json) (patch : JsonDict) (now : ℕ) → KeepsId (mark_repaired timeout patch now)
unfolding mark_repaired item_id_of
keeps-mark_repaired timeout patch now item = refl

pub keeps-mark_completed :
    (substeps : List String) (now : ℕ) → KeepsId (mark_completed substeps now)
unfolding mark_completed set_state item_id_of
keeps-mark_completed substeps now item = refl

-- no call but `start_next` makes an item run
not_running-set_state :
    (q : QueueWorkItemState) (now : ℕ) (item : WorkItem)
    → is_running_state q ≡ false
    → is_running_item (set_state q now item) ≡ true
    → ⊥
not_running-set_state q now item n h = ground (arith, state-set_state q now item)

pub not_running-mark_blocked :
    (cp : QueueBlockCheckpoint) (now : ℕ) (item : WorkItem)
    → is_blocked_state cp.blocking_state ≡ true
    → is_running_item (mark_blocked cp now item) ≡ true
    → ⊥
unfolding mark_blocked
not_running-mark_blocked cp now item q h =
    not_running-set_state cp.blocking_state now _ (ground arith) h

pub not_running-mark_resolved :
    (event : String) (now : ℕ) (item : WorkItem)
    → is_running_item (mark_resolved event now item) ≡ true
    → ⊥
unfolding mark_resolved
not_running-mark_resolved event now item h =
    not_running-set_state QueueWorkItemState.ready_to_resume now _ refl h

pub not_running-mark_completed :
    (substeps : List String) (now : ℕ) (item : WorkItem)
    → is_running_item (mark_completed substeps now item) ≡ true
    → ⊥
unfolding mark_completed
not_running-mark_completed substeps now item h =
    not_running-set_state QueueWorkItemState.completed now _ refl h
