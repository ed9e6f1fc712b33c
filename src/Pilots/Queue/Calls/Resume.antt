-- ===== src/Pilots/Queue/Calls/Resume.antt =====
-- Blocking an item and resolving the block.
use lucius_engineering.Prelude.{
  ℕ, ◌+◌, String, ◌≡◌, ap, subst, true, none, [], ◌∷◌, ◌++◌, arith, eqb, eq_refl,
  lookup-insert_self, Result, ok, err, Result-cases, inl, inr, if◌then◌else◌,
}
use lucius_engineering.Domain.Enums.{Actor, QueueWorkItemState, parse-value_item_state}
use lucius_engineering.Domain.Ids.{queue_checkpoint}
use lucius_engineering.Persistence.{next_id}
use lucius_engineering.Persistence.Orm.{
  checkpoint_entry, QueueBlockCheckpoint, WorkItem, PersistentWorkflow, Session,
}
use lucius_engineering.Pilots.Queue.Errors
use lucius_engineering.Pilots.Queue.Errors.{QueueError}
use lucius_engineering.Pilots.Queue.Items.{is_blocked_state, state_of}
use lucius_engineering.Pilots.Queue.Guards.{
  get_workflow, get_item, find_target, block_guard, blocked_guard,
}
use lucius_engineering.Pilots.Queue.Operations.{
  change_item, set_state, put_workflow, audit_workflow, with_backlog,
}
use lucius_engineering.Pilots.Queue.Operations.Changes.{get_item-change_item}
use lucius_engineering.Pilots.Queue.Blocking.{
  BlockRequest, make_checkpoint, mark_blocked, mark_resolved, write_block, fresh_checkpoint_id,
  block_running_item, resolve_blocker,
}
use lucius_engineering.Pilots.Queue.Calls.Targets.{
  find_target-IsTarget, block_guard-blocked, keeps-mark_blocked,
}
use lucius_engineering.Pilots.Queue.Calls.Effects.{version_of}

same_checkpoint :
    {c d : QueueBlockCheckpoint}
    → (let r : Result QueueError QueueBlockCheckpoint = ok c in r) ≡ ok d
    → c ≡ d
same_checkpoint e = cc e

module _ (wid id : String) where
  -- the guard of `resolve_blocker`, at an item that `mark_blocked` left
  blocked_guard-blocked_item :
      (t : Session) (cp : QueueBlockCheckpoint) (now v : ℕ) (wf : PersistentWorkflow)
      (item : WorkItem)
      → find_target wid id t ≡ ok (wf, mark_blocked cp now item)
      → is_blocked_state cp.blocking_state ≡ true
      → blocked_guard wid id cp.id v t ≡ (
          if eqb (version_of item + 1) v
          then ok (wf, mark_blocked cp now item)
          else err Errors.stale_item_version)
  unfolding blocked_guard mark_blocked set_state state_of
  blocked_guard-blocked_item t cp now v wf item h b =
      rw h (rw (eq_refl cp.id, parse-value_item_state cp.blocking_state) (ground arith))

  -- the item that a block leaves behind is found in the new session
  find_target-write_block :
      (s : Session) (wf : PersistentWorkflow) (item : WorkItem) (prior : QueueWorkItemState)
      (req : BlockRequest) (action : String) (actor : Actor) (now : ℕ) (cp : QueueBlockCheckpoint)
      → find_target wid id s ≡ ok (wf, item)
      → (write_block wid id wf item prior req action actor now s).0 ≡ ok cp
      → (wf' : PersistentWorkflow) × (find_target wid id
            (write_block wid id wf item prior req action actor now s).1
          ≡ ok (wf', mark_blocked cp now item))
        × (cp.blocking_state ≡ req.blocking_state)
  unfolding write_block fresh_checkpoint_id put_workflow audit_workflow with_backlog find_target
      get_workflow make_checkpoint
  find_target-write_block s wf item prior req action actor now cp h e =
      let id' = (next_id queue_checkpoint s.ids).0 in
      let cp' = make_checkpoint id' wid id wf item prior req now in
      let target : get_item wf.task_backlog id ≡ ok item =
        (find_target-IsTarget wid id s (unfold find_target get_workflow in h)).target in
      let after = record wf {
        active_task_id = none;
        task_backlog = change_item id (mark_blocked cp' now) wf.task_backlog;
        updated_at = now;
        checkpoint_history = wf.checkpoint_history ++ checkpoint_entry id' ∷ [];
      } in
      (
        after,
        rw (lookup-insert_self wid after s.workflows) (
            rw
              (get_item-change_item id (mark_blocked cp' now) (keeps-mark_blocked cp' now)
                wf.task_backlog target)
              (ap (λ c. ok (after, mark_blocked c now item)) (same_checkpoint e))),
        cc e,
      )

resumed_state :
    (event : String) (m : ℕ) (item : WorkItem)
    → state_of (mark_resolved event m item).state ≡ ok QueueWorkItemState.ready_to_resume
unfolding mark_resolved set_state state_of
resumed_state event m item = rw (parse-value_item_state QueueWorkItemState.ready_to_resume)

resumed_version :
    (event : String) (m : ℕ) (cp : QueueBlockCheckpoint) (n : ℕ) (item : WorkItem)
    → version_of (mark_resolved event m (mark_blocked cp n item)) ≡ version_of item + 2
unfolding mark_resolved mark_blocked set_state
resumed_version event m cp n item = omega arith

-- what a successful block says of its guard and its write
block_running_item-eq-ok :
    (wid id : String) (req : BlockRequest) (a : Actor) (n : ℕ) (s t : Session)
    (wf : PersistentWorkflow) (item : WorkItem) (cp : QueueBlockCheckpoint)
    → find_target wid id s ≡ ok (wf, item)
    → block_running_item wid id req a n s ≡ (ok cp, t)
    → (prior : QueueWorkItemState) × (block_guard wid id req.blocking_state s
        ≡ ok (wf, item, prior))
      × (write_block wid id wf item prior req "block_queue_work_item" a n s ≡ (ok cp, t))
unfolding block_running_item block_guard
block_running_item-eq-ok wid id req a n s t wf item cp h e =
    elim (Result-cases (state_of item.state)) [
      | inl (prior, q) ↦ (prior, ground arith, ground arith)
      | inr (x, q) ↦ absurd (ground arith)
    ]

-- After `block_running_item` has returned a checkpoint, `resolve_blocker` with that checkpoint's id
-- succeeds at exactly one expected version, the blocked item's, which is one more than before the
-- block; at every other version it raises the stale-version error. The resolved item is ready to
-- resume, two versions later than the item that was blocked.
pub block-resolve :
    (wid id : String) (req : BlockRequest) (a b : Actor) (n m v : ℕ) (event : String)
    (s t : Session) (wf : PersistentWorkflow) (item : WorkItem) (cp : QueueBlockCheckpoint)
    → find_target wid id s ≡ ok (wf, item)
    → block_running_item wid id req a n s ≡ (ok cp, t)
    → ((resolve_blocker wid id cp.id v event b m t).0 ≡ (
        if eqb (version_of item + 1) v
        then ok (mark_resolved event m (mark_blocked cp n item))
        else err Errors.stale_item_version))
      × (state_of (mark_resolved event m (mark_blocked cp n item)).state
          ≡ ok QueueWorkItemState.ready_to_resume)
      × (version_of (mark_resolved event m (mark_blocked cp n item)) ≡ version_of item + 2)
unfolding resolve_blocker
block-resolve wid id req a b n m v event s t wf item cp h e =
    let (prior, g, w) = block_running_item-eq-ok wid id req a n s t wf item cp h e in
    let (wf', found, q) =
      find_target-write_block wid id s wf item prior req "block_queue_work_item" a n cp h
        (ap (λ p. p.0) w) in
    let found_t : find_target wid id t ≡ ok (wf', mark_blocked cp n item) =
      subst (λ p. find_target wid id p.1 ≡ ok (wf', mark_blocked cp n item)) w found in
    let blocked : is_blocked_state cp.blocking_state ≡ true =
      rw q (block_guard-blocked wid id s req.blocking_state g) in
    (
      rw (blocked_guard-blocked_item wid id t cp n v wf' item found_t blocked) (ground arith),
      resumed_state event m (mark_blocked cp n item),
      resumed_version event m cp n item,
    )
