-- ===== src/Pilots/Queue/Calls/Effects.antt =====
-- What each method of the queue writes when it returns: one item of one workflow changes.
use lucius_engineering.Prelude.{
  ℕ, ◌+◌, String, ◌≡◌, refl, ◌⊎◌, inl, inr, true, Option, none, some, List, [], ◌∷◌, arith, ◌++◌,
  lookup, insert, ok, if◌then◌else◌,
}
use lucius_engineering.Domain.Enums.{Actor, QueueWorkItemState}
use lucius_engineering.Domain.Json.{Json, JsonDict}
use lucius_engineering.Domain.Ids.{queue_checkpoint}
use lucius_engineering.Persistence.{next_id}
use lucius_engineering.Persistence.Orm.{checkpoint_entry, WorkItem, PersistentWorkflow, Session}
use lucius_engineering.Pilots.Queue.Items.{is_blocked_state, item_id_of, str_of, int_or_zero}
use lucius_engineering.Pilots.Queue.Selection.{QueueSelection, select_next}
use lucius_engineering.Pilots.Queue.Guards.{
  get_workflow, get_item, holds_text, find_target, blocked_guard, complete_guard, start_guard,
  selected_item,
}
use lucius_engineering.Pilots.Queue.Operations.{
  change_item, write_start, start_next, set_state, put_workflow, audit_workflow, with_backlog,
  mark_started,
}
use lucius_engineering.Pilots.Queue.Operations.Changes.{KeepsId, count_items}
use lucius_engineering.Pilots.Queue.Calls.Running.{is_running_item, select_next-none_running}
use lucius_engineering.Pilots.Queue.Blocking.{
  BlockRequest, mark_blocked, make_checkpoint, write_block, fresh_checkpoint_id, mark_resolved,
  resolve_blocker,
}
use lucius_engineering.Pilots.Queue.Repair.{
  check_repair, mark_repaired, repair_blocked_item_configuration,
}
use lucius_engineering.Pilots.Queue.Completion.{
  completed_ids, pending_ids, mark_completed, complete_item,
}
use lucius_engineering.Pilots.Queue.Calls.Targets.{
  IsTarget, find_target-IsTarget, blocked_guard-find, complete_guard-find, keeps-mark_started,
  keeps-mark_blocked, keeps-mark_resolved, keeps-mark_repaired, keeps-mark_completed,
  not_running-mark_blocked, not_running-mark_resolved, not_running-mark_completed,
}

abbrev pub version_of : WorkItem → ℕ
version_of item = int_or_zero item.version

-- One item of the workflow `wid` was changed by `f`.
pub record Change (wid : String) (s t : Session) : Type 0 where
  pub before : PersistentWorkflow
  pub after : PersistentWorkflow
  pub id : String
  pub item : WorkItem
  pub f : WorkItem → WorkItem
  pub stored : lookup wid s.workflows ≡ some before
  pub target : get_item before.task_backlog id ≡ ok item
  pub keeps : KeepsId f
  pub backlog : after.task_backlog ≡ change_item id f before.task_backlog
  pub written : t.workflows ≡ insert wid after s.workflows
  pub version : version_of (f item) ≡ version_of item + 1
  pub running :
      is_running_item (f item) ≡ true
      → (is_running_item item ≡ true) ⊎ (count_items is_running_item before.task_backlog ≡ 0)

-- The calls that return: the session that they leave has one item changed.
module _ (wid id : String) (s : Session) where
  pub block-Change :
      (req : BlockRequest) (action : String) (actor : Actor) (now : ℕ) {wf : PersistentWorkflow}
      {item : WorkItem} (prior : QueueWorkItemState)
      → is_blocked_state req.blocking_state ≡ true
      → find_target wid id s ≡ ok (wf, item)
      → Change wid s (write_block wid id wf item prior req action actor now s).1
  unfolding write_block fresh_checkpoint_id put_workflow audit_workflow with_backlog make_checkpoint
  block-Change req action actor now {wf} {item} prior q h =
      let t : IsTarget wid id s wf item = find_target-IsTarget wid id s h in
      let cp = make_checkpoint (next_id queue_checkpoint s.ids).0 wid id wf item prior req now in
      record {
        before = wf;
        after = record wf {
          active_task_id = none;
          task_backlog = change_item id (mark_blocked cp now) wf.task_backlog;
          updated_at = now;
          checkpoint_history = wf.checkpoint_history ++ checkpoint_entry cp.id ∷ [];
        };
        id = id;
        item = item;
        f = mark_blocked cp now;
        stored = t.stored;
        target = t.target;
        keeps = keeps-mark_blocked cp now;
        backlog = refl;
        written = refl;
        version = unfold mark_blocked set_state in refl;
        running = λ r. absurd (not_running-mark_blocked cp now item q r);
      }

  pub resolve-Change :
      (checkpoint : String) (version : ℕ) (event : String) (actor : Actor) (now : ℕ)
      {wf : PersistentWorkflow} {item : WorkItem}
      → blocked_guard wid id checkpoint version s ≡ ok (wf, item)
      → Change wid s (resolve_blocker wid id checkpoint version event actor now s).1
  unfolding resolve_blocker put_workflow audit_workflow with_backlog
  resolve-Change checkpoint version event actor now {wf} {item} h =
      let t : IsTarget wid id s wf item =
        find_target-IsTarget wid id s (blocked_guard-find wid id s checkpoint version h) in
      rw h (record {
        before = wf;
        after = record wf {
          task_backlog = change_item id (mark_resolved event now) wf.task_backlog;
          updated_at = now;
        };
        id = id;
        item = item;
        f = mark_resolved event now;
        stored = t.stored;
        target = t.target;
        keeps = keeps-mark_resolved event now;
        backlog = refl;
        written = refl;
        version = unfold mark_resolved set_state in refl;
        running = λ r. absurd (not_running-mark_resolved event now item r);
      })

  pub complete-Change :
      (substeps : List String) (actor : Actor) (now : ℕ) {wf : PersistentWorkflow} {item : WorkItem}
      → complete_guard wid id s ≡ ok (wf, item)
      → Change wid s (complete_item wid id substeps actor now s).1
  unfolding complete_item put_workflow audit_workflow with_backlog
  complete-Change substeps actor now {wf} {item} h =
      let t : IsTarget wid id s wf item =
        find_target-IsTarget wid id s (complete_guard-find wid id s h) in
      let items = change_item id (mark_completed substeps now) wf.task_backlog in
      rw h (record {
        before = wf;
        after = record wf {
          active_task_id = if holds_text wf.active_task_id id then none else wf.active_task_id;
          task_backlog = items;
          updated_at = now;
          completed_task_ids = completed_ids items;
          pending_task_ids = pending_ids items;
        };
        id = id;
        item = item;
        f = mark_completed substeps now;
        stored = t.stored;
        target = t.target;
        keeps = keeps-mark_completed substeps now;
        backlog = refl;
        written = refl;
        version = unfold mark_completed set_state in refl;
        running = λ r. absurd (not_running-mark_completed substeps now item r);
      })

  pub repair-Change :
      (checkpoint : String) (version : ℕ) (timeout : Option Json) (patch : JsonDict) (actor : Actor)
      (now : ℕ) {wf : PersistentWorkflow} {item : WorkItem}
      → blocked_guard wid id checkpoint version s ≡ ok (wf, item)
      → check_repair timeout patch ≡ ok tt
      → Change wid s
          (repair_blocked_item_configuration wid id checkpoint version timeout patch actor now s).1
  unfolding repair_blocked_item_configuration put_workflow audit_workflow with_backlog
  repair-Change checkpoint version timeout patch actor now {wf} {item} h k =
      let t : IsTarget wid id s wf item =
        find_target-IsTarget wid id s (blocked_guard-find wid id s checkpoint version h) in
      rw (h, k)
        (record {
          before = wf;
          after = record wf {
            task_backlog = change_item id (mark_repaired timeout patch now) wf.task_backlog;
            updated_at = now;
          };
          id = id;
          item = item;
          f = mark_repaired timeout patch now;
          stored = t.stored;
          target = t.target;
          keeps = keeps-mark_repaired timeout patch now;
          backlog = refl;
          written = refl;
          version = unfold mark_repaired in refl;
          running = λ r. inl (unfold mark_repaired in r);
        })

module _ (wid : String) (s : Session) where
  start_guard-find :
      {wf : PersistentWorkflow} {sel : QueueSelection} {item : WorkItem}
      → start_guard wid s ≡ ok (wf, sel, some item)
      → (lookup wid s.workflows ≡ some wf)
        × (select_next wid wf ≡ ok sel)
        × (get_item wf.task_backlog (str_of sel.selected_item_id) ≡ ok item)
        × (sel.selected_item_id ≡ some (str_of sel.selected_item_id))
  unfolding start_guard get_workflow selected_item
  start_guard-find h = (ground arith, ground arith, ground arith, ground arith)

  pub start-Change :
      (actor : Actor) (now : ℕ) {wf : PersistentWorkflow} {sel : QueueSelection} {item : WorkItem}
      → start_guard wid s ≡ ok (wf, sel, some item)
      → Change wid s (start_next wid actor now s).1
  unfolding start_next write_start put_workflow audit_workflow with_backlog
  start-Change actor now {wf} {sel} {item} h =
      let (stored, selected, target, named) = start_guard-find h in
      let id' = str_of sel.selected_item_id in
      rw h (record {
        before = wf;
        after = record wf {
          active_task_id = some (item_id_of (mark_started now item));
          task_backlog = change_item id' (mark_started now) wf.task_backlog;
          updated_at = now;
        };
        id = id';
        item = item;
        f = mark_started now;
        stored = stored;
        target = target;
        keeps = keeps-mark_started now;
        backlog = refl;
        written = refl;
        version = unfold mark_started set_state in refl;
        running = λ r. inr (select_next-none_running wid wf sel id' selected named);
      })
