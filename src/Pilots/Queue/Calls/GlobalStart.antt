-- ===== src/Pilots/Queue/Calls/GlobalStart.antt =====
-- A start over several workflows keeps what the calls on one workflow keep.
use lucius_engineering.Prelude.{
  ℕ, String, ◌≡◌, refl, sym, subst, true, none, some, List, [], ◌∷◌, arith, map, lookup, Option,
  Result, ok, err, Result-cases, Bool-cases, inl, inr, is_empty,
}
use lucius_engineering.Prelude.Exec.{Exec, pure, ◌>>◌}
use lucius_engineering.Domain.Enums.{Actor}
use lucius_engineering.Pilots.Queue.Errors.{QueueError}
use lucius_engineering.Pilots.Queue.Calls.{
  Event, on_workflow, global_next, global_selected, apply, run,
}
use lucius_engineering.Persistence.Orm.{WorkItem, PersistentWorkflow, Session}
use lucius_engineering.Pilots.Queue.Items.{item_id_of}
use lucius_engineering.Pilots.Queue.Parsed.{QueueItem, queue_item, workflow_items}
use lucius_engineering.Pilots.Queue.Selection.{running_of}
use lucius_engineering.Pilots.Queue.Guards.{get_workflow, get_item}
use lucius_engineering.Pilots.Queue.Operations.{
  change_item, set_state, put_workflow, audit_workflow, with_backlog, mark_started,
}
use lucius_engineering.Pilots.Queue.Operations.Changes.{count_items}
use lucius_engineering.Pilots.Queue.Calls.Running.{is_running_item, none_running}
use lucius_engineering.Pilots.Queue.Calls.Targets.{keeps-mark_started}
use lucius_engineering.Pilots.Queue.Calls.Effects.{Change}
use lucius_engineering.Pilots.Queue.Calls.Histories.{
  SingleRunning, Change-SingleRunning, perform-SingleRunning,
}
use lucius_engineering.Pilots.Queue.Global.{GlobalQueueSelection, text_or_empty, select_global_next}
use lucius_engineering.Pilots.Queue.Global.Starting.{
  global_guard, write_global, matches_mutation, start_global_selection, start_named,
  start_selected_global_item, start_global_next,
}

empty_list : {A : Type 0} (xs : List A) → is_empty xs ≡ true → xs ≡ []
empty_list [] h = refl
empty_list (x ∷ xs) h = cc

idle_workflow :
    (wid : String) (wf : PersistentWorkflow) (parsed : List QueueItem)
    → workflow_items none wid wf ≡ ok parsed
    → is_empty (running_of parsed) ≡ true
    → count_items is_running_item wf.task_backlog ≡ 0
unfolding workflow_items
idle_workflow wid wf parsed h e =
    let same : map (queue_item none wid wf) wf.task_backlog ≡ parsed = ground (arith, h) in
    none_running none wid wf wf.task_backlog
      (empty_list _ (subst (λ (p : List QueueItem). is_empty (running_of p) ≡ true) (sym same) e))

module _ (selection : GlobalQueueSelection) (wids : List String) (s : Session) where
  guarded_idle :
      {wf : PersistentWorkflow} {item : WorkItem}
      → global_guard selection wids s ≡ ok (wf, item)
      → count_items is_running_item wf.task_backlog ≡ 0
  unfolding global_guard
  guarded_idle {wf} {item} h = elim (Result-cases (select_global_next wids s)) [
    | inr (x, e) ↦ absurd (ground (arith, e, h))
    | inl (current, e) ↦
        elim (Result-cases
          (workflow_items none (text_or_empty selection.selected_workflow_id) wf)) [
            | inl (parsed, q) ↦
                idle_workflow (text_or_empty selection.selected_workflow_id) wf parsed q
                  (ground (arith, e, q, h))
            | inr (x, q) ↦ absurd (ground (arith, e, q, h))
          ]
  ]

  guarded_target :
      {wf : PersistentWorkflow} {item : WorkItem}
      → global_guard selection wids s ≡ ok (wf, item)
      → (lookup (text_or_empty selection.selected_workflow_id) s.workflows ≡ some wf)
        × (get_item wf.task_backlog (text_or_empty selection.selected_item_id) ≡ ok item)
  unfolding global_guard get_workflow
  guarded_target h = (ground arith, ground arith)

  global-Change :
      (now : ℕ) (t : Session) {wf : PersistentWorkflow} {item : WorkItem}
      → global_guard selection wids s ≡ ok (wf, item)
      → t.workflows
        ≡ (write_global
            (text_or_empty selection.selected_workflow_id)
            (text_or_empty selection.selected_item_id)
            wf
            item
            now
            s).workflows
      → Change (text_or_empty selection.selected_workflow_id) s t
  unfolding write_global put_workflow with_backlog
  global-Change now t {wf} {item} h w =
      let (stored, target) = guarded_target h in
      record {
        before = wf;
        after = record wf {
          active_task_id = some (item_id_of (mark_started now item));
          task_backlog =
              change_item (text_or_empty selection.selected_item_id) (mark_started now)
                wf.task_backlog;
          updated_at = now;
        };
        id = text_or_empty selection.selected_item_id;
        item = item;
        f = mark_started now;
        stored = stored;
        target = target;
        keeps = keeps-mark_started now;
        backlog = refl;
        written = w;
        version = unfold mark_started set_state in refl;
        running = λ r. inr (guarded_idle h);
      }

  written_workflows :
      (actor : Actor) (now : ℕ) {wf : PersistentWorkflow} {item : WorkItem}
      → global_guard selection wids s ≡ ok (wf, item)
      → (start_global_selection selection wids actor now s).1.workflows
        ≡ (write_global
            (text_or_empty selection.selected_workflow_id)
            (text_or_empty selection.selected_item_id)
            wf
            item
            now
            s).workflows
  unfolding start_global_selection audit_workflow
  written_workflows actor now {wf} {item} h =
      elim (Bool-cases (
        matches_mutation selection (text_or_empty selection.selected_workflow_id) wf
          (mark_started now item))) [ inl q ↦ rw h (rw q refl) | inr q ↦ rw h (rw q refl) ]

pub start_global-SingleRunning :
    (selection : GlobalQueueSelection) (wids : List String) (actor : Actor) (now : ℕ) (s : Session)
    → SingleRunning s
    → SingleRunning (start_global_selection selection wids actor now s).1
start_global-SingleRunning selection wids actor now s h =
    elim (Result-cases (global_guard selection wids s)) [
      | inl ((wf, item), e) ↦
          let t = (start_global_selection selection wids actor now s).1 in
          Change-SingleRunning (text_or_empty selection.selected_workflow_id) s t
            (global-Change selection wids s now t e
              (written_workflows selection wids s actor now e))
            h
      | inr (x, e) ↦ unfold start_global_selection in rw e h
    ]

start_named-SingleRunning :
    (wid : Option String) (selection : GlobalQueueSelection) (wids : List String) (actor : Actor)
    (now : ℕ) (s : Session)
    → SingleRunning s
    → SingleRunning (start_named wid selection wids actor now s).1
start_named-SingleRunning none selection wids actor now s h = h
start_named-SingleRunning (some wid) selection wids actor now s h =
    start_global-SingleRunning selection wids actor now s h

start_selected-SingleRunning :
    (selection : GlobalQueueSelection) (wids : List String) (actor : Actor) (now : ℕ) (s : Session)
    → SingleRunning s
    → SingleRunning (start_selected_global_item selection wids actor now s).1
unfolding start_selected_global_item
start_selected-SingleRunning selection wids actor now s h =
    start_named-SingleRunning selection.selected_workflow_id selection wids actor now s h

-- the session after a start and after what is returned from it
same_session :
    {A : Type 0} (x : Result QueueError (Unit {0}) × Session) (a : A)
    → ((let go : Exec Session QueueError A = (λ t. x) >> pure a in go) x.1).1 ≡ x.1
same_session (ok u, t) a = refl
same_session (err e, t) a = refl

start_next-SingleRunning :
    (wids : List String) (actor : Actor) (now : ℕ) (s : Session)
    → SingleRunning s
    → SingleRunning (start_global_next wids actor now s).1
unfolding start_global_next
start_next-SingleRunning wids actor now s h = elim (Result-cases (select_global_next wids s)) [
  | inr (x, e) ↦ rw e h
  | inl (selection, e) ↦ rw e (
      subst SingleRunning
        (sym (same_session (start_selected_global_item selection wids actor now s) selection))
        (start_selected-SingleRunning selection wids actor now s h))
]

apply-SingleRunning : (e : Event) (s : Session) → SingleRunning s → SingleRunning (apply e s)
unfolding apply
apply-SingleRunning (on_workflow wid call actor now) s h =
    perform-SingleRunning wid call actor now s h
apply-SingleRunning (global_next wids actor now) s h = start_next-SingleRunning wids actor now s h
apply-SingleRunning (global_selected selection wids actor now) s h =
    start_selected-SingleRunning selection wids actor now s h

-- From a session in which each workflow has at most one item in the state RUNNING, every history of
-- calls of the queue's methods that write, on one workflow or on several, by anyone, at any times,
-- whether they return or raise, leads to such a session.
pub run-SingleRunning : (es : List Event) (s : Session) → SingleRunning s → SingleRunning (run es s)
unfolding run
run-SingleRunning [] s h = h
run-SingleRunning (e ∷ es) s h = run-SingleRunning es _ (apply-SingleRunning e s h)
