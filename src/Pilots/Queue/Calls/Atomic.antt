-- ===== src/Pilots/Queue/Calls/Atomic.antt =====
-- What an error of the queue leaves.
use lucius_engineering.Prelude.{
  ℕ, String, ◌≡◌, ◌≢◌, refl, ◌∙◌, Option, none, some, List, arith, inl, inr, Result, ok, err,
  Result-cases, Bool-cases,
}
use lucius_engineering.Prelude.Exec.{Exec, pure, ◌>>◌}
use lucius_engineering.Domain.Enums.{Actor}
use lucius_engineering.Persistence.Orm.{Session}
use lucius_engineering.Pilots.Queue.Errors
use lucius_engineering.Pilots.Queue.Errors.{QueueError}
use lucius_engineering.Pilots.Queue.Global.{GlobalQueueSelection, text_or_empty, select_global_next}
use lucius_engineering.Pilots.Queue.Global.Starting.{
  global_guard, matches_mutation, start_global_selection, start_named, start_selected_global_item,
  start_global_next,
}
use lucius_engineering.Pilots.Queue.Operations.{start_next, mark_started}
use lucius_engineering.Pilots.Queue.Blocking.{
  fresh_checkpoint_id, write_block, block_running_item, block_dispatch_selected_item,
  resolve_blocker,
}
use lucius_engineering.Pilots.Queue.Repair.{repair_blocked_item_configuration}
use lucius_engineering.Pilots.Queue.Completion.{complete_item}
use lucius_engineering.Pilots.Queue.Calls.{
  QueueCall, start, block, block_dispatch, resolve, repair, complete, perform, raised, error_of,
  Event, on_workflow, global_next, global_selected, apply, event_error,
}

perform-raised :
    (wid : String) (call : QueueCall) (actor : Actor) (now : ℕ) (s : Session) {e : QueueError}
    → raised wid call actor now s ≡ some e
    → perform wid call actor now s ≡ s
unfolding perform raised start_next block_running_item block_dispatch_selected_item write_block
    fresh_checkpoint_id resolve_blocker repair_blocked_item_configuration complete_item
perform-raised wid start actor now s h = ground arith
perform-raised wid (block item req) actor now s h = ground arith
perform-raised wid (block_dispatch item expected version req) actor now s h = ground arith
perform-raised wid (resolve item checkpoint version event) actor now s h = ground arith
perform-raised wid (repair item checkpoint version timeout patch) actor now s h = ground arith
perform-raised wid (complete item substeps) actor now s h = ground arith

module _ (selection : GlobalQueueSelection) (wids : List String) (actor : Actor) (now : ℕ)
    (s : Session) {e : QueueError} (ne : e ≢ Errors.identity_mismatch) where
  start_global-raised :
      error_of (start_global_selection selection wids actor now s).0 ≡ some e
      → (start_global_selection selection wids actor now s).1 ≡ s
  unfolding start_global_selection
  start_global-raised h = elim (Result-cases (global_guard selection wids s)) [
    | inr (x, q) ↦ rw q refl
    | inl ((wf, item), q) ↦
        elim (Bool-cases (
          matches_mutation selection (text_or_empty selection.selected_workflow_id) wf
            (mark_started now item))) [
              | inl b ↦ absurd (ground (arith, rw b at (rw q at h)))
              | inr b ↦ absurd (ne (ground (arith, rw b at (rw q at h))))
            ]
  ]

  start_named-raised :
      (wid : Option String)
      → error_of (start_named wid selection wids actor now s).0 ≡ some e
      → (start_named wid selection wids actor now s).1 ≡ s
  start_named-raised none h = refl
  start_named-raised (some wid) h = start_global-raised h

  start_selected-raised :
      error_of (start_selected_global_item selection wids actor now s).0 ≡ some e
      → (start_selected_global_item selection wids actor now s).1 ≡ s
  unfolding start_selected_global_item
  start_selected-raised h = start_named-raised selection.selected_workflow_id h

-- a raise of the second method is the raise of the first, where the first is all that may raise
raised_first :
    {A : Type 0} (x : Result QueueError (Unit {0}) × Session) (a : A) (s : Session) {e : QueueError}
    → error_of (let go : Exec Session QueueError A = (λ t. x) >> pure a in go s).0 ≡ some e
    → (error_of x.0 ≡ some e)
      × ((let go : Exec Session QueueError A = (λ t. x) >> pure a in go s).1 ≡ x.1)
raised_first (ok u, t) a s h = absurd (ground (arith, h))
raised_first (err x, t) a s h = (h, refl)

start_next-raised :
    (wids : List String) (actor : Actor) (now : ℕ) (s : Session) {e : QueueError}
    → e ≢ Errors.identity_mismatch
    → error_of (start_global_next wids actor now s).0 ≡ some e
    → (start_global_next wids actor now s).1 ≡ s
unfolding start_global_next
start_next-raised wids actor now s ne h = elim (Result-cases (select_global_next wids s)) [
  | inr (x, q) ↦ rw q refl
  | inl (selection, q) ↦
      let started = start_selected_global_item selection wids actor now s in
      let (raises, same) = raised_first started selection s (rw q at h) in
      rw q (same ∙ start_selected-raised selection wids actor now s ne raises)
]

-- When a method of the queue raises an error of its own, whichever it is, the session is as it was:
-- nothing is written, no id is used up and no audit event is added. There is one exception: a global
-- start that finds after its write that the selection does not name what it wrote, and raises the
-- identity error. The items are those of the model, whose versions are numbers or missing.
pub apply-raised :
    (event : Event) (s : Session) {e : QueueError}
    → event_error event s ≡ some e
    → e ≢ Errors.identity_mismatch
    → apply event s ≡ s
unfolding apply event_error
apply-raised (on_workflow wid call actor now) s h ne = perform-raised wid call actor now s h
apply-raised (global_next wids actor now) s h ne = start_next-raised wids actor now s ne h
apply-raised (global_selected selection wids actor now) s h ne =
    start_selected-raised selection wids actor now s ne h
