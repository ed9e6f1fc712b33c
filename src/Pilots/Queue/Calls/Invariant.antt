-- ===== src/Pilots/Queue/Calls/Invariant.antt =====
-- What every call on the queue keeps, and so every history of calls.
use lucius_engineering.Prelude.{
  ℕ, String, ◌≡◌, ◌⊎◌, inl, inr, Option, none, some, List, ok, Result-cases,
}
use lucius_engineering.Domain.Enums.{Actor, QueueWorkItemState}
use lucius_engineering.Domain.Json.{Json, JsonDict}
use lucius_engineering.Persistence.Orm.{WorkItem, PersistentWorkflow, Session}
use lucius_engineering.Pilots.Queue.Guards.{
  start_guard, block_guard, dispatch_guard, blocked_guard, complete_guard,
}
use lucius_engineering.Pilots.Queue.Operations.{start_next}
use lucius_engineering.Pilots.Queue.Blocking.{
  BlockRequest, block_running_item, block_dispatch_selected_item, resolve_blocker,
}
use lucius_engineering.Pilots.Queue.Repair.{check_repair, repair_blocked_item_configuration}
use lucius_engineering.Pilots.Queue.Completion.{complete_item}
use lucius_engineering.Pilots.Queue.Calls.{
  QueueCall, start, block, block_dispatch, resolve, repair, complete, perform,
}
use lucius_engineering.Pilots.Queue.Calls.Targets.{
  block_guard-find, dispatch_guard-find, block_guard-blocked, dispatch_guard-blocked,
}
use lucius_engineering.Pilots.Queue.Selection.{QueueSelection}
use lucius_engineering.Pilots.Queue.Calls.Effects.{
  Change, block-Change, resolve-Change, complete-Change, repair-Change, start-Change,
}

-- A call leaves the session as it was, or changes one item of its workflow.
abbrev pub Effect : String → Session → Session → Type 0
Effect wid s t = (t ≡ s) ⊎ Change wid s t

module _ (wid : String) (actor : Actor) (now : ℕ) (s : Session) where
  started-Effect :
      (g : PersistentWorkflow × QueueSelection × Option WorkItem)
      → start_guard wid s ≡ ok g
      → Effect wid s (start_next wid actor now s).1
  started-Effect (wf, sel, none) e = inl (unfold start_next in rw e)
  started-Effect (wf, sel, some item) e = inr (start-Change wid s actor now e)

  start-Effect : Effect wid s (start_next wid actor now s).1
  start-Effect = elim (Result-cases (start_guard wid s)) [
    | inl (g, e) ↦ started-Effect g e
    | inr (x, e) ↦ inl (unfold start_next in rw e)
  ]

  block-Effect :
      (id : String) (req : BlockRequest)
      → Effect wid s (block_running_item wid id req actor now s).1
  block-Effect id req = elim (Result-cases (block_guard wid id req.blocking_state s)) [
    | inl ((wf, item, prior), e) ↦
        unfold block_running_item in
        rw e (
          inr (
            block-Change wid id s req _ actor now prior
              (block_guard-blocked wid id s req.blocking_state e)
              (block_guard-find wid id s req.blocking_state e)))
    | inr (x, e) ↦ inl (unfold block_running_item in rw e)
  ]

  dispatch-Effect :
      (id : String) (expected : QueueWorkItemState) (version : ℕ) (req : BlockRequest)
      → Effect wid s (block_dispatch_selected_item wid id expected version req actor now s).1
  dispatch-Effect id expected version req =
      elim (Result-cases (dispatch_guard wid id req.blocking_state expected version s)) [
        | inl ((wf, item, prior), e) ↦
            unfold block_dispatch_selected_item in
            rw e (
              inr (
                block-Change wid id s req _ actor now prior
                  (dispatch_guard-blocked wid id s req.blocking_state expected version e)
                  (dispatch_guard-find wid id s req.blocking_state expected version e)))
        | inr (x, e) ↦ inl (unfold block_dispatch_selected_item in rw e)
      ]

  resolve-Effect :
      (id checkpoint : String) (version : ℕ) (event : String)
      → Effect wid s (resolve_blocker wid id checkpoint version event actor now s).1
  resolve-Effect id checkpoint version event =
      elim (Result-cases (blocked_guard wid id checkpoint version s)) [
        | inl ((wf, item), e) ↦ inr (resolve-Change wid id s checkpoint version event actor now e)
        | inr (x, e) ↦ inl (unfold resolve_blocker in rw e)
      ]

  repair-Effect :
      (id checkpoint : String) (version : ℕ) (timeout : Option Json) (patch : JsonDict)
      → Effect wid s
          (repair_blocked_item_configuration wid id checkpoint version timeout patch actor now s).1
  repair-Effect id checkpoint version timeout patch =
      elim (Result-cases (blocked_guard wid id checkpoint version s)) [
        | inl ((wf, item), e) ↦ elim (Result-cases (check_repair timeout patch)) [
          | inl (u, k) ↦ inr (repair-Change wid id s checkpoint version timeout patch actor now e k)
          | inr (x, k) ↦ inl (unfold repair_blocked_item_configuration in rw (e, k))
        ]
        | inr (x, e) ↦ inl (unfold repair_blocked_item_configuration in rw e)
      ]

  complete-Effect :
      (id : String) (substeps : List String)
      → Effect wid s (complete_item wid id substeps actor now s).1
  complete-Effect id substeps = elim (Result-cases (complete_guard wid id s)) [
    | inl ((wf, item), e) ↦ inr (complete-Change wid id s substeps actor now e)
    | inr (x, e) ↦ inl (unfold complete_item in rw e)
  ]

  -- A call that raises leaves the session as it was; a call that returns changes nothing, or one item
  -- of its workflow.
  pub perform-Effect : (call : QueueCall) → Effect wid s (perform wid call actor now s)
  unfolding perform
  perform-Effect start = start-Effect
  perform-Effect (block id req) = block-Effect id req
  perform-Effect (block_dispatch id expected version req) = dispatch-Effect id expected version req
  perform-Effect (resolve id checkpoint version event) = resolve-Effect id checkpoint version event
  perform-Effect (repair id checkpoint version timeout patch) =
      repair-Effect id checkpoint version timeout patch
  perform-Effect (complete id substeps) = complete-Effect id substeps
