-- ===== src/Pilots/Queue/Global/Inspect.antt =====
-- pilots/queue.py: `inspect_global`, the status of several workflows.
use lucius_engineering.Prelude.{
  String, ◌≡◌, ◌≢◌, refl, subst, sym, ◌∙◌, false, ◌&&◌, not, Option, none, some, List, [], ◌∷◌, map,
  arith, keep, is_empty, distinct, str_leb, Result, ok, Result-cases, Bool-cases, inl, inr, ◌>>=◌,
  ◌==◌, if◌then◌else◌,
}
use lucius_engineering.Prelude.Sorting.{sorted}
use lucius_engineering.Persistence.Orm.{PersistentWorkflow, Session}
use lucius_engineering.Pilots.Queue.Errors.{QueueError}
use lucius_engineering.Pilots.Queue.Items.{
  is_blocked_state, is_ready_state, is_resumable_state, is_completed_state, is_failed_state,
  has_state,
}
use lucius_engineering.Pilots.Queue.Parsed.{QueueItem}
use lucius_engineering.Pilots.Queue.Guards.{get_workflow}
use lucius_engineering.Pilots.Queue.Selection.{dependencies_complete, is_running, executable}
use lucius_engineering.Pilots.Queue.Global.{
  Row, GlobalWorkflowExclusion, GlobalQueueSelection, Partition, get_rows, global_workflows,
  global_items, partition, select_global_next,
}

-- `GlobalQueueStatus` of pilots/schemas.py, without the moment of its making.
pub record GlobalQueueStatus : Type 0 where
  pub observed_workflow_ids : List String
  pub workflow_ids : List String
  pub active_project_ids : List String
  pub running : List QueueItem
  pub blocked : List QueueItem
  pub ready : List QueueItem
  pub ready_to_resume : List QueueItem
  pub dependency_blocked : List QueueItem
  pub completed : List QueueItem
  pub failed : List QueueItem
  pub legacy_unschedulable : List QueueItem
  pub lifecycle_excluded : List GlobalWorkflowExclusion
  pub next_selection : GlobalQueueSelection

abbrev pub row_ids : List Row → List String
row_ids = map (λ (r : Row). r.0)

abbrev add_project : Option String → List String → List String
add_project none ids = ids
add_project (some id) ids = if id == "" then ids else id ∷ ids

unfoldable pub project_ids : List QueueItem → List String
project_ids [] = []
project_ids (i ∷ items) = add_project i.project_id (project_ids items)

unfoldable pub global_status :
    List Row → Partition → List QueueItem → GlobalQueueSelection → GlobalQueueStatus
global_status rows parts parsed selection =
    let items = executable parsed in
    record {
      observed_workflow_ids = row_ids rows;
      workflow_ids = row_ids parts.schedulable;
      active_project_ids = sorted str_leb (distinct (project_ids items));
      running = keep is_running items;
      blocked = keep (λ i. has_state is_blocked_state i.state) items;
      ready = keep (λ i. has_state is_ready_state i.state && dependencies_complete i items) items;
      ready_to_resume =
          keep (λ i. has_state is_resumable_state i.state && dependencies_complete i items) items;
      dependency_blocked = keep (λ i. not (dependencies_complete i items)) items;
      completed = keep (λ i. has_state is_completed_state i.state) items;
      failed = keep (λ i. has_state is_failed_state i.state) items;
      legacy_unschedulable = keep (λ i. not i.queue_state_present) parsed;
      lifecycle_excluded = parts.excluded;
      next_selection = selection;
    }

-- `inspect_global`, after the workflows have been looked up
unfoldable pub inspect_rows : Session → List Row → Result QueueError GlobalQueueStatus
inspect_rows s rows = do
  parts ← partition rows
  items ← global_items parts.schedulable
  selection ← select_global_next (row_ids rows) s
  ok (global_status rows parts items selection)

unfoldable pub inspect_global : List String → Session → Result QueueError GlobalQueueStatus
inspect_global wids s = global_workflows wids s >>= inspect_rows s

-- Rows that are stored under their ids are found again by these, all with a backlog.
data AreStored (s : Session) : List Row → Type 0 where
  no_rows : AreStored s []
  more_rows :
      {wid : String} {wf : PersistentWorkflow} {rows : List Row}
      → get_workflow wid s ≡ ok wf
      → is_empty wf.task_backlog ≡ false
      → AreStored s rows
      → AreStored s ((wid, wf) ∷ rows)

kept-AreStored :
    (wids : List String) (s : Session) (rows : List Row)
    → get_rows wids s ≡ ok rows
    → AreStored s (keep (λ (r : Row). not (is_empty r.1.task_backlog)) rows)
unfolding get_rows keep
kept-AreStored [] s rows e =
    let same : [] ≡ rows = ground arith in
    subst (λ rs. AreStored s (keep (λ (r : Row). not (is_empty r.1.task_backlog)) rs)) same no_rows
kept-AreStored (wid ∷ wids) s rows e = elim (Result-cases (get_workflow wid s)) [
  | inr (x, q) ↦ absurd (ground (arith, rw q at e))
  | inl (wf, q) ↦ elim (Result-cases (get_rows wids s)) [
    | inr (x, p) ↦ absurd (ground (arith, rw p at (rw q at e)))
    | inl (rest, p) ↦
        let same : (wid, wf) ∷ rest ≡ rows = ground (arith, rw p at (rw q at e)) in
        let stored = kept-AreStored wids s rest p in
        subst (λ rs. AreStored s (keep (λ (r : Row). not (is_empty r.1.task_backlog)) rs)) same
          (elim (Bool-cases (is_empty wf.task_backlog)) [
            | inl b ↦ rw b stored
            | inr b ↦ rw b (more_rows q b stored)
          ])
  ]
]

get_rows-AreStored :
    (s : Session) (rows : List Row) → AreStored s rows → get_rows (row_ids rows) s ≡ ok rows
unfolding get_rows
get_rows-AreStored s _ no_rows = refl
get_rows-AreStored s _ (more_rows q b h) = rw q (rw (get_rows-AreStored s _ h) refl)

keep-AreStored :
    (s : Session) (rows : List Row)
    → AreStored s rows
    → keep (λ (r : Row). not (is_empty r.1.task_backlog)) rows ≡ rows
unfolding keep
keep-AreStored s _ no_rows = refl
keep-AreStored s _ (more_rows q b h) = rw b (rw (keep-AreStored s _ h) refl)

observed_again :
    (s : Session) (rows : List Row)
    → AreStored s rows
    → row_ids rows ≢ []
    → global_workflows (row_ids rows) s ≡ ok rows
unfolding global_workflows
observed_again s [] h some_row = absurd (some_row refl)
observed_again s (row ∷ rows) h some_row =
    rw (get_rows-AreStored s (row ∷ rows) h) (rw (keep-AreStored s (row ∷ rows) h) refl)

select_by_rows :
    (wids wids' : List String) (s : Session)
    → global_workflows wids s ≡ global_workflows wids' s
    → select_global_next wids s ≡ select_global_next wids' s
unfolding select_global_next
select_by_rows wids wids' s e = rw e refl

inspect_rows-reports :
    (s : Session) (rows : List Row) (status : GlobalQueueStatus)
    → inspect_rows s rows ≡ ok status
    → (status.observed_workflow_ids ≡ row_ids rows)
      × (select_global_next (row_ids rows) s ≡ ok status.next_selection)
unfolding inspect_rows global_status
inspect_rows-reports s rows status e = elim (Result-cases (partition rows)) [
  | inr (x, q) ↦ absurd (ground (arith, rw q at e))
  | inl (parts, q) ↦ elim (Result-cases (global_items parts.schedulable)) [
    | inr (x, p) ↦ absurd (ground (arith, rw p at (rw q at e)))
    | inl (items, p) ↦ elim (Result-cases (select_global_next (row_ids rows) s)) [
      | inr (x, r) ↦ absurd (ground (arith, rw r at (rw p at (rw q at e))))
      | inl (selection, r) ↦
          let e' = rw r at (rw p at (rw q at e)) in (ground (arith, e'), rw r (ground (arith, e')))
    ]
  ]
]

-- Where a workflow is asked for and one of those asked for has a backlog, the selection that
-- inspect_global reports is that of select_global_next for the workflows asked for.
pub inspect_global-next :
    (wid : String) (wids : List String) (s : Session) (status : GlobalQueueStatus)
    → inspect_global (wid ∷ wids) s ≡ ok status
    → status.observed_workflow_ids ≢ []
    → select_global_next (wid ∷ wids) s ≡ ok status.next_selection
unfolding inspect_global global_workflows
inspect_global-next wid wids s status e observed = elim (Result-cases (get_rows (wid ∷ wids) s)) [
  | inr (x, q) ↦ absurd (ground (arith, rw q at e))
  | inl (rows, q) ↦
      let kept = keep (λ (r : Row). not (is_empty r.1.task_backlog)) rows in
      let (ids, next) = inspect_rows-reports s kept status (rw q at e) in
      let stored = kept-AreStored (wid ∷ wids) s rows q in
      let again = observed_again s kept stored (λ none'. observed (ids ∙ none')) in
      select_by_rows (wid ∷ wids) (row_ids kept) s (rw q (sym again)) ∙ next
]
