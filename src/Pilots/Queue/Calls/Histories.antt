-- ===== src/Pilots/Queue/Calls/Histories.antt =====
-- What every call on one workflow of the queue keeps.
use lucius_engineering.Prelude.{
  ℕ, ◌+◌, ◌≤◌, String, ◌≡◌, ◌≢◌, refl, sym, ap, subst, ◌∙◌, ◌⊎◌, inl, inr, Bool, some, List, [],
  ◌∷◌, arith, map, ◌==◌, eq_iff, lookup, lookup-insert, EveryRow, EveryRow_at, EveryRow-insert,
  lookup-insert_self, ok, if◌then◌else◌, Bool-cases, find_first,
}
use mathlib.Core.Bool.{false≢true}
use lucius_engineering.Domain.Enums.{Actor}
use lucius_engineering.Persistence.Orm.{WorkItem, PersistentWorkflow, Session}
use lucius_engineering.Pilots.Queue.Items.{item_id_of}
use lucius_engineering.Pilots.Queue.Guards.{get_item}
use lucius_engineering.Pilots.Queue.Operations.{change_item}
use lucius_engineering.Pilots.Queue.Operations.Changes.{
  count_items, to_ℕ, ids-change_item, count-change_item, get_item-change_item,
  get_item-change_item_ne,
}
use lucius_engineering.Pilots.Queue.Calls.{QueueCall, perform}
use lucius_engineering.Pilots.Queue.Calls.Running.{is_running_item}
use lucius_engineering.Pilots.Queue.Calls.Effects.{version_of, Change}
use lucius_engineering.Pilots.Queue.Calls.Invariant.{perform-Effect}

-- In each workflow at most one item is in the state RUNNING.
abbrev pub SingleRunning : Session → Type 0
SingleRunning s =
    EveryRow (λ (wf : PersistentWorkflow). count_items is_running_item wf.task_backlog ≤ 1)
      s.workflows

-- An item that runs is counted.
count-pos :
    (p : WorkItem → Bool) (items : List WorkItem) (id : String) {item : WorkItem}
    → get_item items id ≡ ok item
    → to_ℕ (p item) ≤ count_items p items
unfolding get_item count_items to_ℕ find_first
count-pos p [] id h = cc
count-pos p (x ∷ items) id {item} h = ground (arith, count-pos p items id {item = item})

changed_running :
    (wid : String) (s t : Session) (c : Change wid s t)
    → count_items is_running_item c.before.task_backlog ≤ 1
    → count_items is_running_item c.after.task_backlog ≤ 1
unfolding to_ℕ
changed_running wid s t c h = rw c.backlog (
    ground (
      arith,
      count-change_item c.id c.f is_running_item c.before.task_backlog {item = c.item} c.target,
      count-pos is_running_item c.before.task_backlog c.id {item = c.item} c.target,
      c.running,
    ))

lookup-Change :
    (wid : String) (s t : Session) (c : Change wid s t) (j : String)
    → lookup j t.workflows ≡ (if wid == j then some c.after else lookup j s.workflows)
lookup-Change wid s t c j = rw c.written (lookup-insert wid j c.after s.workflows)

pub Change-SingleRunning :
    (wid : String) (s t : Session) → Change wid s t → SingleRunning s → SingleRunning t
Change-SingleRunning wid s t c h = rw c.written (
    EveryRow-insert _ wid c.after s.workflows
      (changed_running wid s t c (EveryRow_at _ wid s.workflows h c.stored)) h)

pub perform-SingleRunning :
    (wid : String) (call : QueueCall) (actor : Actor) (now : ℕ) (s : Session)
    → SingleRunning s
    → SingleRunning (perform wid call actor now s)
perform-SingleRunning wid call actor now s h = elim (perform-Effect wid actor now s call) [
  | inl same ↦ subst SingleRunning (sym same) h
  | inr c ↦ Change-SingleRunning wid s _ c h
]

-- A call on one workflow leaves every other workflow as it was.
pub perform-other_workflow :
    (wid : String) (call : QueueCall) (actor : Actor) (now : ℕ) (s : Session) (j : String)
    → wid ≢ j
    → lookup j (perform wid call actor now s).workflows ≡ lookup j s.workflows
perform-other_workflow wid call actor now s j ne = elim (perform-Effect wid actor now s call) [
  | inl same ↦ ap (λ (t : Session). lookup j t.workflows) same
  | inr c ↦ elim (Bool-cases (wid == j)) [
    | inl e ↦ absurd (ne ((eq_iff wid j).0 e))
    | inr e ↦ rw e at (lookup-Change wid s _ c j)
  ]
]

-- What one call makes of a workflow: the ids stand as they stood, and each item is as it was, or has
-- the next version.
pub record IsNextVersion (before after : PersistentWorkflow) : Type 0 where
  pub ids : map item_id_of after.task_backlog ≡ map item_id_of before.task_backlog
  pub items :
      (id : String) (item : WorkItem)
      → get_item before.task_backlog id ≡ ok item
      → (get_item after.task_backlog id ≡ ok item)
        ⊎ ((item' : WorkItem) × (get_item after.task_backlog id ≡ ok item')
            × (version_of item' ≡ version_of item + 1))

same_version : (wf : PersistentWorkflow) → IsNextVersion wf wf
same_version wf = record { ids = refl; items = λ id item h. inl h }

Change-IsNextVersion :
    (wid : String) (s t : Session) (c : Change wid s t) → IsNextVersion c.before c.after
Change-IsNextVersion wid s t c = record {
  ids = rw c.backlog (ids-change_item c.id c.f c.keeps c.before.task_backlog);
  items = λ id item h. rw c.backlog (elim (Bool-cases (c.id == id)) [
    | inl e ↦
        let same : c.id ≡ id = (eq_iff c.id id).0 e in
        let target : c.item ≡ item = cc (c.target, h, same) in
        inr (
          c.f c.item,
          subst (λ k. get_item (change_item c.id c.f c.before.task_backlog) k ≡ ok (c.f c.item))
              same (get_item-change_item c.id c.f c.keeps c.before.task_backlog c.target),
          subst (λ i. version_of (c.f c.item) ≡ version_of i + 1) target c.version,
        )
    | inr e ↦ inl (
        get_item-change_item_ne c.id c.f c.keeps c.before.task_backlog id
          (λ q. false≢true (sym e ∙ (eq_iff c.id id).1 q))
        ∙ h)
  ]);
}

-- Versions tell stale callers: after any call on a workflow, it still has the same item ids in the
-- same order, and each item that is found under an id is the same as before or has a version that is
-- larger by exactly one.
pub perform-IsNextVersion :
    (wid : String) (call : QueueCall) (actor : Actor) (now : ℕ) (s : Session)
    (before : PersistentWorkflow)
    → lookup wid s.workflows ≡ some before
    → (after : PersistentWorkflow) × (lookup wid (perform wid call actor now s).workflows
        ≡ some after)
      × IsNextVersion before after
perform-IsNextVersion wid call actor now s before h = elim (perform-Effect wid actor now s call) [
  | inl same ↦ (before, ap (λ (t : Session). lookup wid t.workflows) same ∙ h, same_version before)
  | inr c ↦ (
    c.after,
    ap (λ w. lookup wid w) c.written ∙ lookup-insert_self wid c.after s.workflows,
    subst (λ b. IsNextVersion b c.after) (cc (c.stored, h)) (Change-IsNextVersion wid s _ c),
  )
]
