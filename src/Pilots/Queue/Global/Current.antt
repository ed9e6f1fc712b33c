-- ===== src/Pilots/Queue/Global/Current.antt =====
-- A global start acts on the current selection only.
use lucius_engineering.Prelude.{
  ℕ, String, ◌≡◌, refl, ap, true, Option, none, some, List, arith, ok, Result-cases, inl, inr,
  eq_iff, same_option,
}
use lucius_engineering.Domain.Enums.{Actor}
use lucius_engineering.Persistence.Orm.{WorkItem, PersistentWorkflow, Session}
use lucius_engineering.Pilots.Queue.Global.{GlobalQueueSelection, select_global_next}
use lucius_engineering.Pilots.Queue.Global.Starting.{
  same_version, same_selection, global_guard, start_global_selection,
}

guard-current :
    (selection : GlobalQueueSelection) (wids : List String) (s : Session)
    {p : PersistentWorkflow × WorkItem}
    → global_guard selection wids s ≡ ok p
    → (current : GlobalQueueSelection) × (select_global_next wids s ≡ ok current)
      × (same_selection current selection ≡ true)
unfolding global_guard
guard-current selection wids s h = elim (Result-cases (select_global_next wids s)) [
  | inl (current, e) ↦ (current, e, ground (arith, e, h))
  | inr (x, e) ↦ absurd (ground (arith, e, h))
]

-- Two selections name the same item of the same workflow and project, at the same version.
pub record IsSameChoice (a b : GlobalQueueSelection) : Type 0 where
  pub project : a.selected_project_id ≡ b.selected_project_id
  pub workflow : a.selected_workflow_id ≡ b.selected_workflow_id
  pub item : a.selected_item_id ≡ b.selected_item_id
  pub version : a.selected_item_version ≡ b.selected_item_version

equal_texts : (a b : Option String) → same_option a b ≡ true → a ≡ b
equal_texts none none e = refl
equal_texts none (some b) e = absurd (ground (arith, e))
equal_texts (some a) none e = absurd (ground (arith, e))
equal_texts (some a) (some b) e = ap some ((eq_iff a b).0 e)

equal_versions : (a b : Option ℕ) → same_version a b ≡ true → a ≡ b
equal_versions none none e = refl
equal_versions none (some b) e = absurd (ground (arith, e))
equal_versions (some a) none e = absurd (ground (arith, e))
equal_versions (some a) (some b) e = ap some (ground (arith, e))

same_selection-IsSameChoice :
    (a b : GlobalQueueSelection) → same_selection a b ≡ true → IsSameChoice a b
same_selection-IsSameChoice a b e = record {
  project = equal_texts a.selected_project_id b.selected_project_id (ground (arith, e));
  workflow = equal_texts a.selected_workflow_id b.selected_workflow_id (ground (arith, e));
  item = equal_texts a.selected_item_id b.selected_item_id (ground (arith, e));
  version = equal_versions a.selected_item_version b.selected_item_version (ground (arith, e));
}

-- When starting the item of a global selection returns, selecting anew in the session before the
-- call gives the same project, workflow, item and version.
pub start-current :
    (selection : GlobalQueueSelection) (wids : List String) (actor : Actor) (now : ℕ)
    (s t : Session)
    → start_global_selection selection wids actor now s ≡ (ok tt, t)
    → (current : GlobalQueueSelection) × (select_global_next wids s ≡ ok current)
      × IsSameChoice current selection
unfolding start_global_selection
start-current selection wids actor now s t h = elim (Result-cases (global_guard selection wids s)) [
  | inl (p, e) ↦
      let (current, q, same) = guard-current selection wids s e in
      (current, q, same_selection-IsSameChoice current selection same)
  | inr (x, e) ↦ absurd (ground (arith, e, h))
]
