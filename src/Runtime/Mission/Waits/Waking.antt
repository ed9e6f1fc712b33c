-- ===== src/Runtime/Mission/Waits/Waking.antt =====
-- runtime/mission.py: that a cleared wait wakes its mission, and that an open one keeps it open.
use lucius_engineering.Prelude.{
  ℕ, ◌≡◌, ◌≢◌, refl, sym, subst, ap, ◌∙◌, ◌&&◌, String, Bool, true, false, not, Option, some, List,
  [], ◌∷◌, map, arith, inl, inr, ◌==◌, eq_iff, any, In, here, there, In-append, In-of_left,
  In-of_right, any-In, Table, lookup, insert, lookup-insert_self, ok, Bool-cases,
}
use lucius_engineering.Prelude.Exec.{modify, ◌>>◌}
use lucius_engineering.Domain.Enums.{Actor, QueueWorkItemState}
use lucius_engineering.Persistence.Orm.{text, WorkItem, PersistentWorkflow}
use lucius_engineering.Runtime.Mission.{
  MissionStatus, DurableMission, DurableWait, MissionStore, all_items, is_item, set_item,
  update_item_state,
}
use lucius_engineering.Runtime.Mission.Reconcile.{
  is_waiting_class, is_ready, uncleared_of, reconciled, reconcile_mission_state,
}
use lucius_engineering.Runtime.Mission.Reconcile.Status.{reconciled-active, reconciled-completed}
use lucius_engineering.Runtime.Mission.Waits.{
  WaitCreate, write_wait, record_wait, write_cleared, clear_wait, reconcile, free_item, set_items,
  audit_mission, new_wait, set_waiting, item_state_for,
}

-- An item with the id, somewhere in the backlogs.
abbrev pub HasItem : String → Table PersistentWorkflow → Type 0
HasItem id workflows = (i : WorkItem) × In i (all_items workflows) × (is_item id i ≡ true)

-- What is ready when an item with the id is set to READY.
readied :
    (id : String) (items : List WorkItem)
    → any (is_item id) items ≡ true
    → (i : WorkItem) × In i (map (set_item id QueueWorkItemState.ready) items) × (is_ready i ≡ true)
unfolding any
readied id [] e = absurd (ground arith)
readied id (x ∷ xs) e = elim (Bool-cases (is_item id x)) [
  | inl q ↦ (record x { state = text "READY" }, In-first (rw q refl), refl)
  | inr q ↦ let (i, m, r) = readied id xs (rw q at e) in (i, there m, r)
]
  where
    In-first :
        {y : WorkItem} {ys : List WorkItem}
        → set_item id QueueWorkItemState.ready x ≡ y
        → In y (set_item id QueueWorkItemState.ready x ∷ ys)
    In-first {y} {ys} e = subst (λ z. In z (set_item id QueueWorkItemState.ready x ∷ ys)) e here

update_item_state-ready :
    (id : String) (workflows : Table PersistentWorkflow)
    → HasItem id workflows
    → (i : WorkItem) × In i (all_items (update_item_state id QueueWorkItemState.ready workflows))
      × (is_ready i ≡ true)
unfolding update_item_state all_items
update_item_state-ready id [] (i, m, h) = elim m [ ]
update_item_state-ready id ((wid, wf) ∷ workflows) (i, m, h) =
    elim (Bool-cases (any (is_item id) wf.task_backlog)) [
      | inl q ↦
          let (j, n, r) = readied id wf.task_backlog q in
          (j, rw q (In-of_left _ (all_items workflows) n), r)
      | inr q ↦ elim (In-append wf.task_backlog (all_items workflows) m) [
        | inl n ↦ absurd (ground (arith, q, any-In (is_item id) i wf.task_backlog n h))
        | inr n ↦
            let (j, k, r) = update_item_state-ready id workflows (i, n, h) in
            (j, rw q (In-of_right wf.task_backlog _ k), r)
      ]
    ]

reconcile-active :
    (mission_id : String) (now : ℕ) (s : MissionStore) (m : DurableMission)
    → lookup mission_id s.missions ≡ some m
    → (i : WorkItem) → In i (all_items s.session.workflows)
    → is_ready i ≡ true
    → (m' : DurableMission) × (reconcile_mission_state mission_id now s
        ≡ ok (record s { missions = insert mission_id m' s.missions }))
      × (m'.status ≡ MissionStatus.active)
unfolding reconcile_mission_state
reconcile-active mission_id now s m e i n r =
    let open_waits = uncleared_of mission_id s.waits in
    (
      reconciled now (all_items s.session.workflows) open_waits m,
      rw e refl,
      (reconciled-active now (all_items s.session.workflows) open_waits m).1 (i, n, r),
    )

-- what follows the writes of a method that reconciles and records an event
settled-active :
    (mission_id event action : String) (actor : Actor) (now : ℕ) (s : MissionStore)
    (m : DurableMission)
    → lookup mission_id s.missions ≡ some m
    → (i : WorkItem) → In i (all_items s.session.workflows)
    → is_ready i ≡ true
    → (m' : DurableMission) × (lookup mission_id
          ((reconcile mission_id now >> modify (audit_mission event actor action "SUCCESS" now))
            s).1.missions
        ≡ some m')
      × (m'.status ≡ MissionStatus.active)
settled-active mission_id event action actor now s m e i n r =
    let (m', q, a) = reconcile-active mission_id now s m e i n r in
    (m', rw q (lookup-insert_self mission_id m' s.missions), a)

free_item-ready :
    (item_id : Option String) (waits : Bool) (id : String) (s : MissionStore)
    → item_id ≡ some id
    → waits ≡ true
    → (id == "") ≡ false
    → free_item item_id waits s ≡ set_items id QueueWorkItemState.ready s
free_item-ready item_id waits id s e f g = rw e (rw f (rw g refl))

-- To clear a wait for a resource, a dependency or a time makes its mission ACTIVE, where the item that
-- waited stands in a backlog and the mission is stored.
pub clear_wait-active :
    (wait_id : String) (w : DurableWait) (id : String) (m : DurableMission) (actor : Actor)
    (now : ℕ) (s : MissionStore)
    → lookup wait_id s.waits ≡ some w
    → w.item_id ≡ some id
    → (id == "") ≡ false
    → is_waiting_class w.wait_class ≡ true
    → HasItem id s.session.workflows
    → lookup w.mission_id s.missions ≡ some m
    → (m' : DurableMission) × (lookup w.mission_id (clear_wait wait_id actor now s).1.missions
        ≡ some m')
      × (m'.status ≡ MissionStatus.active)
unfolding clear_wait write_cleared
clear_wait-active wait_id w id m actor now s stored named some_id waits item mission =
    let (i, n, r) = update_item_state-ready id s.session.workflows item in
    let cleared : MissionStore = record s {
      waits = insert wait_id (record w { is_cleared = true; cleared_at = some now }) s.waits;
    } in
    let freed =
      free_item-ready w.item_id (is_waiting_class w.wait_class) id cleared named waits some_id in
    let (m', q, a) =
      settled-active w.mission_id "DURABLE_WAIT_CLEARED" "clear_wait" actor now
        (set_items id QueueWorkItemState.ready cleared) m mission i n r in
    (m', rw stored (rw freed q), a)

uncleared-insert :
    (mission_id wait_id : String) (w : DurableWait) (waits : Table DurableWait)
    → w.mission_id ≡ mission_id
    → w.is_cleared ≡ false
    → uncleared_of mission_id (insert wait_id w waits) ≢ []
unfolding uncleared_of insert
uncleared-insert mission_id wait_id w [] e f h =
    ground (arith, e, f, h, (eq_iff w.mission_id mission_id).1 e)
uncleared-insert mission_id wait_id w ((id, v) ∷ waits) e f h =
    let same = (eq_iff w.mission_id mission_id).1 e in
    let later = uncleared-insert mission_id wait_id w waits e f in
    elim (Bool-cases (id == wait_id)) [
      | inl q ↦ ground (arith, same, f, rw q at h)
      | inr q ↦ elim (Bool-cases (v.mission_id == mission_id && not v.is_cleared)) [
        | inl k ↦ ground (arith, rw k at (rw q at h))
        | inr k ↦ later (rw k at (rw q at h))
      ]
    ]

settled-open :
    (mission_id event action : String) (actor : Actor) (now : ℕ) (s : MissionStore)
    (m : DurableMission)
    → lookup mission_id s.missions ≡ some m
    → uncleared_of mission_id s.waits ≢ []
    → (m' : DurableMission) × (lookup mission_id
          ((reconcile mission_id now >> modify (audit_mission event actor action "SUCCESS" now))
            s).1.missions
        ≡ some m')
      × (m'.status ≢ MissionStatus.completed)
unfolding reconcile_mission_state
settled-open mission_id event action actor now s m e waiting =
    let items = all_items s.session.workflows in
    let open_waits = uncleared_of mission_id s.waits in
    (
      reconciled now items open_waits m,
      rw e (lookup-insert_self mission_id (reconciled now items open_waits m) s.missions),
      λ done. waiting (reconciled-completed now items open_waits m done).1,
    )

set_waiting-waits :
    (item_id : Option String) (state : Option QueueWorkItemState) (s : MissionStore)
    → ((set_waiting item_id state s).waits ≡ s.waits)
      × ((set_waiting item_id state s).missions ≡ s.missions)
set_waiting-waits item_id state s = ground arith

-- After a wait has been recorded for a stored mission, the mission is not COMPLETED, whatever its
-- items are.
pub record_wait-not_completed :
    (mission_id wait_id : String) (request : WaitCreate) (actor : Actor) (now : ℕ)
    (s : MissionStore) (m : DurableMission)
    → lookup mission_id s.missions ≡ some m
    → (m' : DurableMission) × (lookup mission_id
          (record_wait mission_id wait_id request actor now s).1.missions
        ≡ some m')
      × (m'.status ≢ MissionStatus.completed)
unfolding record_wait write_wait
record_wait-not_completed mission_id wait_id request actor now s m e =
    let stored = insert wait_id (new_wait mission_id request) s.waits in
    let (waits, missions) =
      set_waiting-waits request.item_id (item_state_for request.wait_class)
        (record s { waits = stored }) in
    settled-open mission_id "DURABLE_WAIT_RECORDED" "record_wait" actor now
      (set_waiting request.item_id (item_state_for request.wait_class)
        (record s { waits = stored }))
      m (ap (lookup mission_id) missions ∙ e)
      (λ none'.
        uncleared-insert mission_id wait_id (new_wait mission_id request) s.waits refl refl
          (sym (ap (uncleared_of mission_id) waits) ∙ none'))
