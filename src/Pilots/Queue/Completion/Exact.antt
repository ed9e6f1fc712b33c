-- ===== src/Pilots/Queue/Completion/Exact.antt =====
-- The completed and pending ids that completing an item stores are exact.
use lucius_engineering.Prelude.{
  ℕ, String, ◌≡◌, ◌≢◌, ◌↔◌, ◌⊎◌, refl, ap, sym, subst, Option, none, some, not, ok, Result-cases,
  lookup, lookup-insert_self, inl, inr, Bool, true, List, [], ◌∷◌, arith, map, keep, mem, distinct,
  distinct-In, In-of_distinct, mem_iff, In, In-cons, In-map, In-of_map, In-keep, In-of_keep,
  str_leb,
}
use lucius_engineering.Prelude.Sorting.{sorted, sorted-In, In-of_sorted}
use lucius_engineering.Persistence.Orm.{WorkItem, PersistentWorkflow, Session}
use lucius_engineering.Pilots.Queue.Items.{
  item_id_of, state_if_valid, has_state, is_completed_state, is_terminal_state,
}
use lucius_engineering.Pilots.Queue.Parsed.{all_distinct}
use lucius_engineering.Pilots.Queue.Completion.{
  is_completed_item, is_pending_item, completed_ids, pending_ids, mark_completed, complete_item,
}
use lucius_engineering.Domain.Enums.{Actor, QueueWorkItemState}
use lucius_engineering.Pilots.Queue.Guards.{complete_guard}
use lucius_engineering.Pilots.Queue.Operations.{
  change_item, put_workflow, audit_workflow, with_backlog,
}

-- An item of the list has the id `k` and passes the test `p`.
abbrev pub Listed : (WorkItem → Bool) → List WorkItem → String → Type 0
Listed p items k = (item : WorkItem) × In item items × (p item ≡ true) × (item_id_of item ≡ k)

sorted_ids_iff :
    (p : WorkItem → Bool) (items : List WorkItem) (k : String)
    → In k (sorted str_leb (distinct (map item_id_of (keep p items)))) ↔ Listed p items k
sorted_ids_iff p items k = (to, from)
  where
    to : In k (sorted str_leb (distinct (map item_id_of (keep p items)))) → Listed p items k
    to m =
        let (item, i, e) =
          In-of_map item_id_of (keep p items)
            (In-of_distinct (map item_id_of (keep p items)) (In-of_sorted str_leb _ m)) in
        let (j, q) = In-of_keep p item items i in (item, j, q, e)

    from : Listed p items k → In k (sorted str_leb (distinct (map item_id_of (keep p items))))
    from (item, i, q, e) = sorted-In str_leb _ (
        distinct-In (map item_id_of (keep p items)) (
          subst (λ y. In y (map item_id_of (keep p items))) e
            (In-map item_id_of (keep p items) (In-keep p item items i q))))

completed_pending_exact :
    (items : List WorkItem) (k : String)
    → (In k (completed_ids items) ↔ Listed is_completed_item items k)
      × (In k (pending_ids items) ↔ Listed is_pending_item items k)
unfolding completed_ids pending_ids
completed_pending_exact items k =
    (sorted_ids_iff is_completed_item items k, sorted_ids_iff is_pending_item items k)

-- An item of the list has the id `k` and the property `P`.
abbrev pub Named : (WorkItem → Type 0) → List WorkItem → String → Type 0
Named P items k = (item : WorkItem) × In item items × P item × (item_id_of item ≡ k)

abbrev pub IsCompleted : WorkItem → Type 0
IsCompleted item = state_if_valid item.state ≡ some QueueWorkItemState.completed

-- The state is another one than COMPLETED and FAILED, or no valid one.
abbrev pub IsPending : WorkItem → Type 0
IsPending item =
    (state_if_valid item.state ≢ some QueueWorkItemState.completed)
    × (state_if_valid item.state ≢ some QueueWorkItemState.failed)

completed_state_iff :
    (o : Option QueueWorkItemState)
    → (has_state is_completed_state o ≡ true) ↔ (o ≡ some QueueWorkItemState.completed)
completed_state_iff none = ((λ h. absurd (ground (arith, h))), (λ h. absurd (ground (arith, h))))
completed_state_iff (some q) = (
  to q,
  (λ h.
      subst (λ (x : Option QueueWorkItemState). has_state is_completed_state x ≡ true) (sym h)
        refl),
)
  where
    to :
        (q : QueueWorkItemState)
        → is_completed_state q ≡ true
        → some q ≡ some QueueWorkItemState.completed
    to q h = ground arith

terminal_clash :
    (o : Option QueueWorkItemState)
    → not (has_state is_terminal_state o) ≡ true
    → (o ≡ some QueueWorkItemState.completed) ⊎ (o ≡ some QueueWorkItemState.failed)
    → ⊥
terminal_clash o h (inl e) = absurd (
    ground (
      arith,
      subst (λ (x : Option QueueWorkItemState). not (has_state is_terminal_state x) ≡ true) e h,
    ))
terminal_clash o h (inr e) = absurd (
    ground (
      arith,
      subst (λ (x : Option QueueWorkItemState). not (has_state is_terminal_state x) ≡ true) e h,
    ))

pending_state_iff :
    (o : Option QueueWorkItemState)
    → (not (has_state is_terminal_state o) ≡ true)
      ↔ ((o ≢ some QueueWorkItemState.completed) × (o ≢ some QueueWorkItemState.failed))
pending_state_iff none =
    ((λ h. ((λ e. absurd (ground (arith, e))), (λ e. absurd (ground (arith, e))))), (λ h. refl))
pending_state_iff (some q) = (
  (λ h. ((λ e. terminal_clash (some q) h (inl e)), (λ e. terminal_clash (some q) h (inr e)))),
  (λ h. ground (arith, h)),
)

-- the ids of the items with a test, and those of the items with the property that it decides
Listed-Named :
    (p : WorkItem → Bool) (P : WorkItem → Type 0) (items : List WorkItem) (k : String)
    → ((item : WorkItem) → (p item ≡ true) ↔ P item)
    → Listed p items k ↔ Named P items k
Listed-Named p P items k decides = (
  (λ (item, i, q, e). (item, i, (decides item).0 q, e)),
  (λ (item, i, q, e). (item, i, (decides item).1 q, e)),
)

chain : {A B C : Type 0} → A ↔ B → B ↔ C → A ↔ C
chain f g = ((λ a. g.0 (f.0 a)), (λ c. f.1 (g.1 c)))

IsCompleted-iff :
    (items : List WorkItem) (k : String) → In k (completed_ids items) ↔ Named IsCompleted items k
IsCompleted-iff items k = chain (completed_pending_exact items k).0 (
    Listed-Named is_completed_item IsCompleted items k
      (λ item. completed_state_iff (state_if_valid item.state)))

IsPending-iff :
    (items : List WorkItem) (k : String) → In k (pending_ids items) ↔ Named IsPending items k
IsPending-iff items k = chain (completed_pending_exact items k).1 (
    Listed-Named is_pending_item IsPending items k
      (λ item. pending_state_iff (state_if_valid item.state)))

-- When `complete_item` returns, the workflow is stored with exactly the ids of the items of its backlog
-- that are COMPLETED as `completed_task_ids`, and with exactly the ids of those whose state is neither
-- COMPLETED nor FAILED, or not valid, as `pending_task_ids`.
pub complete_item_exact :
    (wid id : String) (substeps : List String) (actor : Actor) (now : ℕ) (s t : Session)
    (item : WorkItem)
    → complete_item wid id substeps actor now s ≡ (ok item, t)
    → (wf : PersistentWorkflow) × (lookup wid t.workflows ≡ some wf)
      × ((k : String) → In k wf.completed_task_ids ↔ Named IsCompleted wf.task_backlog k)
      × ((k : String) → In k wf.pending_task_ids ↔ Named IsPending wf.task_backlog k)
unfolding complete_item put_workflow audit_workflow with_backlog
complete_item_exact wid id substeps actor now s t item e =
    elim (Result-cases (complete_guard wid id s)) [
      | inr (x, q) ↦ absurd (ground (arith, rw q at e))
      | inl ((wf, old), q) ↦
          subst
            (λ (u : Session).
              (row : PersistentWorkflow) × (lookup wid u.workflows ≡ some row)
              × ((k : String) → In k row.completed_task_ids ↔ Named IsCompleted row.task_backlog k)
              × ((k : String) → In k row.pending_task_ids ↔ Named IsPending row.task_backlog k))
            (ap (λ r. r.1) (rw q at e))
            (
              _,
              lookup-insert_self wid _ s.workflows,
              (λ k.
                  IsCompleted-iff (change_item id (mark_completed substeps now) wf.task_backlog) k),
              (λ k. IsPending-iff (change_item id (mark_completed substeps now) wf.task_backlog) k),
            )
    ]

-- two items with one id are one item, where the ids are distinct
one_item :
    (items : List WorkItem) (a b : WorkItem)
    → all_distinct (map item_id_of items) ≡ true
    → In a items
    → In b items
    → item_id_of a ≡ item_id_of b
    → a ≡ b
unfolding all_distinct
one_item [] a b d ma mb e = elim ma [ ]
one_item (x ∷ items) a b d ma mb e = elim (In-cons ma) [
  | inl p ↦ elim (In-cons mb) [ inl q ↦ cc | inr nb ↦ absurd (clash b nb (cc)) ]
  | inr na ↦ elim (In-cons mb) [
    | inl q ↦ absurd (clash a na (cc))
    | inr nb ↦ one_item items a b (ground arith) na nb e
  ]
]
  where
    clash : (c : WorkItem) → In c items → item_id_of c ≡ item_id_of x → ⊥
    clash c m q =
        let present : mem (item_id_of x) (map item_id_of items) ≡ true =
          (mem_iff _ _).1
            (subst (λ k. In k (map item_id_of items)) q (In-map item_id_of items m)) in
        ground arith

-- Where the ids of a backlog are distinct, no id is both completed and pending.
pub completed_pending_disjoint :
    (items : List WorkItem) (k : String)
    → all_distinct (map item_id_of items) ≡ true
    → In k (completed_ids items)
    → ¬ In k (pending_ids items)
completed_pending_disjoint items k d c p =
    let (a, ma, qa, ea) = (completed_pending_exact items k).0.0 c in
    let (b, mb, qb, eb) = (completed_pending_exact items k).1.0 p in
    let same : a ≡ b = one_item items a b d ma mb (cc (ea, eb)) in
    terminal_is_not_pending a qa (subst (λ i. is_pending_item i ≡ true) (sym same) qb)
  where
    terminal_is_not_pending :
        (i : WorkItem) → is_completed_item i ≡ true → is_pending_item i ≡ true → ⊥
    terminal_is_not_pending i h k = ground arith
