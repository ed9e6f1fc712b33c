-- ===== src/Pilots/Queue/Selection/Choice.antt =====
-- What a selection within a workflow guarantees.
use lucius_engineering.Prelude.{
  String, ◌≡◌, ◌≢◌, ◌↔◌, ◌⊎◌, inl, inr, refl, sym, subst, true, false, none, some, List, [], ◌∷◌,
  arith, keep, is_empty, ok, In, here, In-keep, In-of_keep, Bool-cases,
}
use lucius_engineering.Prelude.Sorting.{sorted, sorted-In, In-of_sorted, sorted_head}
use lucius_engineering.Pilots.Queue.Parsed.{QueueItem}
use lucius_engineering.Pilots.Queue.Order.{scoped-IsKeyOrder}
use lucius_engineering.Pilots.Queue.Selection.{
  is_eligible, scoped_le, QueueSelection, select_first, running_selection, executable, running_of,
  eligible_of, blocked_of, select_from,
}

-- What it means that a selection chose well among the parsed items.
pub record IsBestChoice (parsed : List QueueItem) (id : String) : Type 0 where
  pub item : QueueItem
  pub named : item.item_id ≡ id
  pub present : In item parsed
  pub schedulable : item.schedulable ≡ true
  pub eligible : is_eligible (executable parsed) item ≡ true
  pub nothing_running : running_of parsed ≡ []
  pub least : (j : QueueItem) → In j (eligible_of parsed) → scoped_le item j ≡ true

ordered : List QueueItem → List QueueItem
ordered parsed = sorted scoped_le (eligible_of parsed)

pub In-eligible_of :
    (parsed : List QueueItem) (i : QueueItem)
    → In i (eligible_of parsed)
    → In i parsed × (i.schedulable ≡ true) × (is_eligible (executable parsed) i ≡ true)
unfolding eligible_of executable
In-eligible_of parsed i m =
    let (inner, e) = In-of_keep (is_eligible (keep (λ j. j.schedulable) parsed)) i _ m in
    let (outer, s) = In-of_keep (λ j. j.schedulable) i parsed inner in (outer, s, e)

pub In-of_eligible :
    (parsed : List QueueItem) (i : QueueItem)
    → In i parsed
    → i.schedulable ≡ true
    → is_eligible (executable parsed) i ≡ true
    → In i (eligible_of parsed)
unfolding eligible_of executable
In-of_eligible parsed i m s e = In-keep _ i _ (In-keep _ i parsed m s) e

best_of_ordered :
    (parsed : List QueueItem) (i : QueueItem) (rest : List QueueItem)
    → running_of parsed ≡ []
    → ordered parsed ≡ i ∷ rest
    → IsBestChoice parsed i.item_id
unfolding ordered
best_of_ordered parsed i rest idle e =
    let m : In i (eligible_of parsed) =
      In-of_sorted scoped_le (eligible_of parsed) (subst (In i) (sym e) here) in
    let (present, schedulable, eligible) = In-eligible_of parsed i m in
    record {
      item = i;
      named = refl;
      present = present;
      schedulable = schedulable;
      eligible = eligible;
      nothing_running = idle;
      least = sorted_head scoped_le scoped-IsKeyOrder i (eligible_of parsed) rest e;
    }

-- how `select_from` comes out, by its tests
pub data Outcome (parsed : List QueueItem) (sel : QueueSelection) : Type 0 where
  busy : running_of parsed ≢ [] → sel ≡ running_selection (running_of parsed) → Outcome parsed sel
  idle :
      running_of parsed ≡ []
      → eligible_of parsed ≡ []
      → sel ≡ select_first (blocked_of parsed) []
      → Outcome parsed sel
  picked :
      (i : QueueItem) (rest : List QueueItem)
      → running_of parsed ≡ []
      → sorted scoped_le (eligible_of parsed) ≡ i ∷ rest
      → sel ≡ select_first (blocked_of parsed) (i ∷ rest)
      → Outcome parsed sel

not_empty : {A : Type 0} (xs : List A) → is_empty xs ≡ false → xs ≢ []
not_empty [] h e = cc
not_empty (x ∷ xs) h e = cc

empty : {A : Type 0} (xs : List A) → is_empty xs ≡ true → xs ≡ []
empty [] h = refl
empty (x ∷ xs) h = cc

sorted_empty : (xs : List QueueItem) → sorted scoped_le xs ≡ [] → xs ≡ []
sorted_empty [] e = refl
sorted_empty (x ∷ xs) e = absurd (elim (subst (In x) e (sorted-In scoped_le (x ∷ xs) here)) [ ])

idle-Outcome :
    (parsed : List QueueItem) (xs : List QueueItem)
    → running_of parsed ≡ []
    → sorted scoped_le (eligible_of parsed) ≡ xs
    → Outcome parsed (select_first (blocked_of parsed) xs)
idle-Outcome parsed [] r e = idle r (sorted_empty (eligible_of parsed) e) refl
idle-Outcome parsed (i ∷ rest) r e = picked i rest r e refl

pub select_from-Outcome :
    (parsed : List QueueItem) (sel : QueueSelection)
    → select_from parsed ≡ ok sel
    → Outcome parsed sel
unfolding select_from
select_from-Outcome parsed sel h = elim (Bool-cases (is_empty (running_of parsed))) [
  | inl e ↦
      let chosen : select_first (blocked_of parsed) (sorted scoped_le (eligible_of parsed)) ≡ sel =
        ground (arith) in
      subst (Outcome parsed) chosen (idle-Outcome parsed _ (empty (running_of parsed) e) refl)
  | inr e ↦ busy (not_empty (running_of parsed) e) (ground arith)
]

selected_of_Outcome :
    (parsed : List QueueItem) (sel : QueueSelection) (id : String)
    → Outcome parsed sel
    → sel.selected_item_id ≡ some id
    → IsBestChoice parsed id
unfolding select_first running_selection
selected_of_Outcome parsed sel id (busy r e) h = cc
selected_of_Outcome parsed sel id (idle r n e) h = cc
selected_of_Outcome parsed sel id (picked i rest r o e) h =
    subst (IsBestChoice parsed) (cc) (best_of_ordered parsed i rest r (unfold ordered in o))

-- When `select_next` picks an item, no item of the workflow is running, and the item is a parsed
-- item that is schedulable, ready or ready to resume with all its dependencies completed; its
-- priority, state class, age and id come first among all items of which that holds.
pub select_next_best :
    (parsed : List QueueItem) (sel : QueueSelection) (id : String)
    → select_from parsed ≡ ok sel
    → sel.selected_item_id ≡ some id
    → IsBestChoice parsed id
select_next_best parsed sel id h e =
    selected_of_Outcome parsed sel id (select_from-Outcome parsed sel h) e

nothing_of_Outcome :
    (parsed : List QueueItem) (sel : QueueSelection)
    → Outcome parsed sel
    → (sel.selected_item_id ≡ none) ↔ ((running_of parsed ≢ []) ⊎ (eligible_of parsed ≡ []))
unfolding select_first running_selection
nothing_of_Outcome parsed sel (busy r e) = ((λ h. inl r), (λ h. cc))
nothing_of_Outcome parsed sel (idle r n e) = ((λ h. inr n), (λ h. cc))
nothing_of_Outcome parsed sel (picked i rest r o e) = ((λ h. cc), refute)
  where
    refute : (running_of parsed ≢ []) ⊎ (eligible_of parsed ≡ []) → sel.selected_item_id ≡ none
    refute (inl some_running) = absurd (some_running r)
    refute (inr nothing) = absurd (
        elim (subst (In i) nothing
          (In-of_sorted scoped_le (eligible_of parsed) (subst (In i) (sym o) here))) [ ])

-- `select_next` picks nothing exactly when an item is running or no item is eligible: no eligible
-- work is left waiting while nothing runs, and nothing running is preempted.
pub select_next_idle :
    (parsed : List QueueItem) (sel : QueueSelection)
    → select_from parsed ≡ ok sel
    → (sel.selected_item_id ≡ none) ↔ ((running_of parsed ≢ []) ⊎ (eligible_of parsed ≡ []))
select_next_idle parsed sel h = nothing_of_Outcome parsed sel (select_from-Outcome parsed sel h)
