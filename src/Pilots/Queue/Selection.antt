-- ===== src/Pilots/Queue/Selection.antt =====
-- pilots/queue.py: the selection of the next item of a workflow, and its status.
pub mod Choice
pub mod Independence
use lucius_engineering.Prelude.{
  ℕ, String, ◌≡◌, refl, Bool, true, false, ◌&&◌, ◌||◌, not, Option, none, some, List, [], ◌∷◌, ◌++◌,
  arith, map, if◌then◌else◌, ◌==◌, ltb, eqb, ◌-◌, keep, all, mem, is_empty, Result, ok, err, ◌>>=◌,
  refuse, codes, str_leb, then_by, then_by_text,
}
use lucius_engineering.Prelude.Sorting.{sorted}
use lucius_engineering.Domain.Enums.{QueueWorkItemState}
use lucius_engineering.Persistence.Orm.{WorkItem, PersistentWorkflow}
use lucius_engineering.Pilots.Queue.Errors.{
  ExclusionReason, QueueError, duplicate_item_id, duplicate_running,
}
use lucius_engineering.Pilots.Queue.Parsed.{QueueItem, all_distinct, execution_items}
use lucius_engineering.Pilots.Queue.Items.{
  is_blocked_state, is_eligible_state, is_running_state, is_ready_state, is_resumable_state,
  is_completed_state, is_failed_state, has_state, item_id_of, logical_id_of, int_or_zero,
  ParsedState, ParsedPriority, parse_global_state, parse_global_priority,
}

unfoldable pub dependencies_complete : QueueItem → List QueueItem → Bool
dependencies_complete item items =
    all
      (λ dependency. mem dependency (
        map (λ (c : QueueItem). c.item_id)
          (keep (λ c. c.workflow_id == item.workflow_id && has_state is_completed_state c.state)
            items)))
      item.dependencies

unfoldable pub is_eligible : List QueueItem → QueueItem → Bool
is_eligible items item = has_state is_eligible_state item.state && dependencies_complete item items

unfoldable pub is_waiting : List QueueItem → QueueItem → Bool
is_waiting items item =
    has_state is_blocked_state item.state || not (dependencies_complete item items)

abbrev pub is_running : QueueItem → Bool
is_running item = has_state is_running_state item.state

-- `str.upper` on ASCII
upper : ℕ → ℕ
upper c = if ltb 96 c && ltb c 123 then c - 32 else c

same_text : List ℕ → List ℕ → Bool
same_text [] [] = true
same_text (a ∷ as') (b ∷ bs) = eqb a b && same_text as' bs
same_text _ _ = false

unfoldable pub upper_is : String → String → Bool
unfolding upper same_text
upper_is p name = same_text (map upper (codes p)) (codes name)

-- `PRIORITY_RANK.get(p.upper(), PRIORITY_RANK["NORMAL"])`
unfoldable pub priority_rank : String → ℕ
unfolding upper_is
priority_rank p =
    if upper_is p "CRITICAL"
    then 0
    else if upper_is p "HIGH"
    then 1
    else if upper_is p "NORMAL"
    then 2
    else if upper_is p "LOW"
    then 3
    else 2

-- `STATE_CLASS_RANK.get(state, 9)`
unfoldable pub state_rank : Option QueueWorkItemState → ℕ
state_rank (some QueueWorkItemState.ready_to_resume) = 0
state_rank (some QueueWorkItemState.ready) = 1
state_rank _ = 9

-- `_scoped_selection_key(a) <= _scoped_selection_key(b)`
unfoldable pub scoped_le : QueueItem → QueueItem → Bool
scoped_le a b = then_by (priority_rank a.priority) (priority_rank b.priority) (
    then_by (state_rank a.state) (state_rank b.state)
      (then_by a.created_order b.created_order (str_leb a.item_id b.item_id)))

-- The text of a selection's reason, by its parts.
pub data SelectionReason : Type 0 where
  running_item_active : SelectionReason
  no_eligible_work : SelectionReason
  chosen : String → Option QueueWorkItemState → ℕ → SelectionReason

pub record QueueSelection : Type 0 where
  pub selected_item_id : Option String
  pub reason : SelectionReason
  pub eligible_item_ids : List String
  pub blocked_item_ids : List String
  pub running_item_ids : List String

abbrev pub ids_of : List QueueItem → List String
ids_of = map (λ (i : QueueItem). i.item_id)

-- `sorted(eligible, key=…)[0]` with its list, or no eligible work
unfoldable pub select_first : List QueueItem → List QueueItem → QueueSelection
select_first blocked [] = record {
  selected_item_id = none;
  reason = no_eligible_work;
  eligible_item_ids = [];
  blocked_item_ids = ids_of blocked;
  running_item_ids = [];
}
select_first blocked (selected ∷ rest) = record {
  selected_item_id = some selected.item_id;
  reason = chosen selected.priority selected.state selected.created_order;
  eligible_item_ids = ids_of (selected ∷ rest);
  blocked_item_ids = ids_of blocked;
  running_item_ids = [];
}

unfoldable pub running_selection : List QueueItem → QueueSelection
running_selection running = record {
  selected_item_id = none;
  reason = running_item_active;
  eligible_item_ids = [];
  blocked_item_ids = [];
  running_item_ids = ids_of running;
}

-- the comprehensions of `select_next` and `inspect` over the parsed items
unfoldable pub executable : List QueueItem → List QueueItem
executable = keep (λ i. i.schedulable)

unfoldable pub stateful : List QueueItem → List QueueItem
stateful = keep (λ i. i.queue_state_present)

unfoldable pub running_of : List QueueItem → List QueueItem
running_of items = keep is_running (stateful items)

unfoldable pub eligible_of : List QueueItem → List QueueItem
eligible_of items = keep (is_eligible (executable items)) (executable items)

unfoldable pub blocked_of : List QueueItem → List QueueItem
blocked_of items = keep (is_waiting (executable items)) (executable items)

-- `select_next`, after the items have been parsed.
unfoldable pub select_from : List QueueItem → Result QueueError QueueSelection
select_from parsed =
    refuse (not (all_distinct (map (λ (i : QueueItem). i.logical_task_id) (running_of parsed))))
      duplicate_running
      (ok (
        if is_empty (running_of parsed)
        then select_first (blocked_of parsed) (sorted scoped_le (eligible_of parsed))
        else running_selection (running_of parsed)))

unfoldable pub select_next : String → PersistentWorkflow → Result QueueError QueueSelection
select_next wid wf = execution_items wid wf >>= select_from

-- `QueueStatus` of pilots/schemas.py, with the parsed items in place of their dictionaries.
pub record QueueStatus : Type 0 where
  pub workflow_id : String
  pub running : List QueueItem
  pub blocked : List QueueItem
  pub ready : List QueueItem
  pub ready_to_resume : List QueueItem
  pub dependency_blocked : List QueueItem
  pub completed : List QueueItem
  pub failed : List QueueItem
  pub excluded : List QueueItem
  pub next_selection : QueueSelection

unfoldable pub status_from : String → List QueueItem → QueueSelection → QueueStatus
status_from wid parsed selection =
    let items = executable parsed in
    record {
      workflow_id = wid;
      running = keep is_running items;
      blocked = keep (λ i. has_state is_blocked_state i.state) items;
      ready = keep (λ i. has_state is_ready_state i.state && dependencies_complete i items) items;
      ready_to_resume =
          keep (λ i. has_state is_resumable_state i.state && dependencies_complete i items) items;
      dependency_blocked = keep (λ i. not (dependencies_complete i items)) items;
      completed = keep (λ i. has_state is_completed_state i.state) items;
      failed = keep (λ i. has_state is_failed_state i.state) items;
      excluded = keep (λ i. not i.schedulable) parsed;
      next_selection = selection;
    }

unfoldable pub inspect : String → PersistentWorkflow → Result QueueError QueueStatus
inspect wid wf = do
  parsed ← execution_items wid wf
  selection ← select_next wid wf
  ok (status_from wid parsed selection)
