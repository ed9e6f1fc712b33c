-- ===== src/Pilots/Queue/Guards.antt =====
-- pilots/queue.py: what the methods that change one workflow look up and check before they write.
-- Each guard raises as the method does, in the order of the method's tests, and returns what it found.
use lucius_engineering.Prelude.{
  ℕ, String, Bool, false, ◌||◌, not, Option, none, some, List, [], ◌∷◌, if◌then◌else◌, ◌==◌, eqb,
  find_first, lookup, Result, ok, err, found, refuse, raise_when, ◌>>=◌, ◌>>◌,
}
use lucius_engineering.Domain.Enums.{QueueWorkItemState, item_state_value, parse_item_state}
use lucius_engineering.Persistence.Orm.{
  RawField, missing, none_value, text, WorkItem, PersistentWorkflow, Session,
}
use lucius_engineering.Pilots.Queue.Errors
use lucius_engineering.Pilots.Queue.Errors.{QueueError, ExclusionReason}
use lucius_engineering.Pilots.Queue.Items.{
  is_blocked_state, is_eligible_state, is_running_state, is_resumable_state, has_state,
  workflow_execution_exclusion_reason, item_id_of, int_or_zero, state_of,
}
use lucius_engineering.Pilots.Queue.Parsed.{QueueItem, execution_items}
use lucius_engineering.Pilots.Queue.Selection.{QueueSelection, select_next}

unfoldable pub get_workflow : String → Session → Result QueueError PersistentWorkflow
get_workflow wid s = found (Errors.unknown_workflow wid) (lookup wid s.workflows)

abbrev pub has_id : String → WorkItem → Bool
has_id id item = item_id_of item == id

-- `_item`: the first item with the id
unfoldable pub get_item : List WorkItem → String → Result QueueError WorkItem
get_item items id = found (Errors.unknown_item id) (find_first (has_id id) items)

-- the workflow and the item that a method is called on
unfoldable pub find_target :
    String → String → Session → Result QueueError (PersistentWorkflow × WorkItem)
find_target wid item_id s = do
  wf ← get_workflow wid s
  item ← get_item wf.task_backlog item_id
  ok (wf, item)

-- an error for the reason of an exclusion, if there is one
abbrev pub raise_reason :
    (ExclusionReason → QueueError) → Option ExclusionReason → Result QueueError (Unit {0})
raise_reason e none = ok tt
raise_reason e (some reason) = err (e reason)

-- the reason of the first excluded item, when nothing was selected
unfoldable pub first_excluded : List QueueItem → Option ExclusionReason
first_excluded [] = none
first_excluded (item ∷ items) =
    let rest = first_excluded items in if item.schedulable then rest else item.exclusion_reason

unfoldable pub executable_state : Option QueueItem → Result QueueError (Unit {0})
executable_state none = err Errors.selected_missing
executable_state (some item) =
    refuse (not item.schedulable) Errors.selected_not_schedulable
      (refuse (not (has_state is_eligible_state item.state)) Errors.selected_not_eligible (ok tt))

-- the item to start, or none when nothing is selected and nothing is excluded
unfoldable pub selected_item :
    PersistentWorkflow → List QueueItem → Option String → Result QueueError (Option WorkItem)
selected_item wf parsed none = do
  raise_reason Errors.item_not_executable (first_excluded parsed)
  ok none
selected_item wf parsed (some id) = do
  item ← get_item wf.task_backlog id
  executable_state (find_first (λ (c : QueueItem). c.item_id == id) parsed)
  ok (some item)

unfoldable pub start_guard :
    String → Session → Result QueueError (PersistentWorkflow × QueueSelection × Option WorkItem)
start_guard wid s = do
  wf ← get_workflow wid s
  raise_reason Errors.workflow_not_executable (workflow_execution_exclusion_reason wf)
  selection ← select_next wid wf
  parsed ← execution_items wid wf
  item ← selected_item wf parsed selection.selected_item_id
  ok (wf, selection, item)

unfoldable pub block_guard :
    String
    → String
    → QueueWorkItemState
    → Session
    → Result QueueError (PersistentWorkflow × WorkItem × QueueWorkItemState)
block_guard wid item_id blocking_state s = do
  raise_when (not (is_blocked_state blocking_state)) (Errors.blocking_state_required blocking_state)
  (wf, item) ← find_target wid item_id s
  prior ← state_of item.state
  raise_when (not (is_running_state prior)) (Errors.not_running prior)
  ok (wf, item, prior)

-- equality of two states, as the comparison of two members of the enumeration
abbrev pub same_state : QueueWorkItemState → QueueWorkItemState → Bool
same_state p q = item_state_value p == item_state_value q

unfoldable pub dispatch_guard :
    String
    → String
    → QueueWorkItemState
    → QueueWorkItemState
    → ℕ
    → Session
    → Result QueueError (PersistentWorkflow × WorkItem × QueueWorkItemState)
dispatch_guard wid item_id blocking_state expected expected_version s = do
  raise_when (not (is_blocked_state blocking_state)) (Errors.blocking_state_required blocking_state)
  raise_when (not (is_eligible_state expected)) (Errors.not_dispatchable expected)
  (wf, item) ← find_target wid item_id s
  prior ← state_of item.state
  raise_when (not (same_state prior expected)) Errors.stale_dispatch_state
  raise_when (not (eqb (int_or_zero item.version) expected_version)) Errors.stale_dispatch_version
  ok (wf, item, prior)

-- `item.get(key) == text`
abbrev pub holds_text : Option String → String → Bool
holds_text none expected = false
holds_text (some value) expected = value == expected

-- the common guard of `resolve_blocker` and `repair_blocked_item_configuration`
unfoldable pub blocked_guard :
    String → String → String → ℕ → Session → Result QueueError (PersistentWorkflow × WorkItem)
blocked_guard wid item_id checkpoint_id expected_version s = do
  (wf, item) ← find_target wid item_id s
  raise_when (not (holds_text item.current_block_checkpoint_id checkpoint_id))
      Errors.stale_checkpoint
  raise_when (not (eqb (int_or_zero item.version) expected_version)) Errors.stale_item_version
  prior ← state_of item.state
  raise_when (not (is_blocked_state prior)) (Errors.not_blocked prior)
  ok (wf, item)

-- `_execution_state`
abbrev known_or : String → Option QueueWorkItemState → Result QueueError QueueWorkItemState
known_or raw none = err (Errors.item_not_executable (Errors.unknown_state raw))
known_or raw (some q) = ok q

unfoldable pub execution_state : RawField → Result QueueError QueueWorkItemState
execution_state missing = err (Errors.item_not_executable Errors.missing_state)
execution_state none_value = err (Errors.item_not_executable Errors.null_state)
execution_state (text raw) = known_or raw (parse_item_state raw)

unfoldable pub complete_guard :
    String → String → Session → Result QueueError (PersistentWorkflow × WorkItem)
complete_guard wid item_id s = do
  wf ← get_workflow wid s
  raise_reason Errors.workflow_not_executable (workflow_execution_exclusion_reason wf)
  item ← get_item wf.task_backlog item_id
  target ← execution_state item.state
  raise_when (not (is_running_state target || is_resumable_state target))
      (Errors.cannot_complete target)
  ok (wf, item)
