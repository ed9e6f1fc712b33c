-- ===== src/Pilots/Queue/Tests/Orders.antt =====
-- Concrete selections from lists in different orders, and concrete statuses of several workflows.
use lucius_engineering.Prelude.{
  ◌≡◌, ◌≢◌, refl, none, some, List, [], ◌∷◌, arith, ok, err, Result, here, there, lookup, keep, all,
  mem,
}
use lucius_engineering.Prelude.Sorting.{sorted}
use lucius_engineering.Domain.Enums.{QueueWorkItemState, parse_item_state}
use lucius_engineering.Persistence.Orm.{Session}
use lucius_engineering.Pilots.Queue.Items.{
  item_id_of, parse_global_state, parse_global_priority, workflow_execution_exclusion_reason,
  logical_id_of,
}
use lucius_engineering.Pilots.Queue.Errors.{QueueError}
use lucius_engineering.Pilots.Queue.Parsed.{QueueItem, queue_item, all_distinct, workflow_items}
use lucius_engineering.Pilots.Queue.Guards.{get_workflow}
use lucius_engineering.Pilots.Queue.Selection.{
  QueueSelection, select_first, stateful, executable, blocked_of, is_waiting, is_eligible,
  dependencies_complete, running_of, eligible_of, select_from, priority_rank, state_rank, scoped_le,
}
use lucius_engineering.Pilots.Queue.Selection.Independence.{Within, select_from-same_items}
use lucius_engineering.Pilots.Queue.Global.{
  select_global_first, select_global_from, select_global_next, get_rows, global_workflows,
  global_items, partition, identities_distinct, no_rows,
}
use lucius_engineering.Pilots.Queue.Global.Inspect.{
  GlobalQueueStatus, inspect_global, inspect_rows, inspect_global-next, global_status,
}
use lucius_engineering.Pilots.Queue.Tests.{item, workflow, idle_board}

abbrev first : QueueItem
first = queue_item none "LFLOW_000001" (workflow []) (item "C" QueueWorkItemState.ready)

abbrev second : QueueItem
second = queue_item none "LFLOW_000001" (workflow []) (item "D" QueueWorkItemState.ready)

abbrev one_way : List QueueItem
one_way = first ∷ second ∷ []

abbrev other_way : List QueueItem
other_way = second ∷ first ∷ []

abbrev either : List QueueItem → QueueSelection
either items = select_first (blocked_of items) (sorted scoped_le (eligible_of items))

swapped : Within one_way other_way
swapped _ here = there here
swapped _ (there here) = here
swapped _ (there (there m)) = elim m [ ]

swapped_back : Within other_way one_way
swapped_back _ here = there here
swapped_back _ (there here) = here
swapped_back _ (there (there m)) = elim m [ ]

select_one_way : select_from one_way ≡ ok (either one_way)
unfolding select_from all_distinct running_of keep stateful queue_item parse_global_state
    parse_item_state
select_one_way = refl

select_other_way : select_from other_way ≡ ok (either other_way)
unfolding select_from all_distinct running_of keep stateful queue_item parse_global_state
    parse_item_state
select_other_way = refl

select_from-same_items_example :
    (either one_way).selected_item_id ≡ (either other_way).selected_item_id
select_from-same_items_example =
    select_from-same_items one_way other_way (either one_way) (either other_way) swapped
      swapped_back select_one_way select_other_way

abbrev status_or_none : Result QueueError GlobalQueueStatus → GlobalQueueStatus
status_or_none (ok status) = status
status_or_none (err e) = global_status [] no_rows [] (select_global_first [] [] [])

-- the status of the one workflow that is asked for
abbrev asked : GlobalQueueStatus
asked = status_or_none (inspect_global ("LFLOW_000001" ∷ []) idle_board)

asked_status : inspect_global ("LFLOW_000001" ∷ []) idle_board ≡ ok asked
unfolding inspect_global inspect_rows global_workflows get_rows get_workflow lookup keep partition
    workflow_execution_exclusion_reason global_items workflow_items all_distinct queue_item
    parse_global_state parse_item_state select_global_next select_global_from identities_distinct
    running_of stateful mem
asked_status = refl

observed : asked.observed_workflow_ids ≢ []
unfolding inspect_global inspect_rows global_workflows get_rows get_workflow lookup keep partition
    workflow_execution_exclusion_reason global_items workflow_items all_distinct queue_item
    parse_global_state parse_item_state select_global_next select_global_from identities_distinct
    running_of stateful global_status mem
observed e = ground arith

inspect_global-next_example :
    select_global_next ("LFLOW_000001" ∷ []) idle_board ≡ ok asked.next_selection
inspect_global-next_example =
    inspect_global-next "LFLOW_000001" [] idle_board asked asked_status observed

-- Two workflows, of which only the second has work.
abbrev half_empty : Session
half_empty = record idle_board {
  workflows =
      ("LFLOW_000001", workflow [])
      ∷ ("LFLOW_000002", workflow (item "C" QueueWorkItemState.ready ∷ []))
      ∷ [];
}

-- The status of a workflow without a backlog observes no workflow, but selects an item of another.
empty_asks_all :
    (status_or_none
      (inspect_global ("LFLOW_000001" ∷ []) half_empty)).next_selection.selected_workflow_id
    ≡ some "LFLOW_000002"
unfolding inspect_global inspect_rows global_workflows get_rows get_workflow lookup partition keep
    global_items select_global_next sorted workflow_execution_exclusion_reason workflow_items
    all_distinct mem select_global_from identities_distinct running_of stateful parse_item_state
    global_status select_global_first item_id_of logical_id_of parse_global_priority
    parse_global_state queue_item blocked_of dependencies_complete eligible_of executable
    is_eligible is_waiting priority_rank state_rank all
empty_asks_all = refl
