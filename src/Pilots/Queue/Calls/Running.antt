-- ===== src/Pilots/Queue/Calls/Running.antt =====
-- When the selection of a workflow picks an item, none of its items is in the state RUNNING.
use lucius_engineering.Prelude.{
  String, ◌≡◌, refl, ap, sym, Bool, not, Option, none, some, List, [], ◌∷◌, arith, map, keep, ok,
  Bool-cases, inl, inr,
}
use lucius_engineering.Domain.Enums.{parse_item_state}
use lucius_engineering.Persistence.Orm.{
  RawField, missing, none_value, text, WorkItem, PersistentWorkflow,
}
use lucius_engineering.Pilots.Queue.Errors.{ExclusionReason}
use lucius_engineering.Pilots.Queue.Items.{
  is_running_state, has_state, state_of, state_if_valid, parse_global_state, item_id_of,
}
use lucius_engineering.Pilots.Queue.Parsed.{all_distinct, queue_item, execution_items}
use lucius_engineering.Pilots.Queue.Selection.{stateful, running_of, QueueSelection, select_next}
use lucius_engineering.Pilots.Queue.Selection.Choice.{IsBestChoice, select_next_best}
use lucius_engineering.Pilots.Queue.Operations.Changes.{count_items}

abbrev pub is_running_item : WorkItem → Bool
is_running_item item = has_state is_running_state (state_if_valid item.state)

-- "None" is no member of the enumeration
none_is_invalid : state_if_valid none_value ≡ none
unfolding state_if_valid state_of parse_item_state
none_is_invalid = refl

parsed_running :
    (raw : RawField)
    → has_state is_running_state (parse_global_state raw).state
      ≡ has_state is_running_state (state_if_valid raw)
unfolding parse_global_state state_if_valid state_of
parsed_running missing = refl
parsed_running none_value = ap (λ q. has_state is_running_state q) (sym none_is_invalid)
parsed_running (text raw) = ground arith

pub none_running :
    (reason : Option ExclusionReason) (wid : String) (wf : PersistentWorkflow)
    (items : List WorkItem)
    → running_of (map (queue_item reason wid wf) items) ≡ []
    → count_items is_running_item items ≡ 0
unfolding running_of stateful queue_item count_items keep
none_running reason wid wf [] h = refl
none_running reason wid wf (item ∷ items) h =
    ground (arith, parsed_running item.state, none_running reason wid wf items)

-- When `select_next` picks an item, no item of the backlog is running.
pub select_next-none_running :
    (wid : String) (wf : PersistentWorkflow) (sel : QueueSelection) (id : String)
    → select_next wid wf ≡ ok sel
    → sel.selected_item_id ≡ some id
    → count_items is_running_item wf.task_backlog ≡ 0
unfolding select_next execution_items
select_next-none_running wid wf sel id h e =
    elim (Bool-cases (not (all_distinct (map item_id_of wf.task_backlog)))) [
      | inl d ↦ ground arith
      | inr d ↦
          let best : IsBestChoice (map (queue_item none wid wf) wf.task_backlog) id =
            select_next_best (map (queue_item none wid wf) wf.task_backlog) sel id (ground arith)
              e in
          none_running none wid wf wf.task_backlog best.nothing_running
    ]
