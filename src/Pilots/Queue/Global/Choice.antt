-- ===== src/Pilots/Queue/Global/Choice.antt =====
-- What a selection over several workflows guarantees.
use lucius_engineering.Prelude.{
  String, ◌≡◌, true, List, ◌⊎◌, is_empty, In, str_leb_total, str_leb_trans, then_by_total,
  then_by_trans, text_total, text_trans,
}
use lucius_engineering.Prelude.Sorting.{IsKeyOrder}
use lucius_engineering.Pilots.Queue.Parsed.{QueueItem}
use lucius_engineering.Pilots.Queue.Selection.{
  priority_rank, state_rank, is_eligible, executable, running_of, eligible_of,
}
use lucius_engineering.Pilots.Queue.Global.{text_or_empty, global_le}

global_total : (a b : QueueItem) → (global_le a b ≡ true) ⊎ (global_le b a ≡ true)
unfolding global_le
global_total a b = then_by_total (priority_rank a.priority) (priority_rank b.priority) _ _ (
    then_by_total (state_rank a.state) (state_rank b.state) _ _ (
      then_by_total a.created_order b.created_order _ _ (
        text_total (text_or_empty a.project_id) (text_or_empty b.project_id) _ _
          (text_total a.workflow_id b.workflow_id _ _ (str_leb_total a.item_id b.item_id)))))

global_trans :
    (a b c : QueueItem) → global_le a b ≡ true → global_le b c ≡ true → global_le a c ≡ true
unfolding global_le
global_trans a b c =
    then_by_trans (priority_rank a.priority) (priority_rank b.priority) (priority_rank c.priority) _
      _ _
      (then_by_trans (state_rank a.state) (state_rank b.state) (state_rank c.state) _ _ _ (
        then_by_trans a.created_order b.created_order c.created_order _ _ _ (
          text_trans (text_or_empty a.project_id) (text_or_empty b.project_id)
            (text_or_empty c.project_id) _ _ _
            (text_trans a.workflow_id b.workflow_id c.workflow_id _ _ _
              (str_leb_trans a.item_id b.item_id c.item_id)))))

pub global-IsKeyOrder : IsKeyOrder global_le
global-IsKeyOrder = record { total = global_total; trans = global_trans }

-- The item of a workflow is eligible, comes first among all eligible items, and nothing runs.
pub record IsGlobalChoice (items : List QueueItem) (wid id : String) : Type 0 where
  pub item : QueueItem
  pub of_workflow : item.workflow_id ≡ wid
  pub named : item.item_id ≡ id
  pub present : In item items
  pub schedulable : item.schedulable ≡ true
  pub eligible : is_eligible (executable items) item ≡ true
  pub nothing_running : is_empty (running_of items) ≡ true
  pub least : (j : QueueItem) → In j (eligible_of items) → global_le item j ≡ true
