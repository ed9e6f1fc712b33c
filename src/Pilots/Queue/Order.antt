-- ===== src/Pilots/Queue/Order.antt =====
-- The selection key of queue items induces a total and transitive order.
use lucius_engineering.Prelude.{
  ◌≡◌, true, ◌⊎◌, str_leb_total, str_leb_trans, then_by_total, then_by_trans,
}
use lucius_engineering.Prelude.Sorting.{IsKeyOrder}
use lucius_engineering.Pilots.Queue.Parsed.{QueueItem}
use lucius_engineering.Pilots.Queue.Selection.{priority_rank, state_rank, scoped_le}

scoped_total : (a b : QueueItem) → (scoped_le a b ≡ true) ⊎ (scoped_le b a ≡ true)
unfolding scoped_le
scoped_total a b = then_by_total (priority_rank a.priority) (priority_rank b.priority) _ _ (
    then_by_total (state_rank a.state) (state_rank b.state) _ _
      (then_by_total a.created_order b.created_order _ _ (str_leb_total a.item_id b.item_id)))

scoped_trans :
    (a b c : QueueItem) → scoped_le a b ≡ true → scoped_le b c ≡ true → scoped_le a c ≡ true
unfolding scoped_le
scoped_trans a b c =
    then_by_trans (priority_rank a.priority) (priority_rank b.priority) (priority_rank c.priority) _
      _ _
      (then_by_trans (state_rank a.state) (state_rank b.state) (state_rank c.state) _ _ _ (
        then_by_trans a.created_order b.created_order c.created_order _ _ _
          (str_leb_trans a.item_id b.item_id c.item_id)))

pub scoped-IsKeyOrder : IsKeyOrder scoped_le
scoped-IsKeyOrder = record { total = scoped_total; trans = scoped_trans }
