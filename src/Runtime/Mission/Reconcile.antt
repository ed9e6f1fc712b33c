-- ===== src/Runtime/Mission/Reconcile.antt =====
-- runtime/mission.py: `reconcile_mission_state`, which derives the state of a mission from the items of
-- all workflows and from its waits.
pub mod Status
use lucius_engineering.Prelude.{
  ℕ, ◌+◌, max, String, Bool, true, false, ◌&&◌, ◌||◌, not, Option, none, some, List, [], ◌∷◌, map,
  if◌then◌else◌, ◌==◌, leb, ltb, eqb, any, keep, length, is_empty, Table, lookup, insert, Result,
  found, ok, err, ◌>>=◌, ◌>>◌,
}
use lucius_engineering.Domain.Enums.{QueueWorkItemState}
use lucius_engineering.Persistence.Orm.{WorkItem, PersistentWorkflow, Session}
use lucius_engineering.Runtime.Mission.{
  MissionStatus, DurableWaitClass, SleepingMetadata, DurableMission, DurableWait, MissionStore,
  MissionError, mission_not_found, in_states, all_items,
}

-- the classes of waits that end by themselves, and those that a person ends
abbrev pub is_waiting_class : DurableWaitClass → Bool
is_waiting_class DurableWaitClass.resource = true
is_waiting_class DurableWaitClass.resource_short = true
is_waiting_class DurableWaitClass.resource_long = true
is_waiting_class DurableWaitClass.dependency = true
is_waiting_class DurableWaitClass.schedule = true
is_waiting_class _ = false

abbrev pub is_blocking_class : DurableWaitClass → Bool
is_blocking_class DurableWaitClass.authority = true
is_blocking_class DurableWaitClass.decision = true
is_blocking_class _ = false

abbrev pub is_dependency_class : DurableWaitClass → Bool
is_dependency_class DurableWaitClass.dependency = true
is_dependency_class _ = false

abbrev pub is_long_class : DurableWaitClass → Bool
is_long_class DurableWaitClass.resource_long = true
is_long_class _ = false

abbrev pub is_completed : WorkItem → Bool
is_completed = in_states (QueueWorkItemState.completed ∷ [])

abbrev pub is_waiting : WorkItem → Bool
is_waiting = in_states (
    QueueWorkItemState.waiting_resource ∷ QueueWorkItemState.waiting_resource_short
    ∷ QueueWorkItemState.waiting_resource_long ∷ QueueWorkItemState.waiting_dependency
    ∷ QueueWorkItemState.waiting_schedule ∷ QueueWorkItemState.waiting_human
    ∷ QueueWorkItemState.waiting_external ∷ [])

abbrev pub is_blocked : WorkItem → Bool
is_blocked = in_states (
    QueueWorkItemState.blocked_dependency ∷ QueueWorkItemState.blocked_authority
    ∷ QueueWorkItemState.blocked_decision ∷ [])

abbrev pub is_ready : WorkItem → Bool
is_ready = in_states (QueueWorkItemState.ready ∷ QueueWorkItemState.ready_to_resume ∷ [])

-- the waits of a mission that are not cleared
unfoldable pub uncleared_of : String → Table DurableWait → List DurableWait
uncleared_of mission_id [] = []
uncleared_of mission_id ((id, w) ∷ waits) =
    let rest = uncleared_of mission_id waits in
    if w.mission_id == mission_id && not w.is_cleared then w ∷ rest else rest

-- `retry_after - now > 60 seconds`
abbrev pub is_far : Option ℕ → ℕ → Bool
is_far none now = false
is_far (some at_time) now = ltb (now + 60) at_time

abbrev pub is_long : ℕ → DurableWait → Bool
is_long now w = is_long_class w.wait_class || is_far w.retry_after now

-- `min(retry_dates)`, or none
abbrev earlier : Option ℕ → Option ℕ → Option ℕ
earlier none b = b
earlier (some a) none = some a
earlier (some a) (some b) = if leb a b then some a else some b

unfoldable pub earliest_wake : List DurableWait → Option ℕ
earliest_wake [] = none
earliest_wake (w ∷ waits) = earlier w.retry_after (earliest_wake waits)

abbrev pub reasons_of : (DurableWaitClass → Bool) → List DurableWait → List String
reasons_of p waits =
    map (λ (w : DurableWait). w.reason) (keep (λ (w : DurableWait). p w.wait_class) waits)

abbrev pub sleeping_of : List DurableWait → SleepingMetadata
sleeping_of open_waits = record {
  earliest_wake_at = earliest_wake open_waits;
  unresolved_dependencies = reasons_of is_dependency_class open_waits;
  blocked_authority_decisions = reasons_of is_blocking_class open_waits;
}

abbrev pub is_held : MissionStatus → Bool
is_held MissionStatus.paused = true
is_held MissionStatus.interrupted = true
is_held _ = false

-- What the decision about the status looks at.
pub record Situation : Type 0 where
  pub some_item : Bool
  pub some_ready : Bool
  pub some_waiting : Bool
  pub some_blocked : Bool
  pub all_completed : Bool
  pub some_wait : Bool
  pub some_long : Bool

unfoldable pub situation : ℕ → List WorkItem → List DurableWait → Situation
situation now items open_waits = record {
  some_item = not (is_empty items);
  some_ready = not (is_empty (keep is_ready items));
  some_waiting = not (is_empty (keep is_waiting items));
  some_blocked = not (is_empty (keep is_blocked items));
  all_completed = eqb (length (keep is_completed items)) (length items);
  some_wait = not (is_empty open_waits);
  some_long = any (is_long now) open_waits;
}

-- the chain of tests for the status
unfoldable pub status_for : MissionStatus → Situation → MissionStatus
status_for old s =
    if is_held old && not s.some_ready
    then old
    else if s.some_ready
    then MissionStatus.active
    else if s.some_waiting || s.some_wait
    then (if s.some_long then MissionStatus.sleeping else MissionStatus.waiting)
    else if s.some_item && s.all_completed && not s.some_blocked
    then MissionStatus.completed
    else if s.some_blocked && not s.some_ready && not s.some_waiting
    then MissionStatus.failed
    else MissionStatus.waiting

-- the branch that writes what a sleeping mission waits for
abbrev pub sleeps : MissionStatus → Situation → Bool
sleeps old s =
    not (is_held old && not s.some_ready) && not s.some_ready && (s.some_waiting || s.some_wait)

unfoldable pub reconciled : ℕ → List WorkItem → List DurableWait → DurableMission → DurableMission
reconciled now items open_waits m =
    let s = situation now items open_waits in
    record m {
      status = status_for m.status s;
      completed_tasks_count = max (length (keep is_completed items)) m.completed_tasks_count;
      waiting_tasks_count =
          max (length (keep is_waiting items))
            (length (keep (λ (w : DurableWait). is_waiting_class w.wait_class) open_waits));
      blocked_tasks_count =
          max (length (keep is_blocked items))
            (length (keep (λ (w : DurableWait). is_blocking_class w.wait_class) open_waits));
      sleeping_metadata =
          if sleeps m.status s then some (sleeping_of open_waits) else m.sleeping_metadata;
      updated_at = now;
    }

unfoldable pub reconcile_mission_state :
    String → ℕ → MissionStore → Result MissionError MissionStore
reconcile_mission_state mission_id now s = do
  m ← found (mission_not_found mission_id) (lookup mission_id s.missions)
  ok (record s {
    missions =
        insert mission_id
          (reconciled now (all_items s.session.workflows) (uncleared_of mission_id s.waits) m)
          s.missions;
  })

abbrev or_same : MissionStore → Result MissionError MissionStore → MissionStore
or_same s (ok t) = t
or_same s (err e) = s

-- `get_mission`, which reconciles the mission, where it is stored, before it returns it
unfoldable pub get_mission : String → ℕ → MissionStore → MissionStore
get_mission mission_id now s = or_same s (reconcile_mission_state mission_id now s)
