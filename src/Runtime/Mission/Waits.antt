-- ===== src/Runtime/Mission/Waits.antt =====
-- runtime/mission.py: creating and recovering missions, and recording and clearing their waits.
pub mod Waking
use lucius_engineering.Prelude.{
  ℕ, ◌+◌, String, Bool, true, false, ◌&&◌, ◌||◌, not, Option, none, some, List, [], ◌∷◌, ◌++◌, map,
  if◌then◌else◌, ◌==◌, leb, any, all, is_empty, Table, lookup, insert, Result, ok, err, found,
  raise_when,
}
use lucius_engineering.Prelude.Exec.{Exec, pure, reads, modify, raise_if, ◌>>=◌, ◌>>◌}
use lucius_engineering.Domain.Enums.{Actor, QueueWorkItemState}
use lucius_engineering.Persistence.Orm.{PersistentWorkflow, Session}
use lucius_engineering.Audit.{record_event}
use lucius_engineering.Runtime.Mission.{
  MissionStatus, DurableWaitClass, DurableMission, DurableWait, MissionStore, MissionError,
  mission_not_found, canonical_sha_mismatch, update_item_state, MissionAttempt, Interruption,
}
use lucius_engineering.Runtime.Mission.Reconcile.{
  is_waiting_class, is_dependency_class, reconcile_mission_state,
}

abbrev pub audit_mission : String → Actor → String → String → ℕ → MissionStore → MissionStore
audit_mission event_type actor action result now s = record s {
  session =
      record_event
        record {
          event_type = event_type;
          actor = actor;
          project_id = none;
          repository_id = none;
          task_id = none;
          run_id = none;
          action = action;
          result = result;
        }
        now s.session;
}

abbrev pub set_items : String → QueueWorkItemState → MissionStore → MissionStore
set_items id state s = record s {
  session = record s.session { workflows = update_item_state id state s.session.workflows };
}

-- the state that an item takes for a wait of a class; a wait for a person changes none
abbrev pub item_state_for : DurableWaitClass → Option QueueWorkItemState
item_state_for DurableWaitClass.resource_short = some QueueWorkItemState.waiting_resource_short
item_state_for DurableWaitClass.resource_long = some QueueWorkItemState.waiting_resource_long
item_state_for DurableWaitClass.resource = some QueueWorkItemState.waiting_resource
item_state_for DurableWaitClass.dependency = some QueueWorkItemState.waiting_dependency
item_state_for DurableWaitClass.schedule = some QueueWorkItemState.waiting_schedule
item_state_for DurableWaitClass.authority = some QueueWorkItemState.blocked_authority
item_state_for DurableWaitClass.decision = some QueueWorkItemState.blocked_decision
item_state_for DurableWaitClass.human = none

-- The arguments of `record_wait` that the stored row keeps.
pub record WaitCreate : Type 0 where
  pub wait_class : DurableWaitClass
  pub reason : String
  pub item_id : Option String
  pub task_id : Option String
  pub retry_after : Option ℕ
  pub required_paths : List String
  pub can_resume : Bool

abbrev pub new_wait : String → WaitCreate → DurableWait
new_wait mission_id request = record {
  mission_id = mission_id;
  item_id = request.item_id;
  task_id = request.task_id;
  wait_class = request.wait_class;
  reason = request.reason;
  retry_after = request.retry_after;
  cleared_at = none;
  is_cleared = false;
  required_paths = request.required_paths;
  can_resume = request.can_resume;
}

-- `if item_id:` and the chain of tests of the class
abbrev pub set_waiting : Option String → Option QueueWorkItemState → MissionStore → MissionStore
set_waiting (some id) (some state) s = if id == "" then s else set_items id state s
set_waiting _ _ s = s

abbrev pub reconcile : String → ℕ → Exec MissionStore MissionError (Unit {0})
reconcile mission_id now s = after (reconcile_mission_state mission_id now s)
  where
    after : Result MissionError MissionStore → Result MissionError (Unit {0}) × MissionStore
    after (ok t) = (ok tt, t)
    after (err e) = (err e, s)

unfoldable pub write_wait : String → String → WaitCreate → MissionStore → MissionStore
write_wait mission_id wait_id request s =
    set_waiting request.item_id (item_state_for request.wait_class)
      (record s { waits = insert wait_id (new_wait mission_id request) s.waits })

unfoldable pub record_wait :
    String → String → WaitCreate → Actor → ℕ → Exec MissionStore MissionError (Unit {0})
record_wait mission_id wait_id request actor now = do
  modify (write_wait mission_id wait_id request)
  reconcile mission_id now
  modify (audit_mission "DURABLE_WAIT_RECORDED" actor "record_wait" "SUCCESS" now)

-- `if wait.item_id and wait.wait_class in (…)`: the item is ready again
abbrev pub free_item : Option String → Bool → MissionStore → MissionStore
free_item (some id) true s = if id == "" then s else set_items id QueueWorkItemState.ready s
free_item _ _ s = s

unfoldable pub write_cleared : String → DurableWait → ℕ → MissionStore → MissionStore
write_cleared wait_id w now s = free_item w.item_id (is_waiting_class w.wait_class) (record s {
  waits = insert wait_id (record w { is_cleared = true; cleared_at = some now }) s.waits;
})

abbrev pub clear_found :
    String → Option DurableWait → Actor → ℕ → Exec MissionStore MissionError (Unit {0})
clear_found wait_id none actor now = pure tt
clear_found wait_id (some w) actor now = do
  modify (write_cleared wait_id w now)
  reconcile w.mission_id now
  modify (audit_mission "DURABLE_WAIT_CLEARED" actor "clear_wait" "SUCCESS" now)

unfoldable pub clear_wait : String → Actor → ℕ → Exec MissionStore MissionError (Unit {0})
clear_wait wait_id actor now s = clear_found wait_id (lookup wait_id s.waits) actor now s

-- `create_mission`
unfoldable pub create_mission : String → String → String → Actor → ℕ → MissionStore → MissionStore
create_mission mission_id attempt_id sha actor now s =
    audit_mission "DURABLE_MISSION_CREATED" actor "create_mission" "SUCCESS" now (record s {
      missions =
          insert mission_id
            record {
              canonical_sha = sha;
              status = MissionStatus.active;
              completed_tasks_count = 0;
              waiting_tasks_count = 0;
              blocked_tasks_count = 0;
              current_attempt_id = some attempt_id;
              attempts =
                  record { attempt_id = attempt_id; started_at = now; recovered = false } ∷ [];
              last_interruption = none;
              sleeping_metadata = none;
              updated_at = now;
            }
            s.missions;
    })

-- `retry_after <= now`, of a wait with such a moment
abbrev pub is_due : Option ℕ → ℕ → Bool
is_due none now = false
is_due (some at_time) now = leb at_time now

-- the loop of `recover_mission` over the waits of the mission
unfoldable pub clear_due : String → ℕ → Table DurableWait → MissionStore → MissionStore
clear_due mission_id now [] s = s
clear_due mission_id now ((wait_id, w) ∷ waits) s =
    let due = w.mission_id == mission_id && not w.is_cleared && is_due w.retry_after now in
    clear_due mission_id now waits (if due then write_cleared wait_id w now s else s)

-- Python's `or` of two optional texts
abbrev pub or_other : Option String → Option String → Option String
or_other none other = other
or_other (some text) other = if text == "" then other else some text

-- the commit that a recovery is for
unfoldable pub target_sha : Option String → Option String → String
target_sha current canonical = text_or (or_other current canonical) "HEAD"
  where
    text_or : Option String → String → String
    text_or none default = default
    text_or (some text) default = if text == "" then default else text

abbrev restarted : String → ℕ → DurableMission → DurableMission
restarted attempt_id now m = record m {
  current_attempt_id = some attempt_id;
  attempts =
      m.attempts ++ record { attempt_id = attempt_id; started_at = now; recovered = true } ∷ [];
}

unfoldable pub recover_guard : String → String → MissionStore → Result MissionError DurableMission
recover_guard mission_id sha s = mission_at (lookup mission_id s.missions)
  where
    mission_at : Option DurableMission → Result MissionError DurableMission
    mission_at none = err (mission_not_found mission_id)
    mission_at (some m) =
        if m.canonical_sha == sha then ok m else err (canonical_sha_mismatch m.canonical_sha sha)

unfoldable pub recover_mission :
    String
    → Option String
    → Option String
    → String
    → Actor
    → ℕ
    → Exec MissionStore MissionError (Unit {0})
recover_mission mission_id current canonical attempt_id actor now = do
  m ← reads (recover_guard mission_id (target_sha current canonical))
  modify (λ s. record s { missions = insert mission_id (restarted attempt_id now m) s.missions })
  modify (λ s. clear_due mission_id now s.waits s)
  reconcile mission_id now
  modify (audit_mission "DURABLE_MISSION_RECOVERED" actor "recover_mission" "SUCCESS" now)

abbrev interrupted_row : Option String → String → ℕ → DurableMission → DurableMission
interrupted_row attempt_id reason now m = record m {
  status = MissionStatus.paused;
  last_interruption = some record {
    attempt_id = or_other attempt_id m.current_attempt_id;
    timestamp = now;
    reason = reason;
  };
  updated_at = now;
}

unfoldable pub record_interruption :
    String → Option String → String → Actor → ℕ → Exec MissionStore MissionError (Unit {0})
record_interruption mission_id attempt_id reason actor now = do
  m ← reads (λ s. found (mission_not_found mission_id) (lookup mission_id s.missions))
  modify (λ s. record s {
    missions = insert mission_id (interrupted_row attempt_id reason now m) s.missions;
  })
  modify (audit_mission "DURABLE_MISSION_INTERRUPTED" actor "record_interruption" "INTERRUPTED" now)
  reconcile mission_id now

module _ (exists : String → Bool) where
  -- the three conditions under which `reevaluate_durable_waits` clears a wait
  unfoldable pub should_clear : ℕ → DurableWait → Bool
  should_clear now w =
      is_due w.retry_after now
      || (is_dependency_class w.wait_class
          && not (is_empty w.required_paths)
          && all exists w.required_paths)
      || w.can_resume

  abbrev is_asked : Option String → DurableWait → Bool
  is_asked none w = true
  is_asked (some mission_id) w = w.mission_id == mission_id

  -- the loop over the waits that were open when it began
  unfoldable pub reevaluate :
      Option String → Actor → ℕ → Table DurableWait → Exec MissionStore MissionError (Unit {0})
  reevaluate mission_id actor now [] = pure tt
  reevaluate mission_id actor now ((wait_id, w) ∷ waits) =
      let clears = not w.is_cleared && is_asked mission_id w && should_clear now w in
      (if clears then clear_wait wait_id actor now else pure tt)
      >> reevaluate mission_id actor now waits

  unfoldable pub reevaluate_durable_waits :
      Option String → Actor → ℕ → Exec MissionStore MissionError (Unit {0})
  reevaluate_durable_waits mission_id actor now s = reevaluate mission_id actor now s.waits s
