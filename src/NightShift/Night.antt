-- ===== src/NightShift/Night.antt =====
-- night_shift/supervisor.py: what a run works on, the tests on what a service returned, and the
-- effects that the steps of a cycle are made of.
use lucius_engineering.Prelude.{
  ◌+◌, String, Bool, false, ◌&&◌, ◌||◌, not, Option, none, some, List, [], ◌∷◌, ◌++◌, if◌then◌else◌,
  ◌==◌, eqb, mem, ok,
}
use lucius_engineering.Prelude.Exec.{Exec, modify}
use lucius_engineering.Audit.{record_event}
use lucius_engineering.NightShift.Schemas.{
  NightShiftConfig, NightShiftCycleRecord, NightShiftResult,
}
use lucius_engineering.NightShift.Services.{
  Services, Shift, loop_status_value, RuntimeLoopConfig, RuntimeTaskRecord, RuntimeLoopResult,
  CanonicalIntegrationResult,
}

-- What `run` works on: the session and the world, the result so far and the record of the cycle.
pub record Night (W : Type 0) : Type 0 where
  pub shift : Shift W
  pub result : NightShiftResult
  pub cycle : NightShiftCycleRecord

-- How a cycle ends when the loop does not go on.
pub data Stop : Type 0 where
  idle : Stop
  hard : String → Stop

-- `_extend_unique`
abbrev pub add_unique : String → List String → List String
add_unique value target = if value == "" || mem value target then target else target ++ value ∷ []

unfoldable pub extend_unique : List String → List String → List String
extend_unique target [] = target
extend_unique target (value ∷ values) = extend_unique (add_unique value target) values

abbrev pub one_if_present : Option String → List String
one_if_present none = []
one_if_present (some text) = text ∷ []

-- `reason or default`
abbrev pub reason_or : Option String → String → String
reason_or none default = default
reason_or (some reason) default = if reason == "" then default else reason

-- `task_records[-1]`, or none when there are none
unfoldable pub last_record : List RuntimeTaskRecord → Option RuntimeTaskRecord
last_record [] = none
last_record (r ∷ []) = some r
last_record (r ∷ q ∷ rs) = last_record (q ∷ rs)

abbrev pub is_loop_status : String → RuntimeLoopResult → Bool
is_loop_status value report = loop_status_value report.status == value

abbrev pub is_idle : RuntimeLoopResult → Bool
is_idle report = is_loop_status "IDLE" report && eqb report.selected_tasks 0

abbrev pub is_escalated : RuntimeLoopResult → Bool
is_escalated report = not (eqb report.escalations 0) || is_loop_status "ESCALATED" report

-- `_integration_stop_reason`
unfoldable pub integration_stop_reason : CanonicalIntegrationResult → String
integration_stop_reason integration =
    if integration.status == "ROLLBACK_FAILED"
    then "L1_ROLLBACK_UNCERTAIN"
    else if integration.rollback_attempted && not integration.rollback_succeeded
    then "L1_ROLLBACK_UNCERTAIN"
    else "L1_INTEGRATION_FAILED"

abbrev pub extend_totals : RuntimeLoopResult → NightShiftResult → NightShiftResult
extend_totals report r = record r {
  tasks_selected = r.tasks_selected + report.selected_tasks;
  tasks_completed = r.tasks_completed + report.completed_tasks;
  tasks_blocked = r.tasks_blocked + report.blocked_tasks;
  tasks_escalated = r.tasks_escalated + report.escalations;
  project_switches = r.project_switches + report.project_switches;
  provider_ids = extend_unique r.provider_ids report.provider_ids;
}

module _ {W : Type 0} where
  -- `_audit`; the metadata of the event is left out
  abbrev pub audit_night : Services W → String → String → Shift W → Shift W
  audit_night services event_type result shift = record shift {
    session =
        record_event
          record {
            event_type = event_type;
            actor = services.actor;
            project_id = none;
            repository_id = none;
            task_id = none;
            run_id = none;
            action = "run_night_shift_supervisor";
            result = result;
          }
          (services.utc_now shift.world) shift.session;
  }

  abbrev pub change_result : (NightShiftResult → NightShiftResult) → Exec (Night W) Stop (Unit {0})
  change_result f = modify (λ n. record n { result = f n.result })

  abbrev pub change_cycle :
      (NightShiftCycleRecord → NightShiftCycleRecord) → Exec (Night W) Stop (Unit {0})
  change_cycle f = modify (λ n. record n { cycle = f n.cycle })

  abbrev pub audit_cycle : Services W → String → Exec (Night W) Stop (Unit {0})
  audit_cycle services result =
      modify (λ n. record n {
        shift = audit_night services "NIGHT_SHIFT_CYCLE_CHECKPOINT" result n.shift;
      })

  -- a call of a service, which changes the session and the world
  abbrev pub call_service : {A : Type 0} → (Night W → A × Shift W) → Exec (Night W) Stop A
  call_service f n = let (a, shift) = f n in (ok a, record n { shift = shift })

abbrev pub loop_config : NightShiftConfig → RuntimeLoopConfig
loop_config config = record {
  workflow_ids = config.workflow_ids;
  max_tasks = 1;
  dispatcher_count = 1;
  stop_on_block = false;
  stop_on_escalation = config.stop_on_escalation;
}
