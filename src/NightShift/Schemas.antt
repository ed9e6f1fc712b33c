-- ===== src/NightShift/Schemas.antt =====
-- night_shift/supervisor.py: the configuration, the record of a cycle and the result of a run.
use lucius_engineering.Prelude.{
  ℕ, String, Bool, true, false, not, Option, none, List, [], leb, eqb, Result, raise_when, ◌>>◌,
}

-- An integer, which a caller may give as a limit.
pub data ℤ : Type 0 where
  pos : ℕ → ℤ
  negsuc : ℕ → ℤ

-- `z <= n` of a limit and a count
unfoldable pub at_most : ℤ → ℕ → Bool
at_most (pos k) n = leb k n
at_most (negsuc k) n = true

pub data NightShiftStatus : Type 0 where
  clean_termination hard_stop : NightShiftStatus

-- `max_wall_clock_seconds` counts the ticks of the clock; no list of workflow ids is the empty one.
pub record NightShiftConfig : Type 0 where
  pub workflow_ids : List String
  pub max_tasks : ℤ
  pub max_commits : ℤ
  pub max_wall_clock_seconds : ℤ
  pub stop_on_escalation : Bool
  pub stop_on_manual_reconciliation : Bool
  pub dispatcher_count : ℤ
  pub allowed_task_complexities : List String
  pub allowed_risk_levels : List String

pub data ConfigError : Type 0 where
  one_dispatcher max_tasks_positive max_commits_non_negative max_wall_clock_positive : ConfigError

abbrev is_one : ℤ → Bool
is_one (pos k) = eqb k 1
is_one (negsuc k) = false

abbrev is_negative : ℤ → Bool
is_negative (pos k) = false
is_negative (negsuc k) = true

-- `__post_init__`
unfoldable pub validate_config : NightShiftConfig → Result ConfigError (Unit {0})
unfolding at_most
validate_config config = do
  raise_when (not (is_one config.dispatcher_count)) one_dispatcher
  raise_when (at_most config.max_tasks 0) max_tasks_positive
  raise_when (is_negative config.max_commits) max_commits_non_negative
  raise_when (at_most config.max_wall_clock_seconds 0) max_wall_clock_positive

pub record NightShiftCycleRecord : Type 0 where
  pub cycle_number : ℕ
  pub runtime_status : Option String
  pub runtime_stopped_reason : Option String
  pub workflow_id : Option String
  pub item_id : Option String
  pub project_id : Option String
  pub provider_id : Option String
  pub task_outcome : Option String
  pub integration_status : Option String
  pub integration_reason : Option String
  pub commit_status : Option String
  pub commit_reason : Option String
  pub resulting_commit_sha : Option String
  pub manual_reconciliation_required : Bool
  pub containment_status : Option String
  pub containment_reason : Option String
  pub candidate_quarantined : Bool
  pub hard_stop_reason : Option String

abbrev pub new_cycle : ℕ → NightShiftCycleRecord
new_cycle number = record {
  cycle_number = number;
  runtime_status = none;
  runtime_stopped_reason = none;
  workflow_id = none;
  item_id = none;
  project_id = none;
  provider_id = none;
  task_outcome = none;
  integration_status = none;
  integration_reason = none;
  commit_status = none;
  commit_reason = none;
  resulting_commit_sha = none;
  manual_reconciliation_required = false;
  containment_status = none;
  containment_reason = none;
  candidate_quarantined = false;
  hard_stop_reason = none;
}

-- `unauthorized_remote_actions`, which no code of the supervisor writes, is left out.
pub record NightShiftResult : Type 0 where
  pub status : NightShiftStatus
  pub stop_reason : Option String
  pub cycles_attempted : ℕ
  pub tasks_selected : ℕ
  pub tasks_completed : ℕ
  pub tasks_blocked : ℕ
  pub tasks_escalated : ℕ
  pub contained_task_local_failures : ℕ
  pub hard_stop_failures : ℕ
  pub workflows_processed : List String
  pub provider_ids : List String
  pub l1_integrations_attempted : ℕ
  pub l1_integrations_succeeded : ℕ
  pub l1_integrations_failed : ℕ
  pub l2_commits_attempted : ℕ
  pub l2_commits_succeeded : ℕ
  pub l2_commits_already_committed : ℕ
  pub l2_commits_failed : ℕ
  pub resulting_commit_shas : List String
  pub manual_reconciliation_required : Bool
  pub project_switches : ℕ
  pub wall_clock_duration_seconds : ℕ
  pub max_limit_reached_reason : Option String
  pub integrity_violation : Option String
  pub cycles : List NightShiftCycleRecord

abbrev pub new_result : NightShiftResult
new_result = record {
  status = clean_termination;
  stop_reason = none;
  cycles_attempted = 0;
  tasks_selected = 0;
  tasks_completed = 0;
  tasks_blocked = 0;
  tasks_escalated = 0;
  contained_task_local_failures = 0;
  hard_stop_failures = 0;
  workflows_processed = [];
  provider_ids = [];
  l1_integrations_attempted = 0;
  l1_integrations_succeeded = 0;
  l1_integrations_failed = 0;
  l2_commits_attempted = 0;
  l2_commits_succeeded = 0;
  l2_commits_already_committed = 0;
  l2_commits_failed = 0;
  resulting_commit_shas = [];
  manual_reconciliation_required = false;
  project_switches = 0;
  wall_clock_duration_seconds = 0;
  max_limit_reached_reason = none;
  integrity_violation = none;
  cycles = [];
}
