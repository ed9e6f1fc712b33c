-- ===== src/Runtime/Tests.antt =====
-- Concrete missions.
use lucius_engineering.Prelude.{
  ◌≡◌, ◌≢◌, ◌↔◌, refl, String, true, false, none, some, List, [], ◌∷◌, In, here, there, ◌==◌,
  lookup, any, keep,
}
use lucius_engineering.Domain.Enums.{
  Actor, PersistentWorkflowState, QueueWorkItemState, item_state_value,
}
use lucius_engineering.Persistence.Orm.{text, WorkItem, PersistentWorkflow, Session}
use lucius_engineering.Runtime.Mission.{
  MissionStatus, DurableWaitClass, DurableMission, DurableWait, MissionStore, all_items,
}
use lucius_engineering.Runtime.Mission.Reconcile.{
  is_completed, is_ready, status_for, situation, reconciled,
}
use lucius_engineering.Runtime.Mission.Reconcile.Status.{
  reconciled-completed, reconciled-active, reconciled-reconciled,
}
use lucius_engineering.Runtime.Mission.Waits.{WaitCreate, record_wait, clear_wait}
use lucius_engineering.Runtime.Mission.Waits.Waking.{
  HasItem, clear_wait-active, record_wait-not_completed,
}

abbrev item : String → QueueWorkItemState → WorkItem
item id state = record {
  item_id = some id;
  task_id = none;
  id = none;
  logical_task_id = none;
  title = some "Parse";
  state = text (item_state_value state);
  priority = text "NORMAL";
  created_order = some 1;
  version = some 4;
  run_generation = none;
  dependencies = [];
  current_block_checkpoint_id = none;
  block_checkpoints = [];
  completed_substeps = [];
  work_completed = [];
  blocking_reason = none;
  blocker_category = none;
  resume_condition = none;
  resolution_event = none;
  timeout_seconds = none;
  context_limits = [];
  started_at = none;
  blocked_at = none;
  resolved_at = none;
  completed_at = none;
  updated_at = none;
}

abbrev workflow : List WorkItem → PersistentWorkflow
workflow items = record {
  project_id = some "LPROJ_000001";
  repository_id = none;
  repository_snapshot_id = none;
  task_id = none;
  plan_id = none;
  plan_freeze_id = none;
  objective = "Parse the manifest";
  expected_main_head = "0a1b";
  isolated_branch = "work";
  worktree_path = "/tmp/work";
  workflow_state = PersistentWorkflowState.implementing;
  authority_tier = "L1";
  task_backlog = items;
  dependency_graph = [];
  active_task_id = none;
  completed_task_ids = [];
  pending_task_ids = [];
  decisions = [];
  deviations = [];
  repair_counters = [];
  targeted_test_evidence = [];
  full_test_status = [];
  checkpoint_history = [];
  pending_human_approvals = [];
  resume_requirements = [];
  created_at = 1;
  updated_at = 1;
}

abbrev backlog : List WorkItem
backlog = item "A" QueueWorkItemState.completed ∷ item "B" QueueWorkItemState.waiting_resource ∷ []

abbrev board : Session
board = record {
  ids = record { counters = []; persisted = [] };
  audit = [];
  projects = [];
  registrations = [];
  attachments = [];
  snapshots = [];
  tasks = [];
  contracts = [];
  runs = [];
  completions = [];
  workflows = ("LFLOW_000001", workflow backlog) ∷ [];
  checkpoints = [];
  resume_validations = [];
  plans = [];
  freezes = [];
}

abbrev mission : DurableMission
mission = record {
  canonical_sha = "0a1b";
  status = MissionStatus.waiting;
  completed_tasks_count = 1;
  waiting_tasks_count = 1;
  blocked_tasks_count = 0;
  current_attempt_id = some "att_1";
  attempts = [];
  last_interruption = none;
  sleeping_metadata = none;
  updated_at = 1;
}

abbrev wait : DurableWait
wait = record {
  mission_id = "mis_1";
  item_id = some "B";
  task_id = none;
  wait_class = DurableWaitClass.resource;
  reason = "The model is busy";
  retry_after = none;
  cleared_at = none;
  is_cleared = false;
  required_paths = [];
  can_resume = false;
}

abbrev store : MissionStore
store = record {
  session = board;
  missions = ("mis_1", mission) ∷ [];
  waits = ("wait_1", wait) ∷ [];
}

wait_stored : lookup "wait_1" store.waits ≡ some wait
unfolding lookup
wait_stored = refl

mission_stored : lookup "mis_1" store.missions ≡ some mission
unfolding lookup
mission_stored = refl

named : ("B" == "") ≡ false
named = refl

has_item : HasItem "B" store.session.workflows
unfolding all_items
has_item = (item "B" QueueWorkItemState.waiting_resource, there here, refl)

clear_wait-active_example :
    (m' : DurableMission) × (lookup "mis_1" (clear_wait "wait_1" Actor.lucius 5 store).1.missions
      ≡ some m')
    × (m'.status ≡ MissionStatus.active)
clear_wait-active_example =
    clear_wait-active "wait_1" wait "B" mission Actor.lucius 5 store wait_stored refl named refl
      has_item mission_stored

abbrev asked : WaitCreate
asked = record {
  wait_class = DurableWaitClass.human;
  reason = "A decision";
  item_id = none;
  task_id = none;
  retry_after = none;
  required_paths = [];
  can_resume = false;
}

record_wait-not_completed_example :
    (m' : DurableMission) × (lookup "mis_1"
        (record_wait "mis_1" "wait_2" asked Actor.lucius 5 store).1.missions
      ≡ some m')
    × (m'.status ≢ MissionStatus.completed)
record_wait-not_completed_example =
    record_wait-not_completed "mis_1" "wait_2" asked Actor.lucius 5 store mission mission_stored

abbrev finished : List WorkItem
finished = item "A" QueueWorkItemState.completed ∷ []

abbrev no_waits : List DurableWait
no_waits = []

all_done : (reconciled 5 finished no_waits mission).status ≡ MissionStatus.completed
unfolding reconciled situation status_for keep any
all_done = refl

reconciled-completed_example :
    (finished ≢ []) × (no_waits ≡ []) × ((i : WorkItem) → In i finished → is_completed i ≡ true)
reconciled-completed_example = reconciled-completed 5 finished no_waits mission all_done

reconciled-active_example :
    ((reconciled 5 backlog (wait ∷ []) mission).status ≡ MissionStatus.active)
    ↔ ((i : WorkItem) × In i backlog × (is_ready i ≡ true))
reconciled-active_example = reconciled-active 5 backlog (wait ∷ []) mission

reconciled-reconciled_example :
    reconciled 5 backlog (wait ∷ []) (reconciled 5 backlog (wait ∷ []) mission)
    ≡ reconciled 5 backlog (wait ∷ []) mission
reconciled-reconciled_example = reconciled-reconciled 5 backlog (wait ∷ []) mission
