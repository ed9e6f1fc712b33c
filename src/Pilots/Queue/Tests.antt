-- ===== src/Pilots/Queue/Tests.antt =====
-- Concrete runs of the queue.
mod Orders
use lucius_engineering.Prelude.{
  ◌++◌, not, ◌+◌, String, ◌≡◌, ◌≢◌, ◌↔◌, ◌⊎◌, refl, true, none, some, List, [], ◌∷◌, arith, lookup,
  ok, err, In, here, map, if◌then◌else◌, eqb, eq_iff, keep, all, mem, find_first, distinct,
}
use mathlib.Core.Bool.{false≢true}
use lucius_engineering.Prelude.Sorting.{sorted}
use lucius_engineering.Domain.Enums.{
  Actor, PersistentWorkflowState, QueueWorkItemState, item_state_value, parse_item_state,
}
use lucius_engineering.Domain.Ids.{queue_checkpoint}
use lucius_engineering.Persistence.{next_id}
use lucius_engineering.Persistence.Orm.{
  text, QueueBlockCheckpoint, WorkItem, PersistentWorkflow, Session,
}
use lucius_engineering.Pilots.Queue.Errors
use lucius_engineering.Pilots.Queue.Items.{
  item_id_of, state_if_valid, state_of, parse_global_state, parse_global_priority,
  workflow_execution_exclusion_reason, logical_id_of,
}
use lucius_engineering.Pilots.Queue.Parsed.{QueueItem, queue_item, all_distinct, workflow_items}
use lucius_engineering.Pilots.Queue.Selection.{
  QueueSelection, select_first, stateful, executable, blocked_of, is_waiting, is_eligible,
  dependencies_complete, running_of, eligible_of, select_from, priority_rank, state_rank,
}
use lucius_engineering.Pilots.Queue.Selection.Choice.{
  IsBestChoice, select_next_best, select_next_idle,
}
use lucius_engineering.Pilots.Queue.Guards.{
  complete_guard, execution_state, get_workflow, get_item, find_target, block_guard,
}
use lucius_engineering.Pilots.Queue.Operations.Changes.{count_items}
use lucius_engineering.Pilots.Queue.Blocking.{
  BlockRequest, make_checkpoint, mark_blocked, mark_resolved, block_running_item, resolve_blocker,
  write_block, fresh_checkpoint_id,
}
use lucius_engineering.Pilots.Queue.Completion.{
  completed_ids, pending_ids, mark_completed, complete_item,
}
use lucius_engineering.Pilots.Queue.Completion.Exact.{
  Named, IsCompleted, IsPending, complete_item_exact, completed_pending_disjoint,
}
use lucius_engineering.Pilots.Queue.Calls.{
  start, block, Event, on_workflow, global_next, perform, raised, apply, event_error, run,
}
use lucius_engineering.Pilots.Queue.Calls.Atomic.{apply-raised}
use lucius_engineering.Pilots.Queue.Calls.Effects.{version_of}
use lucius_engineering.Pilots.Queue.Calls.Histories.{
  SingleRunning, IsNextVersion, perform-other_workflow, perform-IsNextVersion,
}
use lucius_engineering.Pilots.Queue.Operations.{mark_started, set_state}
use lucius_engineering.Pilots.Queue.Calls.GlobalStart.{run-SingleRunning}
use lucius_engineering.Pilots.Queue.Global.{
  GlobalQueueSelection, select_global_first, select_global_from, select_global_next, get_rows,
  global_workflows, global_items, partition, global_le, has_identity, identities_distinct,
}
use lucius_engineering.Pilots.Queue.Global.Starting.{
  same_selection, check_selected, global_guard, start_global_selection,
}
use lucius_engineering.Pilots.Queue.Global.Current.{IsSameChoice, start-current}
use lucius_engineering.Pilots.Queue.Calls.Resume.{block-resolve}

abbrev item : String → QueueWorkItemState → WorkItem
item id state = record {
  item_id = some id;
  task_id = none;
  id = none;
  logical_task_id = none;
  title = some "Parse";
  state = text (item_state_value state);
  priority = text "NORMAL";
  created_order = some 1;
  version = some 4;
  run_generation = none;
  dependencies = [];
  current_block_checkpoint_id = none;
  block_checkpoints = [];
  completed_substeps = [];
  work_completed = [];
  blocking_reason = none;
  blocker_category = none;
  resume_condition = none;
  resolution_event = none;
  timeout_seconds = none;
  context_limits = [];
  started_at = none;
  blocked_at = none;
  resolved_at = none;
  completed_at = none;
  updated_at = none;
}

abbrev workflow : List WorkItem → PersistentWorkflow
workflow items = record {
  project_id = some "LPROJ_000001";
  repository_id = none;
  repository_snapshot_id = none;
  task_id = none;
  plan_id = none;
  plan_freeze_id = none;
  objective = "Parse the manifest";
  expected_main_head = "0a1b";
  isolated_branch = "work";
  worktree_path = "/tmp/work";
  workflow_state = PersistentWorkflowState.implementing;
  authority_tier = "L1";
  task_backlog = items;
  dependency_graph = [];
  active_task_id = none;
  completed_task_ids = [];
  pending_task_ids = [];
  decisions = [];
  deviations = [];
  repair_counters = [];
  targeted_test_evidence = [];
  full_test_status = [];
  checkpoint_history = [];
  pending_human_approvals = [];
  resume_requirements = [];
  created_at = 1;
  updated_at = 1;
}

abbrev backlog : List WorkItem
backlog =
    item "A" QueueWorkItemState.completed
    ∷ item "B" QueueWorkItemState.running
    ∷ item "C" QueueWorkItemState.ready
    ∷ []

abbrev board : Session
board = record {
  ids = record { counters = []; persisted = [] };
  audit = [];
  projects = [];
  registrations = [];
  attachments = [];
  snapshots = [];
  tasks = [];
  contracts = [];
  runs = [];
  completions = [];
  workflows = ("LFLOW_000001", workflow backlog) ∷ ("LFLOW_000002", workflow []) ∷ [];
  checkpoints = [];
  resume_validations = [];
  plans = [];
  freezes = [];
}

abbrev request : BlockRequest
request = record {
  blocking_state = QueueWorkItemState.waiting_human;
  blocking_reason = "A decision is open";
  blocker_category = "HUMAN";
  resume_condition = "The decision is taken";
  work_completed = [];
  implementation_head = none;
  pending_decision_or_dependency = none;
  known_risks = [];
  relevant_artifacts = [];
  repair_counters = [];
  approval_requirements = [];
  next_safe_action = "Wait";
  stale_state_validation_requirements = [];
}

board-SingleRunning : SingleRunning board
unfolding parse_item_state count_items state_if_valid
board-SingleRunning = (omega arith, (omega arith, tt))

abbrev events : List Event
events =
    on_workflow "LFLOW_000001" (block "B" request) Actor.human 5
    ∷ global_next [] Actor.human 6
    ∷ on_workflow "LFLOW_000001" start Actor.human 7
    ∷ []

run-SingleRunning_example : SingleRunning (run events board)
run-SingleRunning_example = run-SingleRunning events board board-SingleRunning

perform-other_workflow_example :
    lookup "LFLOW_000002" (perform "LFLOW_000001" (block "B" request) Actor.human 5 board).workflows
    ≡ lookup "LFLOW_000002" board.workflows
perform-other_workflow_example =
    perform-other_workflow "LFLOW_000001" (block "B" request) Actor.human 5 board "LFLOW_000002"
      (λ e. false≢true ((eq_iff "LFLOW_000001" "LFLOW_000002").1 e))

board-stored : lookup "LFLOW_000001" board.workflows ≡ some (workflow backlog)
unfolding lookup
board-stored = refl

perform-IsNextVersion_example :
    (after : PersistentWorkflow) × (lookup "LFLOW_000001"
        (perform "LFLOW_000001" (block "B" request) Actor.human 5 board).workflows
      ≡ some after)
    × IsNextVersion (workflow backlog) after
perform-IsNextVersion_example =
    perform-IsNextVersion "LFLOW_000001" (block "B" request) Actor.human 5 board (workflow backlog)
      board-stored

abbrev refused_block : Event
refused_block = on_workflow "LFLOW_000001" (block "C" request) Actor.human 5

not_running_raises :
    event_error refused_block board ≡ some (Errors.not_running QueueWorkItemState.ready)
unfolding event_error raised block_running_item block_guard find_target get_workflow get_item lookup
    find_first item_id_of state_of parse_item_state
not_running_raises = refl

apply-raised_example : apply refused_block board ≡ board
apply-raised_example =
    apply-raised refused_block board not_running_raises (λ e. absurd (ground (arith, e)))

abbrev finished_board : Session
finished_board = (complete_item "LFLOW_000001" "B" [] Actor.human 5 board).1

abbrev finished_item : WorkItem
finished_item = mark_completed [] 5 (item "B" QueueWorkItemState.running)

finished :
    complete_item "LFLOW_000001" "B" [] Actor.human 5 board ≡ (ok finished_item, finished_board)
unfolding complete_item complete_guard get_workflow get_item lookup find_first item_id_of
    parse_item_state workflow_execution_exclusion_reason execution_state
finished = refl

complete_item_exact_example :
    (wf : PersistentWorkflow) × (lookup "LFLOW_000001" finished_board.workflows ≡ some wf)
    × ((k : String) → In k wf.completed_task_ids ↔ Named IsCompleted wf.task_backlog k)
    × ((k : String) → In k wf.pending_task_ids ↔ Named IsPending wf.task_backlog k)
complete_item_exact_example =
    complete_item_exact "LFLOW_000001" "B" [] Actor.human 5 board finished_board finished_item
      finished

backlog_distinct : all_distinct (map item_id_of backlog) ≡ true
unfolding all_distinct mem item_id_of
backlog_distinct = refl

a_is_completed : In "A" (completed_ids backlog)
unfolding completed_ids keep mem distinct sorted parse_item_state state_if_valid item_id_of
a_is_completed = here

completed_pending_disjoint_example : ¬ In "A" (pending_ids backlog)
completed_pending_disjoint_example =
    completed_pending_disjoint backlog "A" backlog_distinct a_is_completed

abbrev waiting : List QueueItem
waiting = queue_item none "LFLOW_000001" (workflow []) (item "C" QueueWorkItemState.ready) ∷ []

abbrev picks_c : QueueSelection
picks_c = select_first [] waiting

select_from-waiting : select_from waiting ≡ ok picks_c
unfolding select_from all_distinct running_of keep stateful queue_item parse_global_state
    parse_item_state blocked_of sorted executable eligible_of parse_global_priority mem is_waiting
    is_eligible dependencies_complete all
select_from-waiting = refl

picks_c-selected : picks_c.selected_item_id ≡ some "C"
unfolding select_first queue_item item_id_of
picks_c-selected = refl

select_next_best_example : IsBestChoice waiting "C"
select_next_best_example = select_next_best waiting picks_c "C" select_from-waiting picks_c-selected

select_next_idle_example :
    (picks_c.selected_item_id ≡ none) ↔ ((running_of waiting ≢ []) ⊎ (eligible_of waiting ≡ []))
select_next_idle_example = select_next_idle waiting picks_c select_from-waiting

abbrev running_b : WorkItem
running_b = item "B" QueueWorkItemState.running

abbrev checkpoint : QueueBlockCheckpoint
checkpoint =
    make_checkpoint (next_id queue_checkpoint board.ids).0 "LFLOW_000001" "B" (workflow backlog)
      running_b QueueWorkItemState.running request 5

abbrev blocked_board : Session
blocked_board = (block_running_item "LFLOW_000001" "B" request Actor.human 5 board).1

b_is_target : find_target "LFLOW_000001" "B" board ≡ ok (workflow backlog, running_b)
unfolding find_target get_workflow get_item lookup find_first item_id_of
b_is_target = refl

b_is_blocked :
    block_running_item "LFLOW_000001" "B" request Actor.human 5 board
    ≡ (ok checkpoint, blocked_board)
unfolding block_running_item block_guard find_target get_workflow get_item lookup find_first
    item_id_of state_of parse_item_state write_block fresh_checkpoint_id
b_is_blocked = refl

block-resolve_example :
    ((resolve_blocker "LFLOW_000001" "B" checkpoint.id 5 "DECIDED" Actor.human 6 blocked_board).0
      ≡ (if eqb (version_of running_b + 1) 5
          then ok (mark_resolved "DECIDED" 6 (mark_blocked checkpoint 5 running_b))
          else err Errors.stale_item_version))
    × (state_of (mark_resolved "DECIDED" 6 (mark_blocked checkpoint 5 running_b)).state
        ≡ ok QueueWorkItemState.ready_to_resume)
    × (version_of (mark_resolved "DECIDED" 6 (mark_blocked checkpoint 5 running_b))
        ≡ version_of running_b + 2)
block-resolve_example =
    block-resolve "LFLOW_000001" "B" request Actor.human Actor.human 5 6 5 "DECIDED" board
      blocked_board (workflow backlog) running_b checkpoint b_is_target b_is_blocked

abbrev picked : GlobalQueueSelection
picked =
    select_global_first ([] ++ keep (λ (i : QueueItem). not i.schedulable) waiting)
      (blocked_of waiting) waiting

abbrev idle_board : Session
idle_board = record board {
  workflows = ("LFLOW_000001", workflow (item "C" QueueWorkItemState.ready ∷ [])) ∷ [];
}

abbrev started_board : Session
started_board = (start_global_selection picked ("LFLOW_000001" ∷ []) Actor.human 5 idle_board).1

picked_starts :
    start_global_selection picked ("LFLOW_000001" ∷ []) Actor.human 5 idle_board
    ≡ (ok tt, started_board)
unfolding start_global_selection global_guard get_workflow lookup select_global_first queue_item mem
    workflow_execution_exclusion_reason select_global_next global_workflows get_rows partition keep
    global_items workflow_items all_distinct select_global_from identities_distinct running_of
    parse_item_state check_selected has_identity get_item item_id_of logical_id_of
    parse_global_priority parse_global_state blocked_of dependencies_complete eligible_of executable
    is_eligible is_waiting priority_rank state_rank stateful all find_first sorted global_le
    mark_started set_state
picked_starts = refl

start-current_example :
    (current : GlobalQueueSelection) × (select_global_next ("LFLOW_000001" ∷ []) idle_board
      ≡ ok current)
    × IsSameChoice current picked
start-current_example =
    start-current picked ("LFLOW_000001" ∷ []) Actor.human 5 idle_board started_board picked_starts
