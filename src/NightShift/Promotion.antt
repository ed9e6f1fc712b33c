-- ===== src/NightShift/Promotion.antt =====
-- night_shift/supervisor.py: what must hold of a completed task before its work is promoted.
pub mod Authority
use lucius_engineering.Prelude.{
  ℕ, suc, String, Bool, true, false, is_text, ◌&&◌, ◌||◌, not, Option, none, some, List, map, ◌==◌,
  eqb, leb, any, mem, lookup, Result, ok, err, found, raise_when, ◌>>=◌, ◌>>◌,
}
use lucius_engineering.Domain.Enums.{
  AuthorityLevel, TaskComplexity, AllowedAction, PersistentWorkflowState, action_value,
}
use lucius_engineering.Persistence.Orm.{
  Task, TaskContract, PersistentWorkflow, EngineeringPlan, PlanFreeze, Session,
}
use lucius_engineering.Pilots.Queue.Selection.{upper_is}
use lucius_engineering.Pilots.Workflows.{workflow_state_value}
use lucius_engineering.NightShift.Schemas.{NightShiftConfig}
use lucius_engineering.NightShift.Services.{Services, Shift}
use lucius_engineering.NightShift.Containment.{present, get_if}

pub record PromotionContext : Type 0 where
  pub canonical_repository_path : String
  pub candidate_workspace_path : String
  pub expected_baseline_commit : String
  pub create_commit_authorized : Bool

abbrev pub complexity_value : TaskComplexity → String
complexity_value TaskComplexity.t0 = "T0"
complexity_value TaskComplexity.t1 = "T1"
complexity_value TaskComplexity.t2 = "T2"
complexity_value TaskComplexity.t3 = "T3"
complexity_value TaskComplexity.t4 = "T4"

-- `_authority_rank`, of a column that holds an authority level
abbrev pub authority_rank : AuthorityLevel → ℕ
authority_rank AuthorityLevel.l0 = 0
authority_rank AuthorityLevel.l1 = 1
authority_rank AuthorityLevel.l2 = 2
authority_rank AuthorityLevel.l3 = 3

abbrev contract_authorizes : String → Task → EngineeringPlan → Option TaskContract → Bool
contract_authorizes task_id task plan none = false
contract_authorizes task_id task plan (some contract) =
    contract.task_id == task_id
    && eqb contract.version plan.task_contract_version
    && mem "CREATE_COMMIT" (map action_value contract.allowed_actions)
    && leb 2 (authority_rank task.authority_level)
    && leb 2 (authority_rank contract.authority_level)

unfoldable pub create_commit_authorized : String → Task → EngineeringPlan → Session → Bool
create_commit_authorized task_id task plan s =
    contract_authorizes task_id task plan (lookup plan.task_contract_id s.contracts)

-- The rows of a promotion.
pub record PromotionRows : Type 0 where
  pub task : Task
  pub plan : EngineeringPlan
  pub freeze : PlanFreeze
  pub location : String

-- `if task is None or plan is None or freeze is None or repository is None`
unfoldable pub promotion_rows : PersistentWorkflow → Session → Result String PromotionRows
promotion_rows wf s = do
  task ← found "PROMOTION_STATE_INCOMPLETE" (get_if wf.task_id s.tasks)
  plan ← found "PROMOTION_STATE_INCOMPLETE" (get_if wf.plan_id s.plans)
  freeze ← found "PROMOTION_STATE_INCOMPLETE" (get_if wf.plan_freeze_id s.freezes)
  location ← found "PROMOTION_STATE_INCOMPLETE" (get_if wf.repository_id s.registrations)
  ok record { task = task; plan = plan; freeze = freeze; location = location }

abbrev pub in_project : PersistentWorkflow → PromotionRows → Bool
in_project wf rows =
    is_text wf.project_id rows.task.project_id
    && is_text wf.project_id rows.plan.project_id
    && is_text wf.project_id rows.freeze.project_id

abbrev pub belong_together : PersistentWorkflow → PromotionRows → Bool
belong_together wf rows =
    is_text wf.task_id rows.freeze.task_id
    && is_text wf.plan_id rows.freeze.plan_id
    && is_text wf.task_id rows.plan.task_id

-- The id of a row that was found is the id it was looked up by.
abbrev pub id_or_empty : Option String → String
id_or_empty none = ""
id_or_empty (some id) = id

module _ {W : Type 0} (services : Services W) where
  unfoldable pub promotion_context :
      String → NightShiftConfig → Shift W → Result String PromotionContext
  promotion_context wid config shift = do
    wf ← found "WORKFLOW_NOT_FOUND" (lookup wid shift.session.workflows)
    raise_when (not (workflow_state_value wf.workflow_state == "COMPLETED_PENDING_INTEGRATION"))
        "WORKFLOW_NOT_COMPLETED_PENDING_INTEGRATION"
    rows ← promotion_rows wf shift.session
    raise_when (not (in_project wf rows)) "PROMOTION_PROJECT_RELATIONSHIP_INVALID"
    raise_when (not (belong_together wf rows)) "PROMOTION_PLAN_FREEZE_RELATIONSHIP_INVALID"
    baseline ← found "FROZEN_BASELINE_COMMIT_REQUIRED" (present rows.freeze.commit_sha)
    raise_when (not (mem (complexity_value rows.task.complexity) config.allowed_task_complexities))
        "TASK_COMPLEXITY_OUTSIDE_NIGHT_SHIFT_BOUNDS"
    raise_when (not (any (upper_is rows.plan.risk_level) config.allowed_risk_levels))
        "PLAN_RISK_OUTSIDE_NIGHT_SHIFT_BOUNDS"
    raise_when (wf.worktree_path == "") "CANDIDATE_WORKTREE_REQUIRED"
    ok record {
      canonical_repository_path = services.resolve shift.world rows.location;
      candidate_workspace_path = services.resolve shift.world wf.worktree_path;
      expected_baseline_commit = baseline;
      create_commit_authorized =
          create_commit_authorized (id_or_empty wf.task_id) rows.task rows.plan shift.session;
    }
