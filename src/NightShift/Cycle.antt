-- ===== src/NightShift/Cycle.antt =====
-- night_shift/supervisor.py: one cycle of `run`, from the runtime loop to the controlled commit. The
-- record of a cycle joins the result when the cycle ends; no code reads it there before.
pub mod Books
pub mod Spending
pub mod Commits
use lucius_engineering.Prelude.{
  ℕ, ◌+◌, String, Bool, true, false, ◌&&◌, ◌||◌, not, Option, none, some, List, [], ◌∷◌, ◌++◌,
  if◌then◌else◌, ◌==◌, eqb, mem, is_empty, lookup, Table, Result, ok, err,
}
use lucius_engineering.Prelude.Exec.{Exec, pure, reads, modify, raise_if, ◌>>=◌, ◌>>◌}
use lucius_engineering.Domain.Enums.{AuthorityLevel}
use lucius_engineering.Persistence.Orm.{Session}
use lucius_engineering.Audit.{AuditEventCreate, record_event}
use lucius_engineering.NightShift.Schemas.{
  NightShiftConfig, NightShiftCycleRecord, NightShiftResult,
}
use lucius_engineering.NightShift.Services.{
  Services, Shift, RuntimeLoopStatus, loop_status_value, outcome_value, RuntimeLoopConfig,
  RuntimeTaskRecord, RuntimeLoopResult, CanonicalIntegrationResult, ControlledCommitResult,
}
use lucius_engineering.NightShift.Containment.{
  ContainmentSnapshot, ContainmentStatus, ContainmentResult, containment_value, capture_snapshots,
  prove_contained_failure,
}
use lucius_engineering.NightShift.Promotion.{PromotionContext, promotion_context}
use lucius_engineering.NightShift.Night.{
  Night, Stop, idle, hard, extend_unique, one_if_present, reason_or, last_record, is_idle,
  is_escalated, integration_stop_reason, extend_totals, audit_night, change_result, change_cycle,
  audit_cycle, call_service, loop_config,
}

module _ {W : Type 0} (services : Services W) (config : NightShiftConfig) where
  -- the call of the runtime, and what the result and the cycle keep of it
  unfoldable pub ask_runtime : Exec (Night W) Stop RuntimeLoopResult
  ask_runtime = do
    report ← call_service (λ n. services.run_runtime (loop_config config) n.shift)
    change_cycle (λ c. record c {
      runtime_status = some (loop_status_value report.status);
      runtime_stopped_reason = report.stopped_reason;
    })
    change_result (extend_totals report)
    pure report

  abbrev recorded : RuntimeLoopResult → Option RuntimeTaskRecord → Result Stop RuntimeTaskRecord
  recorded report none =
      err (hard (reason_or report.stopped_reason "RUNTIME_RESULT_WITHOUT_TASK_RECORD"))
  recorded report (some r) = ok r

  -- the record of the task that ran, unless the loop ends here
  unfoldable pub task_record : RuntimeLoopResult → Exec (Night W) Stop RuntimeTaskRecord
  task_record report = do
    raise_if (is_idle report) idle
    raise_if (is_escalated report) (hard "RUNTIME_ESCALATION")
    task ← reads (λ n. recorded report (last_record report.task_records))
    change_cycle (λ c. record c {
      workflow_id = some task.workflow_id;
      item_id = some task.item_id;
      project_id = task.project_id;
      provider_id = task.provider_id;
      task_outcome = some (outcome_value task.outcome);
    })
    change_result (λ r. record r {
      workflows_processed = extend_unique r.workflows_processed (task.workflow_id ∷ []);
    })
    pure task

  unfoldable pub run_task : Exec (Night W) Stop RuntimeTaskRecord
  run_task = ask_runtime >>= task_record

  abbrev prove_in : String → Option ContainmentSnapshot → Night W → ContainmentResult × Shift W
  prove_in wid before n =
      let (containment, session) = prove_contained_failure services wid before n.shift in
      (containment, record n.shift { session = session })

  -- what `run` does with the proof that a failure is contained, or with the lack of one
  unfoldable pub settle_containment : ContainmentResult → Exec (Night W) Stop (Unit {0})
  settle_containment containment = do
    change_cycle (λ c. record c {
      containment_status = some (containment_value containment.status);
      containment_reason = some containment.reason;
      candidate_quarantined = containment.candidate_quarantined;
    })
    raise_if (not (containment_value containment.status == "CONTAINED"))
        (hard (reason_or (some containment.reason) "TASK_FAILURE_CONTAINMENT_NOT_PROVEN"))
    change_result
        (λ r. record r { contained_task_local_failures = r.contained_task_local_failures + 1 })
    audit_cycle services "TASK_LOCAL_NON_COMPLETION"

  -- the branch of a task that did not complete
  unfoldable pub contain_failure :
      RuntimeTaskRecord → Table ContainmentSnapshot → Exec (Night W) Stop (Unit {0})
  contain_failure task snapshots =
      call_service (prove_in task.workflow_id (lookup task.workflow_id snapshots))
      >>= settle_containment

  unfoldable pub settle_integration :
      Bool → CanonicalIntegrationResult → Exec (Night W) Stop CanonicalIntegrationResult
  settle_integration true integration = do
    change_result (λ r. record r { l1_integrations_succeeded = r.l1_integrations_succeeded + 1 })
    pure integration
  settle_integration false integration = do
    change_result (λ r. record r { l1_integrations_failed = r.l1_integrations_failed + 1 })
    raise_if true (hard (integration_stop_reason integration))
    pure integration

  -- the integration of a completed task
  unfoldable pub integrate_task :
      RuntimeTaskRecord → PromotionContext → Exec (Night W) Stop CanonicalIntegrationResult
  integrate_task task context = do
    integration ← call_service (λ n.
        services.integrate
          record {
            workflow_id = task.workflow_id;
            canonical_repository_path = context.canonical_repository_path;
            candidate_workspace_path = context.candidate_workspace_path;
            expected_baseline_commit = context.expected_baseline_commit;
            actor = services.actor;
          }
          n.shift)
    change_result (λ r. record r { l1_integrations_attempted = r.l1_integrations_attempted + 1 })
    change_cycle (λ c. record c {
      integration_status = some integration.status;
      integration_reason = integration.reason;
    })
    settle_integration (integration.status == "COMPLETED") integration

  unfoldable pub fail_commit : Bool → Exec (Night W) Stop (Unit {0})
  fail_commit true = do
    change_result (λ r. record r {
      l2_commits_failed = r.l2_commits_failed + 1;
      manual_reconciliation_required = true;
    })
    raise_if true (hard "MANUAL_RECONCILIATION_REQUIRED")
  fail_commit false = do
    change_result (λ r. record r { l2_commits_failed = r.l2_commits_failed + 1 })
    raise_if true (hard "CONTROLLED_COMMIT_FAILED")

  abbrev commit_ended :
      (NightShiftResult → NightShiftResult)
      → Option String
      → String
      → Exec (Night W) Stop (Unit {0})
  commit_ended count sha result = do
    change_result count
    change_result (λ r. record r {
      resulting_commit_shas = extend_unique r.resulting_commit_shas (one_if_present sha);
    })
    audit_cycle services result

  -- what `run` does with the result of a commit
  unfoldable pub settle_commit : ControlledCommitResult → Exec (Night W) Stop (Unit {0})
  settle_commit commit =
      if commit.status == "COMPLETED"
      then commit_ended (λ r. record r { l2_commits_succeeded = r.l2_commits_succeeded + 1 })
          commit.resulting_commit "COMPLETED"
      else if commit.status == "ALREADY_COMMITTED"
      then commit_ended
          (λ r. record r { l2_commits_already_committed = r.l2_commits_already_committed + 1 })
          commit.resulting_commit "ALREADY_COMMITTED"
      else fail_commit
          (commit.manual_reconciliation_required && config.stop_on_manual_reconciliation)

  -- the commit of an integrated task
  unfoldable pub commit_task :
      RuntimeTaskRecord
      → PromotionContext
      → CanonicalIntegrationResult
      → Exec (Night W) Stop (Unit {0})
  commit_task task context integration = do
    commit ← call_service (λ n.
        services.commit
          record {
            workflow_id = task.workflow_id;
            canonical_repository_path = context.canonical_repository_path;
            expected_baseline_commit = context.expected_baseline_commit;
            authority_level = AuthorityLevel.l2;
            actor = services.actor;
            protected_untracked_hashes = integration.protected_untracked_hashes;
          }
          n.shift)
    change_result (λ r. record r { l2_commits_attempted = r.l2_commits_attempted + 1 })
    change_cycle (λ c. record c {
      commit_status = some commit.status;
      commit_reason = commit.reason;
      resulting_commit_sha = commit.resulting_commit;
      manual_reconciliation_required = commit.manual_reconciliation_required;
    })
    settle_commit commit

  -- the commit, when the contract of the task allows one
  unfoldable pub commit_integrated :
      RuntimeTaskRecord
      → PromotionContext
      → CanonicalIntegrationResult
      → Exec (Night W) Stop (Unit {0})
  commit_integrated task context integration = do
    raise_if (not context.create_commit_authorized) (hard "CREATE_COMMIT_NOT_AUTHORIZED")
    commit_task task context integration

  unfoldable pub promote_in :
      RuntimeTaskRecord → Result String PromotionContext → Exec (Night W) Stop (Unit {0})
  promote_in task (err reason) n = (err (hard reason), n)
  promote_in task (ok context) n =
      (integrate_task task context >>= commit_integrated task context) n

  -- the branch of a task that completed
  unfoldable pub promote_task : RuntimeTaskRecord → Exec (Night W) Stop (Unit {0})
  promote_task task n =
      promote_in task (promotion_context services task.workflow_id config n.shift) n

  unfoldable pub handle_task :
      Bool → RuntimeTaskRecord → Table ContainmentSnapshot → Exec (Night W) Stop (Unit {0})
  handle_task true task snapshots = promote_task task
  handle_task false task snapshots = contain_failure task snapshots

  abbrev started_cycle : Night W → Table ContainmentSnapshot × Shift W
  started_cycle n =
      let shift = audit_night services "NIGHT_SHIFT_CYCLE_STARTED" "STARTED" n.shift in
      (capture_snapshots services config.workflow_ids shift shift.session.workflows, shift)

  -- a cycle, which is left early when the loop ends with it
  unfoldable pub run_cycle : Exec (Night W) Stop (Unit {0})
  run_cycle = do
    snapshots ← call_service started_cycle
    task ← run_task
    handle_task (outcome_value task.outcome == "COMPLETED") task snapshots
