-- ===== src/NightShift/Cycle/Books.antt =====
-- night_shift/supervisor.py: how the counters of a result move together through a cycle.
use lucius_engineering.Prelude.{
  ℕ, ◌+◌, ◌≤◌, ◌≡◌, Bool, ◌&&◌, true, false, none, inl, inr, Table, arith, length, Bool-cases,
  Result-cases, ◌==◌,
}
use lucius_engineering.Prelude.Exec.{Exec}
use lucius_engineering.Prelude.Triples.{Ends, Ends-bind}
use lucius_engineering.NightShift.Schemas.{NightShiftConfig, NightShiftResult}
use lucius_engineering.NightShift.Services.{
  Services, RuntimeTaskRecord, RuntimeLoopResult, CanonicalIntegrationResult,
  ControlledCommitResult,
}
use lucius_engineering.NightShift.Containment.{
  ContainmentSnapshot, ContainmentResult, containment_value,
}
use lucius_engineering.NightShift.Promotion.{PromotionContext, promotion_context}
use lucius_engineering.NightShift.Night.{Night, Stop}
use lucius_engineering.NightShift.Cycle.{
  ask_runtime, task_record, settle_containment, contain_failure, settle_integration, integrate_task,
  fail_commit, settle_commit, commit_task, commit_integrated, promote_in, run_task, promote_task,
  handle_task, run_cycle,
}

-- The tasks that were settled: contained, committed, or committed before.
abbrev pub settled : NightShiftResult → ℕ
settled r =
    r.contained_task_local_failures + (r.l2_commits_succeeded + r.l2_commits_already_committed)

-- The books while nothing has failed: `i` cycles and `j` integrations are not settled yet.
abbrev pub Running : ℕ → ℕ → NightShiftResult → Type 0
Running i j r =
    (r.cycles_attempted ≡ settled r + i)
    × (r.cycles_attempted ≡ length r.cycles + 1)
    × (r.l1_integrations_succeeded ≡ r.l2_commits_succeeded + r.l2_commits_already_committed + j)
    × (r.l1_integrations_attempted ≡ r.l1_integrations_succeeded)
    × (r.l1_integrations_failed ≡ 0)
    × (r.l2_commits_attempted ≡ r.l2_commits_succeeded + r.l2_commits_already_committed)
    × (r.l2_commits_failed ≡ 0)
    × (r.hard_stop_failures ≡ 0)
    × (r.integrity_violation ≡ none)

-- The books when a cycle is left early: it is not settled, and at most one service failed in it.
abbrev pub Left : NightShiftResult → Type 0
Left r =
    (r.cycles_attempted ≡ settled r + 1)
    × (r.cycles_attempted ≡ length r.cycles + 1)
    × (r.l1_integrations_attempted ≡ r.l1_integrations_succeeded + r.l1_integrations_failed)
    × (r.l2_commits_attempted
        ≡ r.l2_commits_succeeded + r.l2_commits_already_committed + r.l2_commits_failed)
    × (r.l2_commits_attempted ≤ r.l1_integrations_succeeded)
    × (r.l1_integrations_attempted ≤ r.l2_commits_succeeded + r.l2_commits_already_committed + 1)
    × (r.hard_stop_failures ≡ 0)
    × (r.integrity_violation ≡ none)

module _ {W : Type 0} where
  abbrev pub Returns : {A : Type 0} → ℕ → ℕ → A → Night W → Type 0
  Returns i j a n = Running i j n.result

  -- An idle runtime ends the loop before anything fails.
  abbrev pub Raises : Stop → Night W → Type 0
  Raises Stop.idle n = Running 1 0 n.result
  Raises (Stop.hard reason) n = Left n.result

  abbrev pub Keeps : {A : Type 0} → ℕ → ℕ → Exec (Night W) Stop A → Night W → Type 0
  Keeps i j m n = Ends (Returns i j) Raises (m n)

module _ {W : Type 0} (services : Services W) (config : NightShiftConfig) where
  ask_runtime-Running :
      (n : Night W) → Running 1 0 n.result → Keeps 1 0 (ask_runtime services config) n
  unfolding ask_runtime
  ask_runtime-Running n h = h

  task_record-Running :
      (report : RuntimeLoopResult) (n : Night W)
      → Running 1 0 n.result
      → Keeps 1 0 (task_record services config report) n
  unfolding task_record
  task_record-Running report n h = ground arith

  settle_containment-Running :
      (containment : ContainmentResult) (n : Night W)
      → Running 1 0 n.result
      → Keeps 0 0 (settle_containment services config containment) n
  unfolding settle_containment
  settle_containment-Running containment n h =
      elim (Bool-cases (containment_value containment.status == "CONTAINED")) [
        | inl e ↦ rw e (ground arith)
        | inr e ↦ rw e (ground arith)
      ]

  contain_failure-Running :
      (task : RuntimeTaskRecord) (snapshots : Table ContainmentSnapshot) (n : Night W)
      → Running 1 0 n.result
      → Keeps 0 0 (contain_failure services config task snapshots) n
  unfolding contain_failure
  contain_failure-Running task snapshots n h = settle_containment-Running _ _ h

  settle_integration-Running :
      (done : Bool) (integration : CanonicalIntegrationResult) (n : Night W)
      → Running 1 0
          (record n.result { l1_integrations_attempted = n.result.l1_integrations_succeeded })
      → n.result.l1_integrations_attempted ≡ n.result.l1_integrations_succeeded + 1
      → Keeps 1 1 (settle_integration services config done integration) n
  unfolding settle_integration
  settle_integration-Running true integration n h e = ground arith
  settle_integration-Running false integration n h e = ground arith

  integrate_task-Running :
      (task : RuntimeTaskRecord) (context : PromotionContext) (n : Night W)
      → Running 1 0 n.result
      → Keeps 1 1 (integrate_task services config task context) n
  unfolding integrate_task
  integrate_task-Running task context n h =
      settle_integration-Running (_ == "COMPLETED") _ _ (ground arith) (ground arith)

  fail_commit-Running :
      (manual : Bool) (n : Night W)
      → Running 1 1 (record n.result {
        l2_commits_attempted =
            n.result.l2_commits_succeeded + n.result.l2_commits_already_committed;
      })
      → n.result.l2_commits_attempted
        ≡ n.result.l2_commits_succeeded + n.result.l2_commits_already_committed + 1
      → Keeps 0 0 (fail_commit services config manual) n
  unfolding fail_commit
  fail_commit-Running true n h e = ground arith
  fail_commit-Running false n h e = ground arith

  settle_commit-Running :
      (commit : ControlledCommitResult) (n : Night W)
      → Running 1 1 (record n.result {
        l2_commits_attempted =
            n.result.l2_commits_succeeded + n.result.l2_commits_already_committed;
      })
      → n.result.l2_commits_attempted
        ≡ n.result.l2_commits_succeeded + n.result.l2_commits_already_committed + 1
      → Keeps 0 0 (settle_commit services config commit) n
  unfolding settle_commit
  settle_commit-Running commit n h e = elim (Bool-cases (commit.status == "COMPLETED")) [
    | inl q ↦ rw q (ground arith)
    | inr q ↦ rw q (elim (Bool-cases (commit.status == "ALREADY_COMMITTED")) [
      | inl q' ↦ rw q' (ground arith)
      | inr q' ↦ rw q' (
          fail_commit-Running
            (commit.manual_reconciliation_required && config.stop_on_manual_reconciliation) n h e)
    ])
  ]

  commit_task-Running :
      (task : RuntimeTaskRecord) (context : PromotionContext)
      (integration : CanonicalIntegrationResult) (n : Night W)
      → Running 1 1 n.result
      → Keeps 0 0 (commit_task services config task context integration) n
  unfolding commit_task
  commit_task-Running task context integration n h =
      settle_commit-Running _ _ (ground arith) (ground arith)

  commit_integrated-Running :
      (task : RuntimeTaskRecord) (context : PromotionContext)
      (integration : CanonicalIntegrationResult) (n : Night W)
      → Running 1 1 n.result
      → Keeps 0 0 (commit_integrated services config task context integration) n
  unfolding commit_integrated
  commit_integrated-Running task context integration n h =
      elim (Bool-cases context.create_commit_authorized) [
        | inl e ↦ simp e (commit_task-Running task context integration n h)
        | inr e ↦ rw e (ground arith)
      ]

  promote_task-Running :
      (task : RuntimeTaskRecord) (n : Night W)
      → Running 1 0 n.result
      → Keeps 0 0 (promote_task services config task) n
  unfolding promote_task promote_in
  promote_task-Running task n h =
      elim (Result-cases (promotion_context services task.workflow_id config n.shift)) [
        | inl (context, e) ↦ rw e (
            Ends-bind (Returns 1 1) (Returns 0 0) Raises
              (integrate_task services config task context)
              (commit_integrated services config task context) n
              (integrate_task-Running task context n h) (commit_integrated-Running task context))
        | inr (reason, e) ↦ rw e (ground arith)
      ]

  run_task-Running : (n : Night W) → Running 1 0 n.result → Keeps 1 0 (run_task services config) n
  unfolding run_task
  run_task-Running n h =
      Ends-bind (Returns 1 0) (Returns 1 0) Raises (ask_runtime services config)
        (task_record services config) n (ask_runtime-Running n h) task_record-Running

  handle_task-Running :
      (done : Bool) (task : RuntimeTaskRecord) (snapshots : Table ContainmentSnapshot) (n : Night W)
      → Running 1 0 n.result
      → Keeps 0 0 (handle_task services config done task snapshots) n
  unfolding handle_task
  handle_task-Running true task snapshots n h = promote_task-Running task n h
  handle_task-Running false task snapshots n h = contain_failure-Running task snapshots n h

  -- A cycle that starts with no failure in the books leaves it so, settled, or is left early.
  pub run_cycle-Running :
      (n : Night W) → Running 1 0 n.result → Keeps 0 0 (run_cycle services config) n
  unfolding run_cycle
  run_cycle-Running n h =
      Ends-bind (Returns 1 0) (Returns 0 0) Raises (run_task services config) _ _
        (run_task-Running _ h) (λ task. handle_task-Running _ task _)
