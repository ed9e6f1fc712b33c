-- ===== src/NightShift/Cycle/Spending.antt =====
-- night_shift/supervisor.py: how many tasks and commits a cycle adds to the totals of a run.
use lucius_engineering.Prelude.{
  ℕ, ◌+◌, ◌≤◌, ◌≡◌, String, Bool, true, false, some, inl, inr, Table, Result, ok, err, arith, ◌==◌,
  Bool-cases, Option-cases,
}
use lucius_engineering.Prelude.Exec.{Exec}
use lucius_engineering.Prelude.Triples.{Ends, Ends-bind, Ends-map}
use lucius_engineering.NightShift.Schemas.{NightShiftConfig, NightShiftResult}
use lucius_engineering.NightShift.Services.{
  Services, Shift, RuntimeLoopConfig, RuntimeTaskRecord, RuntimeLoopResult,
  CanonicalIntegrationResult, ControlledCommitResult,
}
use lucius_engineering.NightShift.Containment.{ContainmentSnapshot, ContainmentResult}
use lucius_engineering.NightShift.Promotion.{PromotionContext}
use lucius_engineering.NightShift.Night.{Night, Stop, last_record, loop_config}
use lucius_engineering.NightShift.Cycle.{
  ask_runtime, task_record, settle_containment, contain_failure, settle_integration, integrate_task,
  fail_commit, settle_commit, commit_task, commit_integrated, promote_in, run_task, promote_task,
  handle_task, run_cycle,
}

-- At least `a` and at most `b` tasks were selected, and at most `c` commits succeeded.
abbrev pub Spent : ℕ → ℕ → ℕ → NightShiftResult → Type 0
Spent a b c r = (a ≤ r.tasks_selected) × (r.tasks_selected ≤ b) × (r.l2_commits_succeeded ≤ c)

module _ {W : Type 0} where
  abbrev pub SpendsBy : {A : Type 0} → ℕ → ℕ → ℕ → ℕ → Exec (Night W) Stop A → Night W → Type 0
  SpendsBy a b c d m n =
      Ends (λ _ (n' : Night W). Spent a b c n'.result) (λ _ (n' : Night W). Spent a b d n'.result)
        (m n)

module _ {W : Type 0} (services : Services W) (config : NightShiftConfig) (a b c : ℕ) where
  settle_containment-Spent :
      (containment : ContainmentResult) (n : Night W)
      → Spent a b c n.result
      → SpendsBy a b (c + 1) (c + 1) (settle_containment services config containment) n
  unfolding settle_containment
  settle_containment-Spent containment n h = ground arith

  contain_failure-Spent :
      (task : RuntimeTaskRecord) (snapshots : Table ContainmentSnapshot) (n : Night W)
      → Spent a b c n.result
      → SpendsBy a b (c + 1) (c + 1) (contain_failure services config task snapshots) n
  unfolding contain_failure
  contain_failure-Spent task snapshots n h = settle_containment-Spent _ _ h

  settle_integration-Spent :
      (done : Bool) (integration : CanonicalIntegrationResult) (n : Night W)
      → Spent a b c n.result
      → SpendsBy a b c (c + 1) (settle_integration services config done integration) n
  unfolding settle_integration
  settle_integration-Spent true integration n h = h
  settle_integration-Spent false integration n h = ground arith

  integrate_task-Spent :
      (task : RuntimeTaskRecord) (context : PromotionContext) (n : Night W)
      → Spent a b c n.result
      → SpendsBy a b c (c + 1) (integrate_task services config task context) n
  unfolding integrate_task
  integrate_task-Spent task context n h = settle_integration-Spent (_ == "COMPLETED") _ _ h

  settle_commit-Spent :
      (commit : ControlledCommitResult) (n : Night W)
      → Spent a b c n.result
      → SpendsBy a b (c + 1) (c + 1) (settle_commit services config commit) n
  unfolding settle_commit fail_commit
  settle_commit-Spent commit n h = ground arith

  commit_integrated-Spent :
      (task : RuntimeTaskRecord) (context : PromotionContext)
      (integration : CanonicalIntegrationResult) (n : Night W)
      → Spent a b c n.result
      → SpendsBy a b (c + 1) (c + 1) (commit_integrated services config task context integration) n
  unfolding commit_integrated commit_task
  commit_integrated-Spent task context integration n h =
      elim (Bool-cases context.create_commit_authorized) [
        | inl e ↦ simp e (settle_commit-Spent _ _ h)
        | inr e ↦ simp e (ground arith)
      ]

  promote_in-Spent :
      (task : RuntimeTaskRecord) (context : Result String PromotionContext) (n : Night W)
      → Spent a b c n.result
      → SpendsBy a b (c + 1) (c + 1) (promote_in services config task context) n
  unfolding promote_in
  promote_in-Spent task (ok context) n h =
      Ends-bind _ _ _ (integrate_task services config task context)
        (commit_integrated services config task context) n (integrate_task-Spent task context n h)
        (commit_integrated-Spent task context)
  promote_in-Spent task (err reason) n h = ground arith

  handle_task-Spent :
      (done : Bool) (task : RuntimeTaskRecord) (snapshots : Table ContainmentSnapshot) (n : Night W)
      → Spent a b c n.result
      → SpendsBy a b (c + 1) (c + 1) (handle_task services config done task snapshots) n
  unfolding handle_task promote_task
  handle_task-Spent true task snapshots n h = promote_in-Spent task _ n h
  handle_task-Spent false task snapshots n h = contain_failure-Spent task snapshots n h

-- A runtime loop that kept the record of a task selected one.
abbrev pub SelectsTask : {W : Type 0} → Services W → Type 0
SelectsTask {W} services =
    (config : RuntimeLoopConfig) (shift : Shift W) (task : RuntimeTaskRecord)
    → last_record (services.run_runtime config shift).0.task_records ≡ some task
    → 1 ≤ (services.run_runtime config shift).0.selected_tasks

-- A runtime loop selects no more tasks than it is asked to, where that is one at least.
abbrev pub KeepsMaxTasks : {W : Type 0} → Services W → Type 0
KeepsMaxTasks {W} services =
    (config : RuntimeLoopConfig) (shift : Shift W)
    → 1 ≤ config.max_tasks
    → (services.run_runtime config shift).0.selected_tasks ≤ config.max_tasks

module _ {W : Type 0} (services : Services W) (config : NightShiftConfig) where
  task_record-selects :
      (report : RuntimeLoopResult) (n : Night W) (a : ℕ)
      → ((task : RuntimeTaskRecord)
          → last_record report.task_records ≡ some task
          → 1 ≤ report.selected_tasks)
      → a + report.selected_tasks ≤ n.result.tasks_selected
      → Ends
          (λ _ (n' : Night W). a + 1 ≤ n'.result.tasks_selected)
          (λ _ (_ : Night W). Unit {0})
          (task_record services config report n)
  unfolding task_record
  task_record-selects report n a selects h = elim (Option-cases (last_record report.task_records)) [
    | inl e ↦ rw e (ground arith)
    | inr (task, e) ↦ let one = selects task e in rw e (ground (arith, one, h))
  ]

  task_record-Spent :
      (report : RuntimeLoopResult) (n : Night W) (a b c : ℕ)
      → Spent a b c n.result
      → SpendsBy a b c (c + 1) (task_record services config report) n
  unfolding task_record
  task_record-Spent report n a b c h = elim (Option-cases (last_record report.task_records)) [
    | inl e ↦ rw e (ground arith)
    | inr (task, e) ↦ rw e (ground arith)
  ]

  run_task-selects :
      (n : Night W) (a : ℕ)
      → SelectsTask services
      → a ≤ n.result.tasks_selected
      → Ends
          (λ _ (n' : Night W). a + 1 ≤ n'.result.tasks_selected)
          (λ _ (_ : Night W). Unit {0})
          (run_task services config n)
  unfolding run_task ask_runtime
  run_task-selects n a selects h = task_record-selects _ _ a (selects _ _) (ground arith)

  ask_runtime-Spent :
      (n : Night W) (b c : ℕ)
      → KeepsMaxTasks services
      → Spent 0 b c n.result
      → SpendsBy 0 (b + 1) c (c + 1) (ask_runtime services config) n
  unfolding ask_runtime
  ask_runtime-Spent n b c keeps h =
      let one = keeps (loop_config config) n.shift (omega arith) in ground (arith, one, h)

  run_task-Spent :
      (n : Night W) (b c : ℕ)
      → KeepsMaxTasks services
      → Spent 0 b c n.result
      → SpendsBy 0 (b + 1) c (c + 1) (run_task services config) n
  unfolding run_task
  run_task-Spent n b c keeps h =
      Ends-bind _ _ _ (ask_runtime services config) (task_record services config) n
        (ask_runtime-Spent n b c keeps h) (λ report n'. task_record-Spent report n' 0 (b + 1) c)

  -- A cycle that the loop goes on after selected a task.
  pub run_cycle-selects :
      (n : Night W) (a : ℕ)
      → SelectsTask services
      → a ≤ n.result.tasks_selected
      → Ends
          (λ _ (n' : Night W). a + 1 ≤ n'.result.tasks_selected)
          (λ _ (_ : Night W). Unit {0})
          (run_cycle services config n)
  unfolding run_cycle
  run_cycle-selects n a selects h =
      Ends-bind (λ _ (n' : Night W). a + 1 ≤ n'.result.tasks_selected)
        (λ _ (n' : Night W). a + 1 ≤ n'.result.tasks_selected) (λ _ (_ : Night W). Unit {0})
        (run_task services config) _ _ (run_task-selects _ a selects h)
        (λ task n' h'.
          Ends-map
            (λ _ (m : Night W).
              Spent (a + 1) n'.result.tasks_selected (n'.result.l2_commits_succeeded + 1) m.result)
            _ _ _ _
            (handle_task-Spent services config (a + 1) n'.result.tasks_selected
              n'.result.l2_commits_succeeded _ task _ n' (ground arith))
            (λ _ _ s. s.0) (λ _ _ _. tt))

  -- A cycle selects at most one task and makes at most one commit.
  pub run_cycle-Spent :
      (n : Night W) (b c : ℕ)
      → KeepsMaxTasks services
      → Spent 0 b c n.result
      → SpendsBy 0 (b + 1) (c + 1) (c + 1) (run_cycle services config) n
  unfolding run_cycle
  run_cycle-Spent n b c keeps h =
      Ends-bind _ _ _ (run_task services config) _ _ (run_task-Spent _ b c keeps h)
        (λ task. handle_task-Spent services config 0 (b + 1) c _ task _)
