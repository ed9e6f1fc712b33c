-- ===== src/Tasks/Calls/Lifecycle.antt =====
-- The life of a task: which step of its status each call of the task service takes.
use lucius_engineering.Prelude.{
  ℕ, String, ◌≡◌, refl, ◌⊎◌, inl, inr, true, Option, none, some, List, [], ◌∷◌, arith, lookup,
  insert, ok, Result-cases, any,
}
use lucius_engineering.Domain.Enums.{Actor, TaskStatus, BlockerCode}
use lucius_engineering.Domain.Blockers.{StructuredBlocker}
use lucius_engineering.Persistence.Orm.{Task, TaskRun, DocumentationCompletion, Session}
use lucius_engineering.Tasks.Contracts.{get_task, validate_contract}
use lucius_engineering.Tasks.Service
use lucius_engineering.Tasks.Service.{
  RunDetails, audit_task, put_task, is_terminal, transition_guard, with_status, apply_blocker,
  make_ready, write_ready, mark_ready, write_run, start_run, write_block, block_task,
}
use lucius_engineering.Tasks.Service.Progress.{
  write_failure, fail_task, write_implemented, mark_implementation_complete, write_status,
  mark_documentation_pending, store_completion, record_documentation_completion, write_complete,
  complete_task, cancel_task, change_found, change_run, DocumentationGate, satisfied, no_evidence,
  incomplete, documentation_gate, completion_of, write_completion,
}
use lucius_engineering.Tasks.Calls.Steps.{
  Step, admits, ready-Step, refused-Step, block-Step, run-Step, fail-Step, implement-Step,
  document-Step, complete-Step, cancel-Step,
}
use lucius_engineering.Tasks.Calls.{
  TaskCall, ready, start, block, fail, implemented, documentation_pending, documented, complete,
  cancel, author,
}
use lucius_engineering.Tasks.Calls.Raising.{authored-KeepsTasks}
use lucius_engineering.Tasks.Service.Authoring.{ContractUpdate, create_or_update_contract}

pub guard-found :
    (id : String) (allowed : List TaskStatus) (s : Session) {task : Task}
    → transition_guard id allowed s ≡ ok task
    → (lookup id s.tasks ≡ some task) × (admits allowed task.status ≡ true)
unfolding transition_guard get_task
guard-found id allowed s {task} h = (ground arith, ground arith)

-- The row of the task was changed, by a step of its status.
pub record TaskChange (id : String) (call : TaskCall) (s t : Session) : Type 0 where
  pub before : Task
  pub changed : Task
  pub stored : lookup id s.tasks ≡ some before
  pub written : t.tasks ≡ insert id changed s.tasks
  pub step : Step call before.status changed.status

abbrev pub TaskEffect : String → TaskCall → Session → Session → Type 0
TaskEffect id call s t = (t.tasks ≡ s.tasks) ⊎ TaskChange id call s t

module _ (id : String) (actor : Actor) (now : ℕ) (s : Session) where
  written_ready :
      {task : Task} (blockers : List StructuredBlocker)
      → transition_guard id (TaskStatus.draft ∷ TaskStatus.blocked ∷ TaskStatus.failed ∷ []) s
        ≡ ok task
      → TaskChange id ready s (write_ready id task blockers actor now s)
  unfolding write_ready audit_task put_task make_ready apply_blocker
  written_ready {task} [] h =
      let (found, allowed) = guard-found id _ s h in
      record {
        before = task;
        changed = make_ready now task;
        stored = found;
        written = refl;
        step = ready-Step task.status allowed;
      }
  written_ready {task} (b ∷ bs) h =
      let (found, allowed) = guard-found id _ s h in
      record {
        before = task;
        changed = apply_blocker b now task;
        stored = found;
        written = refl;
        step = refused-Step task.status allowed;
      }

  -- the change of one write, from what its guard admits
  changed_to :
      {call : TaskCall} {t : Session} {task : Task} (allowed : List TaskStatus) (task' : Task)
      → transition_guard id allowed s ≡ ok task
      → t.tasks ≡ insert id task' s.tasks
      → (admits allowed task.status ≡ true → Step call task.status task'.status)
      → TaskChange id call s t
  changed_to {call} {t} {task} allowed task' h w step =
      let (found, admitted) = guard-found id allowed s h in
      record { before = task; changed = task'; stored = found; written = w; step = step admitted }

  pub ready_effect : TaskEffect id ready s (mark_ready id actor now s).1
  unfolding mark_ready
  ready_effect =
      elim (Result-cases
        (transition_guard id (TaskStatus.draft ∷ TaskStatus.blocked ∷ TaskStatus.failed ∷ []) s)) [
          | inl (task, e) ↦ rw e (elim (Result-cases (validate_contract id s)) [
            | inl (result, q) ↦ rw q (inr (written_ready result.blockers e))
            | inr (x, q) ↦ rw q (inl refl)
          ])
          | inr (x, e) ↦ rw e (inl refl)
        ]

  pub block_effect :
      (code : BlockerCode) (message : String)
      → TaskEffect id (block code message) s (block_task id code message actor now s).1
  unfolding block_task write_block audit_task put_task apply_blocker
  block_effect code message =
      elim (Result-cases (
        transition_guard id
          (TaskStatus.draft ∷ TaskStatus.ready ∷ TaskStatus.running ∷ TaskStatus.blocked ∷ []) s)) [
            | inl (task, e) ↦ rw e (inr (changed_to _ _ e refl (block-Step task.status)))
            | inr (x, e) ↦ rw e (inl refl)
          ]

  run-tasks :
      (run : Option String) (f : TaskRun → TaskRun) (u : Session)
      → (change_run run f u).tasks ≡ u.tasks
  unfolding change_run
  run-tasks none f u = refl
  run-tasks (some String.[]) f u = refl
  run-tasks (some (String.◌∷◌ c cs)) f u = go (lookup (String.◌∷◌ c cs) u.runs)
    where
      go : (r : Option TaskRun) → (change_found (String.◌∷◌ c cs) f r u).tasks ≡ u.tasks
      go none = refl
      go (some r) = refl

  pub fail_effect :
      (reason : String) (run : Option String)
      → TaskEffect id (fail reason run) s (fail_task id reason run actor now s).1
  unfolding fail_task write_failure audit_task put_task
  fail_effect reason run =
      elim (Result-cases
        (transition_guard id (TaskStatus.running ∷ TaskStatus.blocked ∷ TaskStatus.ready ∷ []) s)) [
          | inl (task, e) ↦
              rw e (inr (changed_to _ _ e (run-tasks run _ _) (fail-Step task.status)))
          | inr (x, e) ↦ rw e (inl refl)
        ]

  pub implemented_effect :
      (run summary : Option String)
      → TaskEffect id
          (implemented run summary)
          s
          (mark_implementation_complete id run summary actor now s).1
  unfolding mark_implementation_complete write_implemented audit_task put_task
  implemented_effect run summary =
      elim (Result-cases (transition_guard id (TaskStatus.running ∷ []) s)) [
        | inl (task, e) ↦
            rw e (inr (changed_to _ _ e (run-tasks run _ _) (implement-Step task.status)))
        | inr (x, e) ↦ rw e (inl refl)
      ]

  pub pending_effect :
      TaskEffect id documentation_pending s (mark_documentation_pending id actor now s).1
  unfolding mark_documentation_pending write_status audit_task put_task
  pending_effect =
      elim (Result-cases (transition_guard id (TaskStatus.implementation_complete ∷ []) s)) [
        | inl (task, e) ↦ rw e (inr (changed_to _ _ e refl (document-Step task.status)))
        | inr (x, e) ↦ rw e (inl refl)
      ]

  pub cancel_effect : TaskEffect id cancel s (cancel_task id actor now s).1
  unfolding cancel_task write_status audit_task put_task
  cancel_effect =
      elim (Result-cases (
        transition_guard id
          (TaskStatus.draft ∷ TaskStatus.ready ∷ TaskStatus.running ∷ TaskStatus.blocked ∷ []) s)) [
            | inl (task, e) ↦ rw e (inr (changed_to _ _ e refl (cancel-Step task.status)))
            | inr (x, e) ↦ rw e (inl refl)
          ]

  completed_by_gate :
      {task : Task} (gate : DocumentationGate)
      → transition_guard id
          (TaskStatus.implementation_complete ∷ TaskStatus.documentation_pending ∷ [])
          s
        ≡ ok task
      → TaskEffect id complete s (write_complete id task gate actor now s)
  unfolding write_complete write_status audit_task put_task
  completed_by_gate {task} satisfied e = inr (changed_to _ _ e refl (complete-Step task.status))
  completed_by_gate no_evidence e = inl refl
  completed_by_gate (incomplete targets) e = inl refl

  pub complete_effect : TaskEffect id complete s (complete_task id actor now s).1
  unfolding complete_task
  complete_effect =
      elim (Result-cases (
        transition_guard id
          (TaskStatus.implementation_complete ∷ TaskStatus.documentation_pending ∷ []) s)) [
            | inl (task, e) ↦ rw e (completed_by_gate (documentation_gate id task s) e)
            | inr (x, e) ↦ rw e (inl refl)
          ]

  pub documented_effect :
      (targets evidence : List String)
      → TaskEffect id
          (documented targets evidence)
          s
          (record_documentation_completion id targets evidence actor now s).1
  unfolding record_documentation_completion store_completion
  documented_effect targets evidence = elim (Result-cases (get_task id s)) [
    | inl (task, e) ↦ rw e (inl (go (completion_of id s.completions) _))
    | inr (x, e) ↦ rw e (inl refl)
  ]
    where
      go :
          (c : Option (String × DocumentationCompletion)) (d : DocumentationCompletion)
          → (write_completion c d s).tasks ≡ s.tasks
      go none d = refl
      go (some c) d = refl

  ready_status :
      (task : Task) (snapshot : Option String)
      → Service.start_guard id snapshot s ≡ ok task
      → (lookup id s.tasks ≡ some task) × (admits (TaskStatus.ready ∷ []) task.status ≡ true)
  unfolding Service.start_guard get_task any
  ready_status task snapshot h = (ground arith, ground arith)

  pub start_effect :
      (snapshot : Option String) (details : RunDetails)
      → TaskEffect id (start snapshot details) s (start_run id snapshot details actor now s).1
  unfolding start_run write_run audit_task
  start_effect snapshot details = elim (Result-cases (Service.start_guard id snapshot s)) [
    | inl (task, e) ↦
        let (found, admitted) = ready_status task snapshot e in
        rw e (
          inr (record {
            before = task;
            changed = with_status TaskStatus.running now task;
            stored = found;
            written = refl;
            step = run-Step task.status admitted;
          }))
    | inr (x, e) ↦ rw e (inl refl)
  ]

  pub author_effect :
      (args : ContractUpdate)
      → TaskEffect id (author args) s (create_or_update_contract id args actor now s).1
  author_effect args = inl (authored-KeepsTasks id args actor now s).tasks
