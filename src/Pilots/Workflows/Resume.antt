-- ===== src/Pilots/Workflows/Resume.antt =====
-- What a checkpoint and the validation of a resume promise each other.
use lucius_engineering.Prelude.{
  ℕ, String, ◌≡◌, ◌≢◌, ◌↔◌, refl, true, Option, some, List, [], ◌∷◌, ◌++◌, All, arith, lookup,
  lookup-insert_self, eq_iff, eq_refl, ◌==◌, ok, err, Bool-cases, inl, inr,
}
use lucius_engineering.Domain.Enums.{Actor, PersistentWorkflowState, ResumeValidationResult}
use lucius_engineering.Domain.Json.{JsonDict}
use lucius_engineering.Persistence.Orm.{
  checkpoint_entry, PersistentWorkflow, ResumeValidation, Session,
}
use lucius_engineering.Pilots.Workflows.{unknown_checkpoint, get_row, put_row, audit_row}
use lucius_engineering.Pilots.Workflows.Checkpoints.{
  CheckpointCreate, new_checkpoint, checkpointed_row, write_checkpoint, record_checkpoint,
  resume_guard, resumed_row, new_validation, write_resume, validate_resume, has_passed,
}
use lucius_engineering.Pilots.Workflows.Checks.{HasBlocking, resume_result_decides}

recorded :
    (wid : String) (args : CheckpointCreate) (a : Actor) (n : ℕ) (s t : Session) (cid : String)
    (row : PersistentWorkflow)
    → get_row wid s ≡ ok row
    → record_checkpoint wid args a n s ≡ (ok cid, t)
    → t ≡ write_checkpoint cid wid row args a n s
unfolding record_checkpoint
recorded wid args a n s t cid row h e = ground (arith, h, e)

checkpoint_row :
    (wid : String) (args : CheckpointCreate) (a : Actor) (n : ℕ) (s : Session) (cid : String)
    (row : PersistentWorkflow)
    → lookup cid (write_checkpoint cid wid row args a n s).checkpoints
      ≡ some (new_checkpoint wid args n)
unfolding write_checkpoint audit_row put_row
checkpoint_row wid args a n s cid row = lookup-insert_self cid _ s.checkpoints

workflow_row :
    (wid : String) (args : CheckpointCreate) (a : Actor) (n : ℕ) (s : Session) (cid : String)
    (row : PersistentWorkflow)
    → lookup wid (write_checkpoint cid wid row args a n s).workflows
      ≡ some (checkpointed_row cid args n row)
unfolding write_checkpoint audit_row put_row
workflow_row wid args a n s cid row = lookup-insert_self wid _ s.workflows

guard-recorded :
    (wid : String) (args : CheckpointCreate) (a : Actor) (n : ℕ) (s : Session) (cid : String)
    (row : PersistentWorkflow)
    → resume_guard wid cid (write_checkpoint cid wid row args a n s)
      ≡ ok (checkpointed_row cid args n row)
unfolding resume_guard get_row new_checkpoint
guard-recorded wid args a n s cid row =
    rw (workflow_row wid args a n s cid row)
      (rw (checkpoint_row wid args a n s cid row) (rw (eq_refl wid) refl))

validated :
    (wid : String) (args : CheckpointCreate) (a b : Actor) (n m : ℕ) (s t : Session) (cid : String)
    (row : PersistentWorkflow) (checks : List JsonDict) (next notes : Option String)
    → get_row wid s ≡ ok row
    → record_checkpoint wid args a n s ≡ (ok cid, t)
    → ((validate_resume wid cid checks next notes b m t).0
        ≡ ok (new_validation wid cid checks next notes m))
      × (lookup wid (validate_resume wid cid checks next notes b m t).1.workflows
          ≡ some (resumed_row next m (checkpointed_row cid args n row)))
unfolding validate_resume write_resume audit_row put_row new_validation
validated wid args a b n m s t cid row checks next notes h e =
    rw (recorded wid args a n s t cid row h e)
      (rw (guard-recorded wid args a n s cid row) (refl, lookup-insert_self wid _ _))

-- The workflow waits for the validation of its resume at the task `next`, with the progress that the
-- checkpoint `cid` recorded, and with the backlog that it had.
pub record IsResumed (cid : String) (args : CheckpointCreate) (next : Option String)
    (before now : PersistentWorkflow) : Type 0 where
  pub state : now.workflow_state ≡ PersistentWorkflowState.resume_validation
  pub active : now.active_task_id ≡ next
  pub completed : now.completed_task_ids ≡ args.completed_task_ids
  pub pending : now.pending_task_ids ≡ args.pending_task_ids
  pub decisions : now.decisions ≡ args.decisions
  pub deviations : now.deviations ≡ args.deviations
  pub repairs : now.repair_counters ≡ args.repair_counters
  pub tests : now.targeted_test_evidence ≡ args.latest_test_results
  pub approvals : now.pending_human_approvals ≡ args.pending_human_approvals
  pub history : now.checkpoint_history ≡ before.checkpoint_history ++ checkpoint_entry cid ∷ []
  pub backlog : now.task_backlog ≡ before.task_backlog

-- What a validation says of the checkpoint and the checks that it was asked for.
pub record IsDecided (cid : String) (checks : List JsonDict) (validation : ResumeValidation)
    : Type 0 where
  pub checkpoint : validation.checkpoint_id ≡ cid
  pub safe :
      (validation.result ≡ ResumeValidationResult.safe_to_resume)
      ↔ All (λ c. has_passed c ≡ true) checks
  pub blocked : (validation.result ≡ ResumeValidationResult.blocked) ↔ HasBlocking checks

resumed_row-IsResumed :
    (cid : String) (args : CheckpointCreate) (n m : ℕ) (next : Option String)
    (row : PersistentWorkflow)
    → IsResumed cid args next row (resumed_row next m (checkpointed_row cid args n row))
unfolding resumed_row checkpointed_row
resumed_row-IsResumed cid args n m next row = record {
  state = refl;
  active = refl;
  completed = refl;
  pending = refl;
  decisions = refl;
  deviations = refl;
  repairs = refl;
  tests = refl;
  approvals = refl;
  history = refl;
  backlog = refl;
}

new_validation-IsDecided :
    (wid cid : String) (checks : List JsonDict) (next notes : Option String) (m : ℕ)
    → IsDecided cid checks (new_validation wid cid checks next notes m)
unfolding new_validation
new_validation-IsDecided wid cid checks next notes m = record {
  checkpoint = refl;
  safe = (resume_result_decides checks).0;
  blocked = (resume_result_decides checks).1;
}

-- After `record_checkpoint` has returned a checkpoint's id, `validate_resume` of the same workflow
-- with that id returns a validation of that checkpoint, which is safe exactly when every check has
-- passed and blocked exactly when a check that has not passed is blocking. The workflow then waits in
-- RESUME_VALIDATION for the given task, with the completed and pending tasks, the decisions and
-- deviations, the repair counters, the test results and the approvals that the checkpoint recorded, the
-- checkpoint last in its history, and the backlog that it had.
pub checkpoint-resume :
    (wid : String) (args : CheckpointCreate) (a b : Actor) (n m : ℕ) (s t : Session) (cid : String)
    (row : PersistentWorkflow) (checks : List JsonDict) (next notes : Option String)
    → get_row wid s ≡ ok row
    → record_checkpoint wid args a n s ≡ (ok cid, t)
    → (validation : ResumeValidation) × (now : PersistentWorkflow) × ((validate_resume wid cid
          checks next notes b m t).0
        ≡ ok validation)
      × (lookup wid (validate_resume wid cid checks next notes b m t).1.workflows ≡ some now)
      × IsDecided cid checks validation
      × IsResumed cid args next row now
checkpoint-resume wid args a b n m s t cid row checks next notes h e = (
  new_validation wid cid checks next notes m,
  resumed_row next m (checkpointed_row cid args n row),
  (validated wid args a b n m s t cid row checks next notes h e).0,
  (validated wid args a b n m s t cid row checks next notes h e).1,
  new_validation-IsDecided wid cid checks next notes m,
  resumed_row-IsResumed cid args n m next row,
)

guard-foreign :
    (wid v : String) (args : CheckpointCreate) (a : Actor) (n : ℕ) (s : Session) (cid : String)
    (row other : PersistentWorkflow)
    → wid ≢ v
    → get_row v (write_checkpoint cid wid row args a n s) ≡ ok other
    → resume_guard v cid (write_checkpoint cid wid row args a n s) ≡ err (unknown_checkpoint cid)
unfolding resume_guard new_checkpoint
guard-foreign wid v args a n s cid row other ne h = elim (Bool-cases (wid == v)) [
  | inl q ↦ absurd (ne ((eq_iff wid v).0 q))
  | inr q ↦ rw h (rw (checkpoint_row wid args a n s cid row) (rw q refl))
]

-- A checkpoint that was recorded for one workflow does not resume another one: `validate_resume` of
-- the other workflow raises, and leaves the session as it was.
pub checkpoint-foreign :
    (wid v : String) (args : CheckpointCreate) (a b : Actor) (n m : ℕ) (s t : Session)
    (cid : String) (row other : PersistentWorkflow) (checks : List JsonDict)
    (next notes : Option String)
    → get_row wid s ≡ ok row
    → record_checkpoint wid args a n s ≡ (ok cid, t)
    → wid ≢ v
    → get_row v t ≡ ok other
    → validate_resume v cid checks next notes b m t ≡ (err (unknown_checkpoint cid), t)
unfolding validate_resume
checkpoint-foreign wid v args a b n m s t cid row other checks next notes h e ne k =
    let written = recorded wid args a n s t cid row h e in
    let refused : resume_guard v cid t ≡ err (unknown_checkpoint cid) =
      rw written (guard-foreign wid v args a n s cid row other ne (rw written at k)) in
    rw refused refl
