-- ===== src/Tasks/Calls/Readiness.antt =====
-- What `mark_ready` and `complete_task` decide.
use lucius_engineering.Prelude.{
  ℕ, String, ◌≡◌, refl, sym, ◌⊎◌, inl, inr, Bool, true, false, Option, none, some, List, [], ◌∷◌,
  arith, lookup, lookup-insert_self, ok, Result-cases, is_empty,
}
use lucius_engineering.Domain.Enums.{Actor, TaskStatus}
use lucius_engineering.Domain.Blockers.{StructuredBlocker, ContractValidationResult}
use lucius_engineering.Persistence.Orm.{Task, TaskContract, Session}
use lucius_engineering.Tasks.Contracts.{
  get_task, active_contract, project_blockers, validate_active, validate_contract,
}
use lucius_engineering.Tasks.Service.{
  audit_task, put_task, transition_guard, apply_blocker, make_ready, write_ready, mark_ready,
}

validate_active-valid :
    (id : String) (task : Task) (first : List StructuredBlocker)
    (c : Option (String × TaskContract)) (s : Session)
    → (validate_active id task first c s).valid
      ≡ is_empty (validate_active id task first c s).blockers
validate_active-valid id task [] none s = refl
validate_active-valid id task (b ∷ bs) none s = refl
validate_active-valid id task first (some c) s = refl

validate_contract-valid :
    (id : String) (s : Session) {result : ContractValidationResult}
    → validate_contract id s ≡ ok result
    → result.valid ≡ is_empty result.blockers
unfolding validate_contract
validate_contract-valid id s {result} h = elim (Result-cases (get_task id s)) [
  | inl (task, e) ↦
      let active =
        validate_active-valid id task (project_blockers (lookup task.project_id s.projects))
          (active_contract id s.contracts) s in
      ground (arith, e, active, h)
  | inr (x, e) ↦ ground (arith, e, h)
]

-- The task is ready, with no blocker, or blocked by the first of the blockers that were found.
abbrev pub IsDecided : ContractValidationResult → Task → Type 0
IsDecided result task =
    ((result.valid ≡ true)
      × (task.status ≡ TaskStatus.ready)
      × (task.blocker_code ≡ none)
      × (task.blocker_message ≡ none))
    ⊎ ((first : StructuredBlocker) × (rest : List StructuredBlocker) × (result.valid ≡ false)
        × (result.blockers ≡ first ∷ rest)
        × (task.status ≡ TaskStatus.blocked)
        × (task.blocker_code ≡ some first.code)
        × (task.blocker_message ≡ some first.message))

decided :
    (id : String) (task : Task) (valid : Bool) (blockers : List StructuredBlocker) (actor : Actor)
    (now : ℕ) (s : Session)
    → valid ≡ is_empty blockers
    → (task' : Task) × (lookup id (write_ready id task blockers actor now s).tasks ≡ some task')
      × IsDecided (record { valid = valid; blockers = blockers }) task'
unfolding write_ready audit_task put_task apply_blocker make_ready
decided id task valid [] actor now s h =
    (_, lookup-insert_self id _ s.tasks, inl (h, refl, refl, refl))
decided id task valid (b ∷ bs) actor now s h =
    (_, lookup-insert_self id _ s.tasks, inr (b, bs, h, refl, refl, refl, refl))

-- When `mark_ready` returns, the task is READY without a blocker and the result is valid, or the
-- task is BLOCKED with the code and the message of the first blocker and the result is not valid.
pub mark_ready-IsDecided :
    (id : String) (actor : Actor) (now : ℕ) (s : Session) {t : Session}
    {result : ContractValidationResult}
    → mark_ready id actor now s ≡ (ok result, t)
    → (task : Task) × (lookup id t.tasks ≡ some task) × IsDecided result task
unfolding mark_ready
mark_ready-IsDecided id actor now s {t} {result} h =
    elim (Result-cases
      (transition_guard id (TaskStatus.draft ∷ TaskStatus.blocked ∷ TaskStatus.failed ∷ []) s)) [
        | inl (task, e) ↦ elim (Result-cases (validate_contract id s)) [
          | inl (found, q) ↦
              let same : found ≡ result = ground (arith, e, q, h) in
              let left : write_ready id task found.blockers actor now s ≡ t =
                ground (arith, e, q, h) in
              rw (sym same) (
                rw (sym left) (
                  decided id task found.valid found.blockers actor now s
                    (validate_contract-valid id s q)))
          | inr (x, q) ↦ absurd (ground (arith, e, q, h))
        ]
        | inr (x, e) ↦ absurd (ground (arith, e, h))
      ]
