-- ===== src/NightShift/Promotion/Authority.antt =====
-- night_shift/supervisor.py: on what a promotion and its commit rest.
use lucius_engineering.Prelude.{
  String, ◌≡◌, ◌≢◌, ◌≤◌, true, some, map, eq_iff, any, mem_iff, In, lookup, ok, inl, inr, arith,
  Option-cases, Result-cases,
}
use lucius_engineering.Domain.Enums.{action_value}
use lucius_engineering.Persistence.Orm.{
  Task, TaskContract, PersistentWorkflow, EngineeringPlan, Session,
}
use lucius_engineering.Pilots.Queue.Selection.{upper_is}
use lucius_engineering.Pilots.Workflows.{workflow_state_value}
use lucius_engineering.NightShift.Schemas.{NightShiftConfig}
use lucius_engineering.NightShift.Services.{Services, Shift}
use lucius_engineering.NightShift.Containment.{present, present_some}
use lucius_engineering.NightShift.Promotion.{
  PromotionContext, PromotionRows, promotion_rows, promotion_context, in_project, belong_together,
  complexity_value, id_or_empty, create_commit_authorized, authority_rank,
}

-- The contract that the plan names is one of the task `id` and of the plan's version, and allows
-- commits, at an authority of L2 for both.
abbrev pub MayCommit : String → Task → EngineeringPlan → Session → Type 0
MayCommit id task plan s =
    (contract : TaskContract) × (lookup plan.task_contract_id s.contracts ≡ some contract)
    × (contract.task_id ≡ id)
    × (contract.version ≡ plan.task_contract_version)
    × In "CREATE_COMMIT" (map action_value contract.allowed_actions)
    × (2 ≤ authority_rank task.authority_level)
    × (2 ≤ authority_rank contract.authority_level)

create_commit_authorized-MayCommit :
    (id : String) (task : Task) (plan : EngineeringPlan) (s : Session)
    → create_commit_authorized id task plan s ≡ true
    → MayCommit id task plan s
unfolding create_commit_authorized
create_commit_authorized-MayCommit id task plan s e =
    elim (Option-cases (lookup plan.task_contract_id s.contracts)) [
      | inl q ↦ absurd (ground (arith, rw q at e))
      | inr (contract, q) ↦
          let e' = rw q at e in
          (
            contract,
            q,
            (eq_iff _ _).0 (ground arith),
            ground arith,
            (mem_iff _ _).0 (ground arith),
            ground arith,
            ground arith,
          )
    ]

module _ {W : Type 0} (services : Services W) where
  abbrev pub IsPromotable : String → NightShiftConfig → Session → PromotionContext → Type 0
  IsPromotable wid config s context =
      (wf : PersistentWorkflow) × (rows : PromotionRows) × (lookup wid s.workflows ≡ some wf)
      × (workflow_state_value wf.workflow_state ≡ "COMPLETED_PENDING_INTEGRATION")
      × (promotion_rows wf s ≡ ok rows)
      × (in_project wf rows ≡ true)
      × (belong_together wf rows ≡ true)
      × (rows.freeze.commit_sha ≡ some context.expected_baseline_commit)
      × In (complexity_value rows.task.complexity) config.allowed_task_complexities
      × (any (upper_is rows.plan.risk_level) config.allowed_risk_levels ≡ true)
      × (wf.worktree_path ≢ "")
      × (context.create_commit_authorized ≡ true
          → MayCommit (id_or_empty wf.task_id) rows.task rows.plan s)

  pub promotion_context-IsPromotable :
      (wid : String) (config : NightShiftConfig) (shift : Shift W) (context : PromotionContext)
      → promotion_context services wid config shift ≡ ok context
      → IsPromotable wid config shift.session context
  unfolding promotion_context
  promotion_context-IsPromotable wid config shift context e =
      elim (Option-cases (lookup wid shift.session.workflows)) [
        | inl q ↦ absurd (ground (arith, rw q at e))
        | inr (wf, q) ↦ elim (Result-cases (promotion_rows wf shift.session)) [
          | inr (reason, p) ↦ absurd (ground (arith, rw p at (rw q at e)))
          | inl (rows, p) ↦ elim (Option-cases (present rows.freeze.commit_sha)) [
            | inl b ↦ absurd (ground (arith, rw b at (rw p at (rw q at e))))
            | inr (baseline, b) ↦
                let e' = rw b at (rw p at (rw q at e)) in
                let sha = present_some rows.freeze.commit_sha b in
                (
                  wf,
                  rows,
                  q,
                  (eq_iff _ _).0 (ground arith),
                  p,
                  ground arith,
                  ground arith,
                  ground (arith, sha),
                  (mem_iff _ _).0 (ground arith),
                  ground arith,
                  λ missing. absurd (ground (arith, (eq_iff wf.worktree_path "").1 missing)),
                  λ may.
                      create_commit_authorized-MayCommit (id_or_empty wf.task_id) rows.task
                        rows.plan shift.session (ground arith),
                )
          ]
        ]
      ]
