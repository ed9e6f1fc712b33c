-- ===== src/Tasks/Calls/Raising.antt =====
-- What an error of the task service leaves.
use lucius_engineering.Prelude.{
  ℕ, String, ◌≡◌, refl, some, Table, List, arith, Result-cases, Option-cases, inl, inr,
}
use lucius_engineering.Domain.Enums.{Actor}
use lucius_engineering.Persistence.{IdState}
use lucius_engineering.Persistence.Orm.{TaskContract, AuditEvent, Session}
use lucius_engineering.Tasks.Errors.{TaskError}
use lucius_engineering.Tasks.Contracts.{get_task, active_contract}
use lucius_engineering.Tasks.Criteria.{normalize_acceptance_criteria, coerce_actions}
use lucius_engineering.Tasks.Service.{audit_task}
use lucius_engineering.Tasks.Service.Authoring.{
  ContractUpdate, put_contract, create_or_update_contract,
}
use lucius_engineering.Tasks.Calls.{TaskCall, author, error_of}

-- All but the contracts, the ids and the audit is as it was.
pub record KeepsTasks (s t : Session) : Type 0 where
  pub projects : t.projects ≡ s.projects
  pub tasks : t.tasks ≡ s.tasks
  pub runs : t.runs ≡ s.runs
  pub completions : t.completions ≡ s.completions
  pub workflows : t.workflows ≡ s.workflows

all_kept :
    (s : Session) (ids : IdState) (contracts : Table TaskContract) (audit : List AuditEvent)
    → KeepsTasks s (record s { ids = ids; contracts = contracts; audit = audit })
all_kept s ids contracts audit = record {
  projects = refl;
  tasks = refl;
  runs = refl;
  completions = refl;
  workflows = refl;
}

-- what a change of the contract keeps, and what it keeps too when it raises
authored :
    (id : String) (args : ContractUpdate) (actor : Actor) (now : ℕ) (s : Session)
    → KeepsTasks s (create_or_update_contract id args actor now s).1
      × ((e : TaskError)
          → error_of (create_or_update_contract id args actor now s).0 ≡ some e
          → (create_or_update_contract id args actor now s).1.audit ≡ s.audit)
unfolding create_or_update_contract put_contract audit_task
authored id args actor now s = elim (Result-cases (get_task id s)) [
  | inr (x, e) ↦ rw e (all_kept s _ _ _, λ x' h. refl)
  | inl (owner, e) ↦ elim (Option-cases (active_contract id s.contracts)) [
    | inl q ↦ elim (Result-cases (normalize_acceptance_criteria args.acceptance_criteria)) [
      | inr (x, p) ↦ rw (e, q, p) (all_kept s _ _ _, λ x' h. refl)
      | inl (criteria, p) ↦ elim (Result-cases (coerce_actions args.allowed_actions)) [
        | inr (x, k) ↦ rw (e, q, p, k) (all_kept s _ _ _, λ x' h. refl)
        | inl (actions, k) ↦ rw (e, q, p, k) (all_kept s _ _ _, λ x' h. absurd (ground (arith, h)))
      ]
    ]
    | inr (contract, q) ↦
        elim (Result-cases (normalize_acceptance_criteria args.acceptance_criteria)) [
          | inr (x, p) ↦ rw (e, q, p) (all_kept s _ _ _, λ x' h. refl)
          | inl (criteria, p) ↦ elim (Result-cases (coerce_actions args.allowed_actions)) [
            | inr (x, k) ↦ rw (e, q, p, k) (all_kept s _ _ _, λ x' h. refl)
            | inl (actions, k) ↦
                rw (e, q, p, k) (all_kept s _ _ _, λ x' h. absurd (ground (arith, h)))
          ]
        ]
  ]
]

pub authored-KeepsTasks :
    (id : String) (args : ContractUpdate) (actor : Actor) (now : ℕ) (s : Session)
    → KeepsTasks s (create_or_update_contract id args actor now s).1
authored-KeepsTasks id args actor now s = (authored id args actor now s).0

-- What a call that raises leaves: a change of the contract may leave the contract as far as it came,
-- with its id, and every other call leaves the session as it was.
abbrev pub IsLeft : TaskCall → Session → Session → Type 0
IsLeft (author args) s t = KeepsTasks s t × (t.audit ≡ s.audit)
IsLeft _ s t = t ≡ s
