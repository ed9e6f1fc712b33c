-- ===== src/Tasks/Calls/Gate.antt =====
-- What `complete_task` demands before a task is COMPLETE.
use lucius_engineering.Prelude.{
  ℕ, String, ◌≡◌, refl, sym, subst, Bool, true, false, not, ◌||◌, Option, some, List, [], ◌∷◌,
  arith, lookup, lookup-insert_self, ok, Result-cases, Bool-cases, inl, inr, mem, keep, distinct-In,
  All, In, here, there, In-keep, str_leb, if◌then◌else◌,
}
use lucius_engineering.Prelude.Sorting.{sorted-In}
use lucius_engineering.Domain.Enums.{Actor, TaskStatus}
use lucius_engineering.Domain.Blockers.{ContractValidationResult}
use lucius_engineering.Persistence.Orm.{Task, TaskContract, DocumentationCompletion, Session}
use lucius_engineering.Tasks.Contracts.{same_status, active_contract}
use lucius_engineering.Tasks.Service.{audit_task, put_task, transition_guard, with_status}
use lucius_engineering.Tasks.Calls.Lifecycle.{guard-found}
use lucius_engineering.Tasks.Service.Progress.{
  completion_of, missing_targets, has_evidence, targets_of, DocumentationGate, satisfied,
  no_evidence, incomplete, contract_gate, gate_of_missing, documentation_gate, gate_result,
  write_complete, complete_task, write_status,
}

-- The documentation that the contract asks for is there: the task waits for it, there is a
-- completion with evidence, and the completion names every target.
pub record IsDocumented (task : Task) (contract : TaskContract)
    (completion : Option (String × DocumentationCompletion)) : Type 0 where
  pub waiting : same_status task.status TaskStatus.documentation_pending ≡ true
  pub evidence : has_evidence completion ≡ true
  pub covered :
      All (λ target. mem target (targets_of completion) ≡ true) contract.documentation_targets

gate_of_missing-nil : (targets : List String) → gate_of_missing targets ≡ satisfied → targets ≡ []
gate_of_missing-nil [] h = refl
gate_of_missing-nil (t ∷ ts) h = cc

not_In_nil : {k : String} → In k [] → ⊥
not_In_nil m = elim m [ ]

none_missing :
    (targets completed : List String) {target : String}
    → missing_targets targets completed ≡ []
    → In target targets
    → mem target completed ≡ true
none_missing targets completed {target} h m = elim (Bool-cases (mem target completed)) [
  | inl q ↦ q
  | inr q ↦
      let kept : In target (keep (λ t. not (mem t completed)) targets) =
        In-keep (λ t. not (mem t completed)) target targets m (rw q refl) in
      absurd (not_In_nil (subst (λ ts. In target ts) h (sorted-In str_leb _ (distinct-In _ kept))))
]

All-of_In : (P : String → Type 0) (xs : List String) → ((x : String) → In x xs → P x) → All P xs
All-of_In P [] f = tt
All-of_In P (x ∷ xs) f = (f x here, All-of_In P xs (λ y m. f y (there m)))

gate_passed :
    (required waiting evidence : Bool) (g : DocumentationGate)
    → (if not required then satisfied else if not waiting || not evidence then no_evidence else g)
      ≡ satisfied
    → required ≡ true
    → (waiting ≡ true) × (evidence ≡ true) × (g ≡ satisfied)
gate_passed false waiting evidence g h r = absurd (ground arith)
gate_passed true true true g h r = (refl, refl, h)
gate_passed true true false g h r = absurd (ground arith)
gate_passed true false evidence g h r = absurd (ground arith)

gate-IsDocumented :
    (contract : String × TaskContract) (task : Task)
    (completion : Option (String × DocumentationCompletion))
    → contract_gate (some contract) task completion ≡ satisfied
    → contract.1.documentation_required ≡ true
    → IsDocumented task contract.1 completion
gate-IsDocumented contract task completion h required =
    let (waiting, evidence, g) =
      gate_passed contract.1.documentation_required
        (same_status task.status TaskStatus.documentation_pending) (has_evidence completion) _ h
        required in
    let none_left =
      gate_of_missing-nil (missing_targets contract.1.documentation_targets (targets_of completion))
        g in
    record {
      waiting = waiting;
      evidence = evidence;
      covered = All-of_In _ contract.1.documentation_targets (λ target m.
          none_missing contract.1.documentation_targets (targets_of completion) none_left m);
    }

valid-satisfied : (gate : DocumentationGate) → (gate_result gate).valid ≡ true → gate ≡ satisfied
unfolding gate_result
valid-satisfied satisfied h = refl
valid-satisfied no_evidence h = absurd (ground arith)
valid-satisfied (incomplete targets) h = absurd (ground arith)

write-complete :
    (id : String) (task : Task) (actor : Actor) (now : ℕ) (s : Session)
    → lookup id (write_complete id task satisfied actor now s).tasks
      ≡ some (with_status TaskStatus.complete now task)
unfolding write_complete write_status audit_task put_task
write-complete id task actor now s = lookup-insert_self id _ s.tasks

-- A task whose active contract requires documentation becomes COMPLETE only when it was waiting for
-- documentation, a completion with evidence is stored, and the completion names every target of the
-- contract: so it is whenever `complete_task` returns a valid result.
pub complete_task-IsDocumented :
    (id : String) (actor : Actor) (now : ℕ) (s : Session) {t : Session}
    {result : ContractValidationResult}
    → complete_task id actor now s ≡ (ok result, t)
    → result.valid ≡ true
    → (contract : String × TaskContract) → active_contract id s.contracts ≡ some contract
    → contract.1.documentation_required ≡ true
    → (task : Task) × (lookup id s.tasks ≡ some task)
      × (lookup id t.tasks ≡ some (with_status TaskStatus.complete now task))
      × IsDocumented task contract.1 (completion_of id s.completions)
unfolding complete_task documentation_gate
complete_task-IsDocumented id actor now s {t} {result} h valid contract active required =
    elim (Result-cases (
      transition_guard id
        (TaskStatus.implementation_complete ∷ TaskStatus.documentation_pending ∷ []) s)) [
          | inl (task, e) ↦
              let gate = documentation_gate id task s in
              let returned : gate_result gate ≡ result = ground (arith, e, h) in
              let passed : gate ≡ satisfied = valid-satisfied gate (rw returned valid) in
              let left : write_complete id task gate actor now s ≡ t = ground (arith, e, h) in
              let (found, admitted) = guard-found id _ s e in
              let stored : lookup id t.tasks ≡ some (with_status TaskStatus.complete now task) =
                rw (sym left) (rw passed (write-complete id task actor now s)) in
              let open_gate : contract_gate (some contract) task (completion_of id s.completions)
                  ≡ satisfied =
                subst (λ c. contract_gate c task (completion_of id s.completions) ≡ satisfied)
                  active passed in
              (task, found, stored, gate-IsDocumented contract task _ open_gate required)
          | inr (x, e) ↦ absurd (ground (arith, e, h))
        ]
