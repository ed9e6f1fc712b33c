-- ===== src/Tasks/Policy/Exact.antt =====
-- When the authority policy has no objection.
use lucius_engineering.Prelude.{
  ◌≤◌, ◌≡◌, ◌↔◌, refl, Bool, true, false, List, [], ◌∷◌, ◌++◌, arith, All, if◌then◌else◌,
}
use lucius_engineering.Domain.Enums.{AuthorityLevel, AllowedAction, Environment}
use lucius_engineering.Tasks.Policy.{
  authority_rank, action_authority, environment_authority, action_blockers, validate_authority,
  insufficient, authority_exceeds,
}

-- The contract's authority is within the task's, and covers every action and the environment.
pub record IsAuthorized (task contract : AuthorityLevel) (actions : List AllowedAction)
    (environment : Environment) : Type 0 where
  pub within_task : authority_rank contract ≤ authority_rank task
  pub covers_actions :
      All (λ a. authority_rank (action_authority a) ≤ authority_rank contract) actions
  pub covers_environment :
      authority_rank (environment_authority environment) ≤ authority_rank contract

clear :
    (task contract required : AuthorityLevel)
    → insufficient required contract task ≡ false
    → authority_rank required ≤ authority_rank contract
clear task contract required h = ground arith

clear_within :
    (task contract required : AuthorityLevel)
    → authority_rank contract ≤ authority_rank task
    → authority_rank required ≤ authority_rank contract
    → insufficient required contract task ≡ false
clear_within task contract required h k = ground arith

covered :
    (task contract : AuthorityLevel) (actions : List AllowedAction)
    → action_blockers task contract actions ≡ []
    → All (λ a. authority_rank (action_authority a) ≤ authority_rank contract) actions
unfolding action_blockers
covered task contract [] h = tt
covered task contract (a ∷ actions) h =
    let first : authority_rank (action_authority a) ≤ authority_rank contract =
      clear task contract (action_authority a) (ground arith) in
    (first, covered task contract actions (ground arith))

uncovered :
    (task contract : AuthorityLevel) (actions : List AllowedAction)
    → authority_rank contract ≤ authority_rank task
    → All (λ a. authority_rank (action_authority a) ≤ authority_rank contract) actions
    → action_blockers task contract actions ≡ []
unfolding action_blockers
uncovered task contract [] w h = refl
uncovered task contract (a ∷ actions) w h =
    rw (clear_within task contract (action_authority a) w h.0)
      (uncovered task contract actions w h.1)

append-nil_inv {ℓ} : {A : Type ℓ} (xs ys : List A) → xs ++ ys ≡ [] → (xs ≡ []) × (ys ≡ [])
append-nil_inv [] ys h = (refl, h)
append-nil_inv (x ∷ xs) ys h = cc

unflagged {ℓ} : {A : Type ℓ} (b : Bool) (a : A) → (if b then a ∷ [] else []) ≡ [] → b ≡ false
unflagged true a h = cc
unflagged false a h = refl

within :
    (contract task : AuthorityLevel)
    → authority_exceeds contract task ≡ false
    → authority_rank contract ≤ authority_rank task
within contract task h = ground arith

not_exceeding :
    (contract task : AuthorityLevel)
    → authority_rank contract ≤ authority_rank task
    → authority_exceeds contract task ≡ false
not_exceeding contract task h = ground arith

unobjected :
    (task contract : AuthorityLevel) (actions : List AllowedAction) (environment : Environment)
    → validate_authority task contract actions environment ≡ []
    → IsAuthorized task contract actions environment
unfolding validate_authority
unobjected task contract actions environment h =
    let (first, rest) = append-nil_inv _ _ h in
    let (second, third) = append-nil_inv _ _ rest in
    record {
      within_task = within contract task (unflagged _ _ first);
      covers_actions = covered task contract actions second;
      covers_environment =
          clear task contract (environment_authority environment) (unflagged _ _ third);
    }

objected :
    (task contract : AuthorityLevel) (actions : List AllowedAction) (environment : Environment)
    → IsAuthorized task contract actions environment
    → validate_authority task contract actions environment ≡ []
unfolding validate_authority
objected task contract actions environment k = rw (not_exceeding contract task k.within_task) (
    rw (uncovered task contract actions k.within_task k.covers_actions) (
      rw
        (clear_within task contract (environment_authority environment) k.within_task
          k.covers_environment)
        refl))

-- `validate_authority` raises no blocker exactly when the contract's authority is at most the
-- task's, and at least what each action and the environment require.
pub validate_authority-IsAuthorized :
    (task contract : AuthorityLevel) (actions : List AllowedAction) (environment : Environment)
    → (validate_authority task contract actions environment ≡ [])
      ↔ IsAuthorized task contract actions environment
validate_authority-IsAuthorized task contract actions environment =
    (unobjected task contract actions environment, objected task contract actions environment)
