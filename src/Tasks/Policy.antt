-- ===== src/Tasks/Policy.antt =====
-- tasks/policy.py: the authority that actions and environments require.
pub mod Exact
use lucius_engineering.Prelude.{ℕ, Bool, List, [], ◌∷◌, ◌++◌, ◌||◌, ltb, if◌then◌else◌}
use lucius_engineering.Domain.Enums.{AuthorityLevel, AllowedAction, BlockerCode, Environment}
use lucius_engineering.Domain.Blockers.{
  StructuredBlocker, contract_exceeds_task, action_requires, environment_requires,
}

abbrev pub authority_rank : AuthorityLevel → ℕ
authority_rank AuthorityLevel.l0 = 0
authority_rank AuthorityLevel.l1 = 1
authority_rank AuthorityLevel.l2 = 2
authority_rank AuthorityLevel.l3 = 3

unfoldable pub action_authority : AllowedAction → AuthorityLevel
action_authority AllowedAction.read_repository = AuthorityLevel.l0
action_authority AllowedAction.read_documentation = AuthorityLevel.l0
action_authority AllowedAction.run_tests = AuthorityLevel.l0
action_authority AllowedAction.create_temp_files = AuthorityLevel.l0
action_authority AllowedAction.write_source = AuthorityLevel.l1
action_authority AllowedAction.write_tests = AuthorityLevel.l1
action_authority AllowedAction.write_documentation = AuthorityLevel.l1
action_authority AllowedAction.create_migration = AuthorityLevel.l1
action_authority AllowedAction.create_commit = AuthorityLevel.l2

unfoldable pub environment_authority : Environment → AuthorityLevel
environment_authority Environment.sandbox = AuthorityLevel.l0
environment_authority Environment.development = AuthorityLevel.l0
environment_authority Environment.staging = AuthorityLevel.l2
environment_authority Environment.production = AuthorityLevel.l3

abbrev pub authority_exceeds : AuthorityLevel → AuthorityLevel → Bool
authority_exceeds candidate maximum = ltb (authority_rank maximum) (authority_rank candidate)

abbrev pub insufficient : AuthorityLevel → AuthorityLevel → AuthorityLevel → Bool
insufficient required contract task =
    authority_exceeds required contract || authority_exceeds required task

-- the loop over the actions
unfoldable pub action_blockers :
    AuthorityLevel → AuthorityLevel → List AllowedAction → List StructuredBlocker
action_blockers task contract [] = []
action_blockers task contract (action ∷ actions) =
    let rest = action_blockers task contract actions in
    if insufficient (action_authority action) contract task
    then record {
      code = BlockerCode.authority_insufficient;
      message = action_requires action (action_authority action);
    }
      ∷ rest
    else rest

unfoldable pub validate_authority :
    AuthorityLevel → AuthorityLevel → List AllowedAction → Environment → List StructuredBlocker
validate_authority task contract actions environment =
    (if authority_exceeds contract task
      then record {
        code = BlockerCode.authority_insufficient;
        message = contract_exceeds_task task contract;
      }
        ∷ []
      else [])
    ++ (action_blockers task contract actions
        ++ (if insufficient (environment_authority environment) contract task
            then record {
              code = BlockerCode.authority_insufficient;
              message = environment_requires environment (environment_authority environment);
            }
              ∷ []
            else []))
