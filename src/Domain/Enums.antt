-- ===== src/Domain/Enums.antt =====
-- domain/enums.py: the enumerations of tasks, queue items and workflows. Constructors are spelled as
-- the members are; two enumerations that share a member's name keep it, behind the type's name.
use lucius_engineering.Prelude.{String, Option, none, some, ◌==◌, if◌then◌else◌, ◌≡◌, refl}

pub data ProjectStatus : Type 0 where
  active paused archived : ProjectStatus

pub data AuthorityLevel : Type 0 where
  l0 l1 l2 l3 : AuthorityLevel

pub data TaskComplexity : Type 0 where
  t0 t1 t2 t3 t4 : TaskComplexity

pub data TaskPriority : Type 0 where
  low normal high critical : TaskPriority

pub data TaskStatus : Type 0 where
  draft ready running blocked implementation_complete documentation_pending complete failed
        cancelled :
      TaskStatus

pub data AcceptanceCriterionStatus : Type 0 where
  pending pass fail not_evaluated : AcceptanceCriterionStatus

pub data AllowedAction : Type 0 where
  read_repository read_documentation run_tests create_temp_files write_source write_tests
        write_documentation create_migration create_commit :
      AllowedAction

pub data BlockerCode : Type 0 where
  missing_repository invalid_contract dependency_blocked authority_insufficient workspace_invalid
        repository_state_unsafe decision_required documentation_required project_inactive :
      BlockerCode

pub data TaskRunStatus : Type 0 where
  running succeeded failed blocked cancelled : TaskRunStatus

pub data Actor : Type 0 where
  human chatgpt codex lucius external_engineering_agent system : Actor

pub data Environment : Type 0 where
  sandbox development staging production : Environment

pub data PersistentWorkflowState : Type 0 where
  objective_accepted planning plan_ready implementing verifying checkpoint_review_required paused
        resume_validation blocked approved_to_continue completed_pending_integration closed :
      PersistentWorkflowState

pub data ResumeValidationResult : Type 0 where
  safe_to_resume checkpoint_review_required blocked : ResumeValidationResult

pub data QueueWorkItemState : Type 0 where
  ready running waiting_human waiting_external waiting_resource waiting_resource_short
        waiting_resource_long waiting_dependency waiting_schedule blocked_dependency
        blocked_authority blocked_decision retry_later ready_to_resume completed failed :
      QueueWorkItemState

-- the value of a member
abbrev pub item_state_value : QueueWorkItemState → String
item_state_value QueueWorkItemState.ready = "READY"
item_state_value QueueWorkItemState.running = "RUNNING"
item_state_value QueueWorkItemState.waiting_human = "WAITING_HUMAN"
item_state_value QueueWorkItemState.waiting_external = "WAITING_EXTERNAL"
item_state_value QueueWorkItemState.waiting_resource = "WAITING_RESOURCE"
item_state_value QueueWorkItemState.waiting_resource_short = "WAITING_RESOURCE_SHORT"
item_state_value QueueWorkItemState.waiting_resource_long = "WAITING_RESOURCE_LONG"
item_state_value QueueWorkItemState.waiting_dependency = "WAITING_DEPENDENCY"
item_state_value QueueWorkItemState.waiting_schedule = "WAITING_SCHEDULE"
item_state_value QueueWorkItemState.blocked_dependency = "BLOCKED_DEPENDENCY"
item_state_value QueueWorkItemState.blocked_authority = "BLOCKED_AUTHORITY"
item_state_value QueueWorkItemState.blocked_decision = "BLOCKED_DECISION"
item_state_value QueueWorkItemState.retry_later = "RETRY_LATER"
item_state_value QueueWorkItemState.ready_to_resume = "READY_TO_RESUME"
item_state_value QueueWorkItemState.completed = "COMPLETED"
item_state_value QueueWorkItemState.failed = "FAILED"

-- `QueueWorkItemState(text)`; `none` is the `ValueError`
unfoldable pub parse_item_state : String → Option QueueWorkItemState
parse_item_state text =
    if text == "READY"
    then some QueueWorkItemState.ready
    else if text == "RUNNING"
    then some QueueWorkItemState.running
    else if text == "WAITING_HUMAN"
    then some QueueWorkItemState.waiting_human
    else if text == "WAITING_EXTERNAL"
    then some QueueWorkItemState.waiting_external
    else if text == "WAITING_RESOURCE"
    then some QueueWorkItemState.waiting_resource
    else if text == "WAITING_RESOURCE_SHORT"
    then some QueueWorkItemState.waiting_resource_short
    else if text == "WAITING_RESOURCE_LONG"
    then some QueueWorkItemState.waiting_resource_long
    else if text == "WAITING_DEPENDENCY"
    then some QueueWorkItemState.waiting_dependency
    else if text == "WAITING_SCHEDULE"
    then some QueueWorkItemState.waiting_schedule
    else if text == "BLOCKED_DEPENDENCY"
    then some QueueWorkItemState.blocked_dependency
    else if text == "BLOCKED_AUTHORITY"
    then some QueueWorkItemState.blocked_authority
    else if text == "BLOCKED_DECISION"
    then some QueueWorkItemState.blocked_decision
    else if text == "RETRY_LATER"
    then some QueueWorkItemState.retry_later
    else if text == "READY_TO_RESUME"
    then some QueueWorkItemState.ready_to_resume
    else if text == "COMPLETED"
    then some QueueWorkItemState.completed
    else if text == "FAILED"
    then some QueueWorkItemState.failed
    else none

-- Parsing reads every value back.
pub parse-value_item_state :
    (x : QueueWorkItemState) → parse_item_state (item_state_value x) ≡ some x
unfolding parse_item_state
parse-value_item_state QueueWorkItemState.ready = refl
parse-value_item_state QueueWorkItemState.running = refl
parse-value_item_state QueueWorkItemState.waiting_human = refl
parse-value_item_state QueueWorkItemState.waiting_external = refl
parse-value_item_state QueueWorkItemState.waiting_resource = refl
parse-value_item_state QueueWorkItemState.waiting_resource_short = refl
parse-value_item_state QueueWorkItemState.waiting_resource_long = refl
parse-value_item_state QueueWorkItemState.waiting_dependency = refl
parse-value_item_state QueueWorkItemState.waiting_schedule = refl
parse-value_item_state QueueWorkItemState.blocked_dependency = refl
parse-value_item_state QueueWorkItemState.blocked_authority = refl
parse-value_item_state QueueWorkItemState.blocked_decision = refl
parse-value_item_state QueueWorkItemState.retry_later = refl
parse-value_item_state QueueWorkItemState.ready_to_resume = refl
parse-value_item_state QueueWorkItemState.completed = refl
parse-value_item_state QueueWorkItemState.failed = refl

-- the value of a member
abbrev pub action_value : AllowedAction → String
action_value AllowedAction.read_repository = "READ_REPOSITORY"
action_value AllowedAction.read_documentation = "READ_DOCUMENTATION"
action_value AllowedAction.run_tests = "RUN_TESTS"
action_value AllowedAction.create_temp_files = "CREATE_TEMP_FILES"
action_value AllowedAction.write_source = "WRITE_SOURCE"
action_value AllowedAction.write_tests = "WRITE_TESTS"
action_value AllowedAction.write_documentation = "WRITE_DOCUMENTATION"
action_value AllowedAction.create_migration = "CREATE_MIGRATION"
action_value AllowedAction.create_commit = "CREATE_COMMIT"

-- `AllowedAction(text)`; `none` is the `ValueError`
unfoldable pub parse_action : String → Option AllowedAction
parse_action text =
    if text == "READ_REPOSITORY"
    then some AllowedAction.read_repository
    else if text == "READ_DOCUMENTATION"
    then some AllowedAction.read_documentation
    else if text == "RUN_TESTS"
    then some AllowedAction.run_tests
    else if text == "CREATE_TEMP_FILES"
    then some AllowedAction.create_temp_files
    else if text == "WRITE_SOURCE"
    then some AllowedAction.write_source
    else if text == "WRITE_TESTS"
    then some AllowedAction.write_tests
    else if text == "WRITE_DOCUMENTATION"
    then some AllowedAction.write_documentation
    else if text == "CREATE_MIGRATION"
    then some AllowedAction.create_migration
    else if text == "CREATE_COMMIT"
    then some AllowedAction.create_commit
    else none

-- Parsing reads every value back.
pub parse-value_action : (x : AllowedAction) → parse_action (action_value x) ≡ some x
unfolding parse_action
parse-value_action AllowedAction.read_repository = refl
parse-value_action AllowedAction.read_documentation = refl
parse-value_action AllowedAction.run_tests = refl
parse-value_action AllowedAction.create_temp_files = refl
parse-value_action AllowedAction.write_source = refl
parse-value_action AllowedAction.write_tests = refl
parse-value_action AllowedAction.write_documentation = refl
parse-value_action AllowedAction.create_migration = refl
parse-value_action AllowedAction.create_commit = refl

-- the value of a member
abbrev pub criterion_value : AcceptanceCriterionStatus → String
criterion_value AcceptanceCriterionStatus.pending = "PENDING"
criterion_value AcceptanceCriterionStatus.pass = "PASS"
criterion_value AcceptanceCriterionStatus.fail = "FAIL"
criterion_value AcceptanceCriterionStatus.not_evaluated = "NOT_EVALUATED"

-- `AcceptanceCriterionStatus(text)`; `none` is the `ValueError`
unfoldable pub parse_criterion : String → Option AcceptanceCriterionStatus
parse_criterion text =
    if text == "PENDING"
    then some AcceptanceCriterionStatus.pending
    else if text == "PASS"
    then some AcceptanceCriterionStatus.pass
    else if text == "FAIL"
    then some AcceptanceCriterionStatus.fail
    else if text == "NOT_EVALUATED"
    then some AcceptanceCriterionStatus.not_evaluated
    else none

-- Parsing reads every value back.
pub parse-value_criterion :
    (x : AcceptanceCriterionStatus) → parse_criterion (criterion_value x) ≡ some x
unfolding parse_criterion
parse-value_criterion AcceptanceCriterionStatus.pending = refl
parse-value_criterion AcceptanceCriterionStatus.pass = refl
parse-value_criterion AcceptanceCriterionStatus.fail = refl
parse-value_criterion AcceptanceCriterionStatus.not_evaluated = refl
