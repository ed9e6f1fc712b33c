-- ===== src/Pilots/Queue/Items.antt =====
-- pilots/queue.py: how the dictionaries of a backlog are read as queue items.
use lucius_engineering.Prelude.{
  ℕ, String, Bool, true, false, Option, none, some, List, [], ◌∷◌, if◌then◌else◌, mem, Result, ok,
  err,
}
use lucius_engineering.Domain.Enums.{
  PersistentWorkflowState, QueueWorkItemState, item_state_value, parse_item_state,
}
use lucius_engineering.Persistence.Orm.{
  RawField, missing, none_value, text, WorkItem, PersistentWorkflow,
}
use lucius_engineering.Pilots.Queue.Errors.{ExclusionReason, QueueError, invalid_state}

-- `BLOCKED_STATES`
abbrev pub is_blocked_state : QueueWorkItemState → Bool
is_blocked_state QueueWorkItemState.waiting_human = true
is_blocked_state QueueWorkItemState.waiting_external = true
is_blocked_state QueueWorkItemState.waiting_resource = true
is_blocked_state QueueWorkItemState.waiting_dependency = true
is_blocked_state QueueWorkItemState.waiting_schedule = true
is_blocked_state QueueWorkItemState.blocked_dependency = true
is_blocked_state QueueWorkItemState.blocked_authority = true
is_blocked_state QueueWorkItemState.blocked_decision = true
is_blocked_state QueueWorkItemState.retry_later = true
is_blocked_state _ = false

-- `TERMINAL_STATES`
abbrev pub is_terminal_state : QueueWorkItemState → Bool
is_terminal_state QueueWorkItemState.completed = true
is_terminal_state QueueWorkItemState.failed = true
is_terminal_state _ = false

-- `ELIGIBLE_STATES`
abbrev pub is_eligible_state : QueueWorkItemState → Bool
is_eligible_state QueueWorkItemState.ready = true
is_eligible_state QueueWorkItemState.ready_to_resume = true
is_eligible_state _ = false

abbrev pub is_running_state : QueueWorkItemState → Bool
is_running_state QueueWorkItemState.running = true
is_running_state _ = false

abbrev pub is_ready_state : QueueWorkItemState → Bool
is_ready_state QueueWorkItemState.ready = true
is_ready_state _ = false

abbrev pub is_resumable_state : QueueWorkItemState → Bool
is_resumable_state QueueWorkItemState.ready_to_resume = true
is_resumable_state _ = false

abbrev pub is_completed_state : QueueWorkItemState → Bool
is_completed_state QueueWorkItemState.completed = true
is_completed_state _ = false

abbrev pub is_failed_state : QueueWorkItemState → Bool
is_failed_state QueueWorkItemState.failed = true
is_failed_state _ = false

-- A test of a state that may be absent, as the comparisons with `None` come out.
abbrev pub has_state : (QueueWorkItemState → Bool) → Option QueueWorkItemState → Bool
has_state p none = false
has_state p (some q) = p q

-- `EXECUTION_ELIGIBLE_WORKFLOW_STATES`
abbrev pub is_execution_eligible : PersistentWorkflowState → Bool
is_execution_eligible PersistentWorkflowState.plan_ready = true
is_execution_eligible PersistentWorkflowState.implementing = true
is_execution_eligible PersistentWorkflowState.verifying = true
is_execution_eligible PersistentWorkflowState.checkpoint_review_required = true
is_execution_eligible PersistentWorkflowState.resume_validation = true
is_execution_eligible PersistentWorkflowState.blocked = true
is_execution_eligible PersistentWorkflowState.approved_to_continue = true
is_execution_eligible _ = false

unfoldable pub workflow_execution_exclusion_reason : PersistentWorkflow → Option ExclusionReason
workflow_execution_exclusion_reason wf =
    if is_execution_eligible wf.workflow_state
    then none
    else some (ExclusionReason.lifecycle_ineligible wf.workflow_state)

-- `a or b` of two texts that may be `None`: the empty text counts as absent.
abbrev pub or_else_text : Option String → Option String → Option String
or_else_text none b = b
or_else_text (some String.[]) b = b
or_else_text (some (String.◌∷◌ c s)) b = some (String.◌∷◌ c s)

-- `str(a)`
abbrev pub str_of : Option String → String
str_of none = "None"
str_of (some a) = a

unfoldable pub item_id_of : WorkItem → String
item_id_of item = str_of (or_else_text item.item_id item.task_id)

unfoldable pub logical_id_of : WorkItem → String
logical_id_of item =
    str_of (or_else_text item.logical_task_id (or_else_text item.task_id (some (item_id_of item))))

-- `int(item.get(key, 0))`
abbrev pub int_or_zero : Option ℕ → ℕ
int_or_zero none = 0
int_or_zero (some n) = n

abbrev parsed_or : String → Option QueueWorkItemState → Result QueueError QueueWorkItemState
parsed_or raw none = err (invalid_state raw)
parsed_or raw (some q) = ok q

-- `_state`: a missing state reads as READY, and `None` as the text "None".
unfoldable pub state_of : RawField → Result QueueError QueueWorkItemState
state_of missing = ok QueueWorkItemState.ready
state_of none_value = parsed_or "None" (parse_item_state "None")
state_of (text raw) = parsed_or raw (parse_item_state raw)

-- `_state_if_valid`
unfoldable pub state_if_valid : RawField → Option QueueWorkItemState
unfolding state_of
state_if_valid raw = elim (state_of raw) [ ok q ↦ some q | err e ↦ none ]

pub record ParsedState : Type 0 where
  pub state : Option QueueWorkItemState
  pub state_label : String
  pub raw_state : Option String
  pub exclusion_reason : Option ExclusionReason

abbrev known_state : String → Option QueueWorkItemState → ParsedState
known_state raw none = record {
  state = none;
  state_label = "MALFORMED_UNSCHEDULABLE";
  raw_state = some raw;
  exclusion_reason = some (ExclusionReason.unknown_state raw);
}
known_state raw (some q) = record {
  state = some q;
  state_label = item_state_value q;
  raw_state = some raw;
  exclusion_reason = none;
}

unfoldable pub parse_global_state : RawField → ParsedState
parse_global_state missing = record {
  state = none;
  state_label = "LEGACY_UNSCHEDULABLE";
  raw_state = none;
  exclusion_reason = some ExclusionReason.missing_state;
}
parse_global_state none_value = record {
  state = none;
  state_label = "MALFORMED_UNSCHEDULABLE";
  raw_state = none;
  exclusion_reason = some ExclusionReason.null_state;
}
parse_global_state (text raw) = known_state raw (parse_item_state raw)

-- `VALID_PRIORITIES`
abbrev pub valid_priorities : List String
valid_priorities = "CRITICAL" ∷ "HIGH" ∷ "NORMAL" ∷ "LOW" ∷ []

pub record ParsedPriority : Type 0 where
  pub priority : String
  pub raw_priority : Option String
  pub exclusion_reason : Option ExclusionReason

unfoldable pub parse_global_priority : RawField → ParsedPriority
parse_global_priority missing = record {
  priority = "NORMAL";
  raw_priority = none;
  exclusion_reason = none;
}
parse_global_priority none_value = record {
  priority = "NORMAL";
  raw_priority = none;
  exclusion_reason = none;
}
parse_global_priority (text raw) = record {
  priority = raw;
  raw_priority = some raw;
  exclusion_reason =
      if mem raw valid_priorities then none else some (ExclusionReason.unknown_priority raw);
}
