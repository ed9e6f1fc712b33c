-- ===== src/Pilots/Queue/Errors.antt =====
-- pilots/queue.py: why an item or a workflow is excluded, and what the methods raise. Each
-- `QueueStateError` is told apart by the message that its `raise` has.
use lucius_engineering.Prelude.{String}
use lucius_engineering.Domain.Enums.{PersistentWorkflowState, QueueWorkItemState}

-- The text of an exclusion, by its parts.
pub data ExclusionReason : Type 0 where
  missing_state : ExclusionReason
  null_state : ExclusionReason
  unknown_state : String → ExclusionReason
  unknown_priority : String → ExclusionReason
  lifecycle_ineligible : PersistentWorkflowState → ExclusionReason

pub data QueueError : Type 0 where
  unknown_workflow : String → QueueError
  unknown_item : String → QueueError
  duplicate_item_id : QueueError
  duplicate_running : QueueError
  duplicate_global_running : QueueError
  invalid_state : String → QueueError
  workflow_not_executable : ExclusionReason → QueueError
  item_not_executable : ExclusionReason → QueueError
  selected_missing : QueueError
  selected_not_schedulable : QueueError
  selected_not_eligible : QueueError
  selected_dependencies_incomplete : QueueError
  blocking_state_required : QueueWorkItemState → QueueError
  not_running : QueueWorkItemState → QueueError
  not_dispatchable : QueueWorkItemState → QueueError
  stale_dispatch_state : QueueError
  stale_dispatch_version : QueueError
  stale_checkpoint : QueueError
  stale_item_version : QueueError
  not_blocked : QueueWorkItemState → QueueError
  cannot_complete : QueueWorkItemState → QueueError
  invalid_timeout : QueueError
  forbidden_limit_keys : QueueError
  invalid_verification_flag : QueueError
  invalid_context_paths : QueueError
  outside_scope : QueueError
  stale_workflow : QueueError
  stale_selection : QueueError
  stale_running : QueueError
  stale_ordering : QueueError
  identity_mismatch : QueueError
  stale_item : QueueError
  global_not_schedulable : QueueError
  global_not_eligible : QueueError
  no_first_item : QueueError
