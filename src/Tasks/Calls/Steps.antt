-- ===== src/Tasks/Calls/Steps.antt =====
-- The steps that a task's status takes, and the step that each guard of the task service admits.
use lucius_engineering.Prelude.{◌≡◌, String, Option, Bool, true, List, [], ◌∷◌, any}
use lucius_engineering.Domain.Enums.{TaskStatus, BlockerCode}
use lucius_engineering.Tasks.Service.{RunDetails}
use lucius_engineering.Tasks.Calls.{
  TaskCall, ready, start, block, fail, implemented, documentation_pending, complete, cancel,
}
use lucius_engineering.Tasks.Contracts.{same_status}

-- The steps that a call moves a status by. No step leaves `complete` or `cancelled`, and neither a
-- record of documentation nor a change of the contract has one.
pub data Step : TaskCall → TaskStatus → TaskStatus → Type 0 where
  draft_to_ready : Step ready TaskStatus.draft TaskStatus.ready
  blocked_to_ready : Step ready TaskStatus.blocked TaskStatus.ready
  failed_to_ready : Step ready TaskStatus.failed TaskStatus.ready
  draft_refused : Step ready TaskStatus.draft TaskStatus.blocked
  blocked_refused : Step ready TaskStatus.blocked TaskStatus.blocked
  failed_refused : Step ready TaskStatus.failed TaskStatus.blocked
  draft_to_blocked :
      {code : BlockerCode} {message : String}
      → Step (block code message) TaskStatus.draft TaskStatus.blocked
  blocked_to_blocked :
      {code : BlockerCode} {message : String}
      → Step (block code message) TaskStatus.blocked TaskStatus.blocked
  ready_to_blocked :
      {code : BlockerCode} {message : String}
      → Step (block code message) TaskStatus.ready TaskStatus.blocked
  running_to_blocked :
      {code : BlockerCode} {message : String}
      → Step (block code message) TaskStatus.running TaskStatus.blocked
  ready_to_running :
      {snapshot : Option String} {details : RunDetails}
      → Step (start snapshot details) TaskStatus.ready TaskStatus.running
  running_to_failed :
      {reason : String} {run : Option String}
      → Step (fail reason run) TaskStatus.running TaskStatus.failed
  blocked_to_failed :
      {reason : String} {run : Option String}
      → Step (fail reason run) TaskStatus.blocked TaskStatus.failed
  ready_to_failed :
      {reason : String} {run : Option String}
      → Step (fail reason run) TaskStatus.ready TaskStatus.failed
  running_to_implementation_complete :
      {run summary : Option String}
      → Step (implemented run summary) TaskStatus.running TaskStatus.implementation_complete
  implementation_complete_to_documentation_pending :
      Step documentation_pending TaskStatus.implementation_complete TaskStatus.documentation_pending
  implementation_complete_to_complete :
      Step complete TaskStatus.implementation_complete TaskStatus.complete
  documentation_pending_to_complete :
      Step complete TaskStatus.documentation_pending TaskStatus.complete
  draft_to_cancelled : Step cancel TaskStatus.draft TaskStatus.cancelled
  ready_to_cancelled : Step cancel TaskStatus.ready TaskStatus.cancelled
  running_to_cancelled : Step cancel TaskStatus.running TaskStatus.cancelled
  blocked_to_cancelled : Step cancel TaskStatus.blocked TaskStatus.cancelled

-- the statuses of a list
abbrev pub admits : List TaskStatus → TaskStatus → Bool
admits allowed p = any (same_status p) allowed

pub ready-Step :
    (p : TaskStatus)
    → admits (TaskStatus.draft ∷ TaskStatus.blocked ∷ TaskStatus.failed ∷ []) p ≡ true
    → Step ready p TaskStatus.ready
unfolding any
ready-Step TaskStatus.draft h = draft_to_ready
ready-Step TaskStatus.ready h = cc
ready-Step TaskStatus.running h = cc
ready-Step TaskStatus.blocked h = blocked_to_ready
ready-Step TaskStatus.implementation_complete h = cc
ready-Step TaskStatus.documentation_pending h = cc
ready-Step TaskStatus.complete h = cc
ready-Step TaskStatus.failed h = failed_to_ready
ready-Step TaskStatus.cancelled h = cc

pub refused-Step :
    (p : TaskStatus)
    → admits (TaskStatus.draft ∷ TaskStatus.blocked ∷ TaskStatus.failed ∷ []) p ≡ true
    → Step ready p TaskStatus.blocked
unfolding any
refused-Step TaskStatus.draft h = draft_refused
refused-Step TaskStatus.ready h = cc
refused-Step TaskStatus.running h = cc
refused-Step TaskStatus.blocked h = blocked_refused
refused-Step TaskStatus.implementation_complete h = cc
refused-Step TaskStatus.documentation_pending h = cc
refused-Step TaskStatus.complete h = cc
refused-Step TaskStatus.failed h = failed_refused
refused-Step TaskStatus.cancelled h = cc

pub block-Step :
    {code : BlockerCode} {message : String} (p : TaskStatus)
    → admits (TaskStatus.draft ∷ TaskStatus.ready ∷ TaskStatus.running ∷ TaskStatus.blocked ∷ []) p
      ≡ true
    → Step (block code message) p TaskStatus.blocked
unfolding any
block-Step TaskStatus.draft h = draft_to_blocked
block-Step TaskStatus.ready h = ready_to_blocked
block-Step TaskStatus.running h = running_to_blocked
block-Step TaskStatus.blocked h = blocked_to_blocked
block-Step TaskStatus.implementation_complete h = cc
block-Step TaskStatus.documentation_pending h = cc
block-Step TaskStatus.complete h = cc
block-Step TaskStatus.failed h = cc
block-Step TaskStatus.cancelled h = cc

pub run-Step :
    {snapshot : Option String} {details : RunDetails} (p : TaskStatus)
    → admits (TaskStatus.ready ∷ []) p ≡ true
    → Step (start snapshot details) p TaskStatus.running
unfolding any
run-Step TaskStatus.draft h = cc
run-Step TaskStatus.ready h = ready_to_running
run-Step TaskStatus.running h = cc
run-Step TaskStatus.blocked h = cc
run-Step TaskStatus.implementation_complete h = cc
run-Step TaskStatus.documentation_pending h = cc
run-Step TaskStatus.complete h = cc
run-Step TaskStatus.failed h = cc
run-Step TaskStatus.cancelled h = cc

pub fail-Step :
    {reason : String} {run : Option String} (p : TaskStatus)
    → admits (TaskStatus.running ∷ TaskStatus.blocked ∷ TaskStatus.ready ∷ []) p ≡ true
    → Step (fail reason run) p TaskStatus.failed
unfolding any
fail-Step TaskStatus.draft h = cc
fail-Step TaskStatus.ready h = ready_to_failed
fail-Step TaskStatus.running h = running_to_failed
fail-Step TaskStatus.blocked h = blocked_to_failed
fail-Step TaskStatus.implementation_complete h = cc
fail-Step TaskStatus.documentation_pending h = cc
fail-Step TaskStatus.complete h = cc
fail-Step TaskStatus.failed h = cc
fail-Step TaskStatus.cancelled h = cc

pub implement-Step :
    {run summary : Option String} (p : TaskStatus)
    → admits (TaskStatus.running ∷ []) p ≡ true
    → Step (implemented run summary) p TaskStatus.implementation_complete
unfolding any
implement-Step TaskStatus.draft h = cc
implement-Step TaskStatus.ready h = cc
implement-Step TaskStatus.running h = running_to_implementation_complete
implement-Step TaskStatus.blocked h = cc
implement-Step TaskStatus.implementation_complete h = cc
implement-Step TaskStatus.documentation_pending h = cc
implement-Step TaskStatus.complete h = cc
implement-Step TaskStatus.failed h = cc
implement-Step TaskStatus.cancelled h = cc

pub document-Step :
    (p : TaskStatus)
    → admits (TaskStatus.implementation_complete ∷ []) p ≡ true
    → Step documentation_pending p TaskStatus.documentation_pending
unfolding any
document-Step TaskStatus.draft h = cc
document-Step TaskStatus.ready h = cc
document-Step TaskStatus.running h = cc
document-Step TaskStatus.blocked h = cc
document-Step TaskStatus.implementation_complete h =
    implementation_complete_to_documentation_pending
document-Step TaskStatus.documentation_pending h = cc
document-Step TaskStatus.complete h = cc
document-Step TaskStatus.failed h = cc
document-Step TaskStatus.cancelled h = cc

pub complete-Step :
    (p : TaskStatus)
    → admits (TaskStatus.implementation_complete ∷ TaskStatus.documentation_pending ∷ []) p ≡ true
    → Step complete p TaskStatus.complete
unfolding any
complete-Step TaskStatus.draft h = cc
complete-Step TaskStatus.ready h = cc
complete-Step TaskStatus.running h = cc
complete-Step TaskStatus.blocked h = cc
complete-Step TaskStatus.implementation_complete h = implementation_complete_to_complete
complete-Step TaskStatus.documentation_pending h = documentation_pending_to_complete
complete-Step TaskStatus.complete h = cc
complete-Step TaskStatus.failed h = cc
complete-Step TaskStatus.cancelled h = cc

pub cancel-Step :
    (p : TaskStatus)
    → admits (TaskStatus.draft ∷ TaskStatus.ready ∷ TaskStatus.running ∷ TaskStatus.blocked ∷ []) p
      ≡ true
    → Step cancel p TaskStatus.cancelled
unfolding any
cancel-Step TaskStatus.draft h = draft_to_cancelled
cancel-Step TaskStatus.ready h = ready_to_cancelled
cancel-Step TaskStatus.running h = running_to_cancelled
cancel-Step TaskStatus.blocked h = blocked_to_cancelled
cancel-Step TaskStatus.implementation_complete h = cc
cancel-Step TaskStatus.documentation_pending h = cc
cancel-Step TaskStatus.complete h = cc
cancel-Step TaskStatus.failed h = cc
cancel-Step TaskStatus.cancelled h = cc
