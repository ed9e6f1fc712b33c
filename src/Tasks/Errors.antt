-- ===== src/Tasks/Errors.antt =====
-- tasks/service.py: the errors that the task service raises, told by the values that their texts hold.
use lucius_engineering.Prelude.{String}
use lucius_engineering.Domain.Enums.{TaskStatus}

pub data TaskError : Type 0 where
  unknown_project : String → TaskError
  project_inactive : TaskError
  unknown_task : String → TaskError
  not_ready : TaskError
  unknown_snapshot : String → TaskError
  snapshot_not_attached : TaskError
  terminal : TaskError
  invalid_transition : TaskStatus → TaskError
  invalid_criterion_status : String → TaskError
  invalid_action : String → TaskError
