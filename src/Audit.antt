-- ===== src/Audit.antt =====
-- audit/service.py: `record`, which adds one event under a fresh id.
use lucius_engineering.Prelude.{ℕ, ◌∷◌, ◌++◌, String, Option, []}
use lucius_engineering.Domain.Enums.{Actor}
use lucius_engineering.Domain.Ids.{audit}
use lucius_engineering.Persistence.{next_id, add_row_id}
use lucius_engineering.Persistence.Orm.{Session}

-- The arguments of `record`.
pub record AuditEventCreate : Type 0 where
  pub event_type : String
  pub actor : Actor
  pub project_id : Option String
  pub repository_id : Option String
  pub task_id : Option String
  pub run_id : Option String
  pub action : String
  pub result : String

unfoldable pub record_event : AuditEventCreate → ℕ → Session → Session
record_event event now s =
    let (id, ids) = next_id audit s.ids in
    record s {
      ids = add_row_id id ids;
      audit =
          s.audit
          ++ record {
            id = id;
            event_type = event.event_type;
            actor = event.actor;
            project_id = event.project_id;
            repository_id = event.repository_id;
            task_id = event.task_id;
            run_id = event.run_id;
            action = event.action;
            result = event.result;
            timestamp = now;
          }
            ∷ [];
    }
