-- ===== src/Lib.antt =====
-- Lucius Engineering: work queue, task service, missions, model routing and the night shift.
--
-- The program plans and supervises engineering work. A task belongs to a project and has a contract;
-- the task service moves it through its life. A persistent workflow holds a backlog of work items, and
-- the queue starts, blocks, resolves, repairs and completes them, one running item at a time. Every
-- service writes through one database session, takes new ids from `next_id` and records audit events.
-- A mission marks the items that wait, the router chooses a model for a role, and the night shift runs
-- task after task: it has the runtime execute the next item, has the result integrated and committed,
-- and proves that what fails left nothing behind.
--
-- Which file models which part:
-- - Domain/Enums, Domain/Ids, Domain/Blockers: src/lucius/domain/enums.py, src/lucius/domain/ids.py and
--   src/lucius/tasks/schemas.py.
-- - Persistence: `next_id`, `_persisted_next_number` and `_public_id_number` of
--   src/lucius/persistence/repositories.py. The state `IdState` holds the counters and the ids of all
--   rows. Persistence/Orm holds the rows of src/lucius/persistence/orm.py and the `Session`, which is
--   the state of all services.
-- - Audit: `record` of src/lucius/audit/service.py.
-- - Tasks/Policy: src/lucius/tasks/policy.py. Tasks/Contracts, Tasks/Criteria and Tasks/Service with its
--   children: src/lucius/tasks/service.py; `transition_guard` is `_ensure_transition`, and the other
--   methods keep their names. Tasks/Calls has the calls on a task as data, the steps that each of
--   them moves a status by, and what histories of calls keep. `create_task` is no call on a task.
-- - Pilots/Queue: src/lucius/pilots/queue.py. Items and Parsed read the dictionaries of a backlog,
--   Selection is `select_next` and `inspect`, Guards has what each method checks before it writes, and
--   Operations, Blocking, Repair and Completion have the methods that write. Calls has the calls as
--   data, those on one workflow and the global starts, and what histories of calls keep. Global is `select_global_next` and `start_global_next`, over
--   several workflows, and Global/Inspect is `inspect_global`.
-- - Pilots/Workflows: src/lucius/pilots/workflows.py. Its children are Checkpoints, with
--   `record_checkpoint` and `validate_resume`, and what those promise.
-- - NightShift: src/lucius/night_shift/supervisor.py. Schemas has the configuration and the reports,
--   Services the services, Git and the clock that the supervisor is given, as fields of a record.
--   Containment is the proof that a failed task left nothing behind, Promotion the checks before an
--   integration. Night and Cycle are one turn of `run`, and Loop is `run` with its report.
-- - Models: src/lucius/models/schemas.py, capabilities.py, errors.py, policies.py and router.py.
-- - Runtime/Mission: src/lucius/runtime/mission.py. Reconcile sets a mission's status from its items,
--   Waits creates and clears waits.
-- - Prelude: results, actions, lists, orders, sorting, texts and tables that the parts share.
--
-- A method that changes state is an action `Exec Session E A`: it takes the session and returns a
-- result or an error, beside the session as it stands then. A raise keeps what was written before it.
-- Rows stand under their primary keys in association lists. The clock is an argument. Fuel is in
-- two places. The decimal text of a number: `pad` gets more fuel than the number has digits, since a
-- number has at most as many digits as its own value, or one. The loop of the night shift: its fuel is
-- the number of turns, and one more than the limit on tasks is enough where the
-- runtime keeps a record of the task it selects: a turn that does not end the night then selects one.
--
-- What is not modelled: the metadata of audit events, the rollback of a transaction after an error
-- and the concurrent use of one database. A text column that holds the value of an enumeration has
-- the enumeration's type, so a stored value that is none of its members is not modelled, but for
-- the states and priorities of work items, which the queue parses. A criterion's dictionary holds
-- texts. The values in the dictionary of a work item have the types that the queue writes: its
-- version, order, substeps and context limits are missing or such a value, never `None`, and
-- numbers are not negative. The suffixes of ids have digits of ASCII only. Git, the files, the
-- executor of a task, the integration and the commit services are parameters of the night shift;
-- Git may fail with the code of its error, and the others return a result and do not raise. Random
-- ids and the existence of a file are arguments, and amounts of money are exact numbers. Texts
-- written only for people are left out. The remaining services of the repository, such as the
-- planner, the evaluation of pilots, the memory and the command line, have no model here.
pub mod Prelude
pub mod Domain
pub mod Persistence
pub mod Audit
pub mod Pilots
pub mod Tasks
pub mod NightShift
pub mod Models
pub mod Runtime
