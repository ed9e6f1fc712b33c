-- ===== src/Pilots/Queue/Calls.antt =====
-- The calls of the queue's methods that write, as data, so that histories of calls can be spoken of.
pub mod Atomic
pub mod Running
mod Targets
pub mod Effects
pub mod Invariant
pub mod Histories
pub mod Resume
pub mod GlobalStart
use lucius_engineering.Prelude.{ℕ, String, Option, none, some, List, [], ◌∷◌, Result, ok, err}
use lucius_engineering.Domain.Enums.{Actor, QueueWorkItemState}
use lucius_engineering.Domain.Json.{Json, JsonDict}
use lucius_engineering.Persistence.Orm.{Session}
use lucius_engineering.Pilots.Queue.Errors.{QueueError}
use lucius_engineering.Pilots.Queue.Operations.{start_next}
use lucius_engineering.Pilots.Queue.Blocking.{
  BlockRequest, block_running_item, block_dispatch_selected_item, resolve_blocker,
}
use lucius_engineering.Pilots.Queue.Repair.{repair_blocked_item_configuration}
use lucius_engineering.Pilots.Queue.Completion.{complete_item}
use lucius_engineering.Pilots.Queue.Global.{GlobalQueueSelection}
use lucius_engineering.Pilots.Queue.Global.Starting.{start_selected_global_item, start_global_next}

pub data QueueCall : Type 0 where
  start : QueueCall
  block : String → BlockRequest → QueueCall
  block_dispatch : String → QueueWorkItemState → ℕ → BlockRequest → QueueCall
  resolve : String → String → ℕ → String → QueueCall
  repair : String → String → ℕ → Option Json → JsonDict → QueueCall
  complete : String → List String → QueueCall

-- the session after a call on a workflow, whether the call returns or raises
unfoldable pub perform : String → QueueCall → Actor → ℕ → Session → Session
perform wid start actor now s = (start_next wid actor now s).1
perform wid (block item req) actor now s = (block_running_item wid item req actor now s).1
perform wid (block_dispatch item expected version req) actor now s =
    (block_dispatch_selected_item wid item expected version req actor now s).1
perform wid (resolve item checkpoint version event) actor now s =
    (resolve_blocker wid item checkpoint version event actor now s).1
perform wid (repair item checkpoint version timeout patch) actor now s =
    (repair_blocked_item_configuration wid item checkpoint version timeout patch actor now s).1
perform wid (complete item substeps) actor now s = (complete_item wid item substeps actor now s).1

abbrev pub error_of : {A : Type 0} → Result QueueError A → Option QueueError
error_of (ok a) = none
error_of (err e) = some e

-- the error that a call raises, if it raises one
unfoldable pub raised : String → QueueCall → Actor → ℕ → Session → Option QueueError
raised wid start actor now s = error_of (start_next wid actor now s).0
raised wid (block item req) actor now s = error_of (block_running_item wid item req actor now s).0
raised wid (block_dispatch item expected version req) actor now s =
    error_of (block_dispatch_selected_item wid item expected version req actor now s).0
raised wid (resolve item checkpoint version event) actor now s =
    error_of (resolve_blocker wid item checkpoint version event actor now s).0
raised wid (repair item checkpoint version timeout patch) actor now s =
    error_of
      (repair_blocked_item_configuration wid item checkpoint version timeout patch actor now s).0
raised wid (complete item substeps) actor now s =
    error_of (complete_item wid item substeps actor now s).0

-- One call of a history: a call on one workflow, the start of the next item of several workflows, or
-- the start of the item that a global selection names, which was made at any time before.
pub data Event : Type 0 where
  on_workflow : String → QueueCall → Actor → ℕ → Event
  global_next : List String → Actor → ℕ → Event
  global_selected : GlobalQueueSelection → List String → Actor → ℕ → Event

-- the session after the call, whether it returns or raises
unfoldable pub apply : Event → Session → Session
apply (on_workflow wid call actor now) s = perform wid call actor now s
apply (global_next wids actor now) s = (start_global_next wids actor now s).1
apply (global_selected selection wids actor now) s =
    (start_selected_global_item selection wids actor now s).1

-- the error that it raises, if it raises one
unfoldable pub event_error : Event → Session → Option QueueError
event_error (on_workflow wid call actor now) s = raised wid call actor now s
event_error (global_next wids actor now) s = error_of (start_global_next wids actor now s).0
event_error (global_selected selection wids actor now) s =
    error_of (start_selected_global_item selection wids actor now s).0

unfoldable pub run : List Event → Session → Session
run [] s = s
run (e ∷ es) s = run es (apply e s)
