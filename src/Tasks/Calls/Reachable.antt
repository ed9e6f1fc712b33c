-- ===== src/Tasks/Calls/Reachable.antt =====
-- What any history of calls does to the row of a task.
use lucius_engineering.Prelude.{
  ℕ, String, ◌≡◌, refl, subst, ◌⊎◌, inl, inr, true, false, some, List, [], ◌∷◌, arith, lookup,
  lookup-insert, eq_iff, ◌==◌, Bool-cases,
}
use lucius_engineering.Domain.Enums.{Actor, TaskStatus}
use lucius_engineering.Persistence.Orm.{Task, Session}
use lucius_engineering.Tasks.Service.{is_terminal}
use lucius_engineering.Tasks.Calls.{
  TaskCall, ready, start, block, fail, implemented, documentation_pending, documented, complete,
  cancel, author, perform, TaskEvent, run,
}
use lucius_engineering.Tasks.Calls.Steps.{
  draft_to_ready, blocked_to_ready, failed_to_ready, draft_refused, blocked_refused, failed_refused,
  draft_to_blocked, blocked_to_blocked, ready_to_blocked, running_to_blocked, ready_to_running,
  running_to_failed, blocked_to_failed, ready_to_failed, running_to_implementation_complete,
  implementation_complete_to_documentation_pending, implementation_complete_to_complete,
  documentation_pending_to_complete, draft_to_cancelled, ready_to_cancelled, running_to_cancelled,
  blocked_to_cancelled, Step,
}
use lucius_engineering.Tasks.Calls.Lifecycle.{
  TaskEffect, ready_effect, start_effect, block_effect, fail_effect, implemented_effect,
  pending_effect, documented_effect, complete_effect, cancel_effect, author_effect,
}

perform-TaskEffect :
    (id : String) (call : TaskCall) (actor : Actor) (now : ℕ) (s : Session)
    → TaskEffect id call s (perform id call actor now s)
unfolding perform
perform-TaskEffect id ready actor now s = ready_effect id actor now s
perform-TaskEffect id (start snapshot details) actor now s =
    start_effect id actor now s snapshot details
perform-TaskEffect id (block code message) actor now s = block_effect id actor now s code message
perform-TaskEffect id (fail reason r) actor now s = fail_effect id actor now s reason r
perform-TaskEffect id (implemented r summary) actor now s =
    implemented_effect id actor now s r summary
perform-TaskEffect id documentation_pending actor now s = pending_effect id actor now s
perform-TaskEffect id (documented targets evidence) actor now s =
    documented_effect id actor now s targets evidence
perform-TaskEffect id complete actor now s = complete_effect id actor now s
perform-TaskEffect id cancel actor now s = cancel_effect id actor now s
perform-TaskEffect id (author args) actor now s = author_effect id actor now s args

-- The row of a task after an effect on any task.
module _ (key : String) {call : TaskCall} {s t : Session} {row : Task}
    (stored : lookup key s.tasks ≡ some row) where
  row_after :
      (id : String)
      → TaskEffect id call s t
      → (row' : Task) × (lookup key t.tasks ≡ some row')
        × ((row' ≡ row) ⊎ ((id ≡ key) × Step call row.status row'.status))
  row_after id (inl e) = (row, rw e stored, inl refl)
  row_after id (inr c) = elim (Bool-cases (id == key)) [
    | inl q ↦
        let same : id ≡ key = (eq_iff id key).0 q in
        let kept : c.before ≡ row = ground (arith, c.stored, stored, same) in
        (
          c.changed,
          rw c.written (simp (lookup-insert, q)),
          inr (same, subst (λ (r : Task). Step call r.status c.changed.status) kept c.step),
        )
    | inr q ↦ (row, rw c.written (simp (lookup-insert, q, stored)), inl refl)
  ]

Step-from_terminal : {call : TaskCall} {p q : TaskStatus} → Step call p q → is_terminal p ≡ false
unfolding is_terminal
Step-from_terminal draft_to_ready = refl
Step-from_terminal blocked_to_ready = refl
Step-from_terminal failed_to_ready = refl
Step-from_terminal draft_refused = refl
Step-from_terminal blocked_refused = refl
Step-from_terminal failed_refused = refl
Step-from_terminal draft_to_blocked = refl
Step-from_terminal blocked_to_blocked = refl
Step-from_terminal ready_to_blocked = refl
Step-from_terminal running_to_blocked = refl
Step-from_terminal ready_to_running = refl
Step-from_terminal running_to_failed = refl
Step-from_terminal blocked_to_failed = refl
Step-from_terminal ready_to_failed = refl
Step-from_terminal running_to_implementation_complete = refl
Step-from_terminal implementation_complete_to_documentation_pending = refl
Step-from_terminal implementation_complete_to_complete = refl
Step-from_terminal documentation_pending_to_complete = refl
Step-from_terminal draft_to_cancelled = refl
Step-from_terminal ready_to_cancelled = refl
Step-from_terminal running_to_cancelled = refl
Step-from_terminal blocked_to_cancelled = refl

terminal_after :
    (key : String) {call : TaskCall} {s t : Session} {row : Task}
    → lookup key s.tasks ≡ some row
    → is_terminal row.status ≡ true
    → (id : String) → TaskEffect id call s t
    → lookup key t.tasks ≡ some row
terminal_after key {call} {s} {t} {row} h done id effect =
    let (row', k, step) = row_after key h id effect in
    elim step [
      | inl q ↦ subst (λ (r : Task). lookup key t.tasks ≡ some r) q k
      | inr (same, st) ↦ let live = Step-from_terminal st in absurd (ground (arith, live, done))
    ]

-- What a history of calls makes of the row of the task `key`: a call leaves it as it is, or is a call
-- on this task that moves its status by a step of this call.
pub data Trace (key : String) : List TaskEvent → Task → Task → Type 0 where
  ended : {a : Task} → Trace key [] a a
  kept :
      {e : TaskEvent} {es : List TaskEvent} {a c : Task} → Trace key es a c → Trace key (e ∷ es) a c
  moved :
      {e : TaskEvent} {es : List TaskEvent} {a b c : Task}
      → e.task_id ≡ key
      → Step e.call a.status b.status
      → Trace key es b c
      → Trace key (e ∷ es) a c

-- A task is never lost, whatever calls are made on it and on other tasks, and whichever of them raise.
-- Each call leaves its row as it is, or is a call on this task that moves its status by a step that
-- this call has: so a run starts only from READY, and only a READY, RUNNING or BLOCKED task fails.
pub run-Trace :
    (events : List TaskEvent) (key : String) (s : Session) {row : Task}
    → lookup key s.tasks ≡ some row
    → (row' : Task) × (lookup key (run events s).tasks ≡ some row') × Trace key events row row'
unfolding run
run-Trace [] key s {row} h = (row, h, ended)
run-Trace (e ∷ es) key s {row} h =
    let (mid, k, step) =
      row_after key h e.task_id (perform-TaskEffect e.task_id e.call e.actor e.now s) in
    let (last, m, rest) = run-Trace es key _ k in
    (
      last,
      m,
      elim step [
        | inl q ↦ kept (subst (λ (r : Task). Trace key es r last) q rest)
        | inr (same, st) ↦ moved same st rest
      ],
    )

-- Once a task is complete or cancelled, its row stays as it is, whatever calls are made on it and on
-- other tasks.
pub run-terminal :
    (events : List TaskEvent) (key : String) (s : Session) {row : Task}
    → lookup key s.tasks ≡ some row
    → is_terminal row.status ≡ true
    → lookup key (run events s).tasks ≡ some row
unfolding run
run-terminal [] key s {row} h done = h
run-terminal (e ∷ es) key s {row} h done =
    let kept =
      terminal_after key h done e.task_id (perform-TaskEffect e.task_id e.call e.actor e.now s) in
    run-terminal es key (perform e.task_id e.call e.actor e.now s) kept done
