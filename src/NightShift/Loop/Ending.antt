-- ===== src/NightShift/Loop/Ending.antt =====
-- night_shift/supervisor.py: that `run` ends, and within its limits.
use lucius_engineering.Prelude.{
  ℕ, zero, suc, ◌+◌, ◌-◌, ◌≤◌, ◌<◌, ◌≡◌, refl, true, false, none, some, inl, inr, arith, Result, ok,
  err, Option-cases, subst,
}
use lucius_engineering.Prelude.Triples.{Ends}
use lucius_engineering.NightShift.Schemas.{
  ℤ, pos, negsuc, at_most, NightShiftConfig, NightShiftResult, new_result,
}
use lucius_engineering.NightShift.Services.{Services, Shift}
use lucius_engineering.NightShift.Night.{Night, Stop}
use lucius_engineering.NightShift.Cycle.Spending.{
  Spent, SelectsTask, KeepsMaxTasks, run_cycle-selects, run_cycle-Spent,
}
use lucius_engineering.NightShift.Loop.{
  Turn, finished, again, reached_limit, finish_clean, hard_stop, settle, turn_of, turn, Turn-cases,
  repeat, run,
}

-- The number that a limit stands for: what is negative is reached at once.
abbrev pub limit_of : ℤ → ℕ
limit_of (pos k) = k
limit_of (negsuc k) = 0

limit_reached : (z : ℤ) (n : ℕ) → limit_of z ≤ n → at_most z n ≡ true
unfolding at_most
limit_reached (pos k) n h = ground arith
limit_reached (negsuc k) n h = refl

limit_open : (z : ℤ) (n : ℕ) → at_most z n ≡ false → n + 1 ≤ limit_of z
unfolding at_most
limit_open (pos k) n h = ground arith
limit_open (negsuc k) n h = absurd (ground arith)

module _ {W : Type 0} (services : Services W) (config : NightShiftConfig) where
  -- A turn that goes on started below the limit and selected a task.
  abbrev Selects : ℕ → Turn W → Type 0
  Selects a (finished r shift) = Unit
  Selects a (again r shift) = a + 1 ≤ r.tasks_selected

  abbrev GoesOn : ℕ → Turn W → Type 0
  GoesOn a (finished r shift) = Unit
  GoesOn a (again r shift) = (a + 1 ≤ r.tasks_selected) × (a + 1 ≤ limit_of config.max_tasks)

  GoesOn-of : (a : ℕ) (t : Turn W) → Selects a t → a + 1 ≤ limit_of config.max_tasks → GoesOn a t
  GoesOn-of a (finished r shift) h l = tt
  GoesOn-of a (again r shift) h l = (h, l)

  settle-Selects :
      (started a : ℕ) (x : Result Stop (Unit {0}) × Night W)
      → Ends (λ _ (n : Night W). a + 1 ≤ n.result.tasks_selected) (λ _ (_ : Night W). Unit {0}) x
      → Selects a (settle services config started x)
  unfolding settle finish_clean hard_stop
  settle-Selects started a (ok _, n) h = h
  settle-Selects started a (err Stop.idle, n) h = tt
  settle-Selects started a (err (Stop.hard reason), n) h = tt

  below_limit :
      (r : NightShiftResult) (elapsed : ℕ)
      → reached_limit config r elapsed ≡ none
      → (r.tasks_selected + 1 ≤ limit_of config.max_tasks)
        × (r.l2_commits_succeeded + 1 ≤ limit_of config.max_commits)
  unfolding reached_limit
  below_limit r elapsed e = (
    limit_open config.max_tasks r.tasks_selected (ground arith),
    limit_open config.max_commits r.l2_commits_succeeded (ground arith),
  )

  turn-GoesOn :
      (started : ℕ) (r : NightShiftResult) (shift : Shift W)
      → SelectsTask services
      → GoesOn r.tasks_selected (turn services config started r shift)
  unfolding turn turn_of finish_clean
  turn-GoesOn started r shift selects =
      elim (Option-cases (reached_limit config r ((services.clock shift.world).0 - started))) [
        | inl e ↦ rw e (
            GoesOn-of r.tasks_selected _
              (settle-Selects started _ _
                (run_cycle-selects services config _ r.tasks_selected selects (ground arith)))
              (below_limit r _ e).0)
        | inr (limit, e) ↦ rw e tt
      ]

  repeat_ends :
      (fuel started : ℕ) (r : NightShiftResult) (shift : Shift W)
      → SelectsTask services
      → 1 ≤ fuel
      → limit_of config.max_tasks < r.tasks_selected + fuel
      → (r' : NightShiftResult) × (shift' : Shift W) × (repeat services config fuel started r shift
          ≡ some (r', shift'))
  unfolding repeat
  repeat_ends zero started r shift selects one h = absurd (omega arith)
  repeat_ends (suc fuel) started r shift selects one h =
      let more = turn-GoesOn started r shift selects in
      elim (Turn-cases (turn services config started r shift)) [
        | inl (r₁, shift₁, q) ↦ (r₁, shift₁, rw q refl)
        | inr (r₁, shift₁, q) ↦
            let step : (r.tasks_selected + 1 ≤ r₁.tasks_selected)
                × (r.tasks_selected + 1 ≤ limit_of config.max_tasks) =
              rw q at more in
            rw q (repeat_ends fuel started r₁ shift₁ selects (ground arith) (ground arith))
      ]

  -- Where a runtime loop that keeps the record of a task has selected one, a run ends after at most
  -- one turn more than the tasks it may select.
  pub run_ends :
      (shift : Shift W)
      → SelectsTask services
      → (r : NightShiftResult) × (shift' : Shift W) × (run services config
            (suc (limit_of config.max_tasks))
            shift
          ≡ some (r, shift'))
  unfolding run
  run_ends shift selects =
      repeat_ends (suc (limit_of config.max_tasks)) _ new_result _ selects (omega arith)
        (omega arith)

  abbrev Within : NightShiftResult → Type 0
  Within = Spent 0 (limit_of config.max_tasks) (limit_of config.max_commits)

  abbrev AllWithin : Turn W → Type 0
  AllWithin (finished r shift) = Within r
  AllWithin (again r shift) = Within r

  settle-Within :
      (started b c : ℕ) (x : Result Stop (Unit {0}) × Night W)
      → Ends (λ _ (n : Night W). Spent 0 b c n.result) (λ _ (n : Night W). Spent 0 b c n.result) x
      → b ≤ limit_of config.max_tasks
      → c ≤ limit_of config.max_commits
      → AllWithin (settle services config started x)
  unfolding settle finish_clean hard_stop
  settle-Within started b c (ok _, n) h lb lc = ground arith
  settle-Within started b c (err Stop.idle, n) h lb lc = ground arith
  settle-Within started b c (err (Stop.hard reason), n) h lb lc = ground arith

  turn-Within :
      (started : ℕ) (r : NightShiftResult) (shift : Shift W)
      → KeepsMaxTasks services
      → Within r
      → AllWithin (turn services config started r shift)
  unfolding turn turn_of finish_clean
  turn-Within started r shift keeps h =
      elim (Option-cases (reached_limit config r ((services.clock shift.world).0 - started))) [
        | inl e ↦
            let (tasks, commits) = below_limit r _ e in
            rw e (
              settle-Within started (r.tasks_selected + 1) (r.l2_commits_succeeded + 1) _
                (run_cycle-Spent services config _ r.tasks_selected r.l2_commits_succeeded keeps
                  (ground arith))
                tasks commits)
        | inr (limit, e) ↦ rw e h
      ]

  repeat-Within :
      (fuel started : ℕ) (r r' : NightShiftResult) (shift shift' : Shift W)
      → KeepsMaxTasks services
      → Within r
      → repeat services config fuel started r shift ≡ some (r', shift')
      → Within r'
  unfolding repeat
  repeat-Within zero started r r' shift shift' keeps h e = absurd (ground arith)
  repeat-Within (suc fuel) started r r' shift shift' keeps h e =
      let within = turn-Within started r shift keeps h in
      elim (Turn-cases (turn services config started r shift)) [
        | inl (r₁, shift₁, q) ↦
            let same : r₁ ≡ r' = ground (arith, rw q at e) in subst Within same (rw q at within)
        | inr (r₁, shift₁, q) ↦
            repeat-Within fuel started r₁ r' shift₁ shift' keeps (rw q at within) (rw q at e)
      ]

  -- Where a runtime loop keeps its limit of one task, a run selects no more tasks than its
  -- configuration allows, and no more of its commits succeed.
  pub run_within_limits :
      (fuel : ℕ) (r : NightShiftResult) (shift shift' : Shift W)
      → KeepsMaxTasks services
      → run services config fuel shift ≡ some (r, shift')
      → (r.tasks_selected ≤ limit_of config.max_tasks)
        × (r.l2_commits_succeeded ≤ limit_of config.max_commits)
  unfolding run
  run_within_limits fuel r shift shift' keeps e =
      let (_, tasks, commits) = repeat-Within fuel _ new_result r _ shift' keeps (ground arith) e in
      (tasks, commits)
