-- ===== src/NightShift/Loop.antt =====
-- night_shift/supervisor.py: `run`, which repeats cycles until a limit, an idle runtime or a hard stop.
pub mod Report
pub mod Ending
use lucius_engineering.Prelude.{
  ◌≡◌, refl, ◌⊎◌, inl, inr, ℕ, zero, suc, ◌+◌, ◌-◌, String, Bool, true, false, Option, none, some,
  List, [], ◌∷◌, ◌++◌, if◌then◌else◌, Result, ok, err,
}
use lucius_engineering.NightShift.Schemas.{
  NightShiftStatus, NightShiftConfig, NightShiftCycleRecord, NightShiftResult, at_most, new_cycle,
  new_result,
}
use lucius_engineering.NightShift.Services.{Services, Shift}
use lucius_engineering.NightShift.Night.{Night, Stop, audit_night}
use lucius_engineering.NightShift.Cycle.{run_cycle}

pub data Limit : Type 0 where
  max_tasks_reached max_commits_reached max_wall_clock_reached : Limit

abbrev pub limit_reason : Limit → String
limit_reason max_tasks_reached = "MAX_TASKS_REACHED"
limit_reason max_commits_reached = "MAX_COMMITS_REACHED"
limit_reason max_wall_clock_reached = "MAX_WALL_CLOCK_REACHED"

-- the tests at the head of the loop
unfoldable pub reached_limit : NightShiftConfig → NightShiftResult → ℕ → Option Limit
reached_limit config r elapsed =
    if at_most config.max_tasks r.tasks_selected
    then some max_tasks_reached
    else if at_most config.max_commits r.l2_commits_succeeded
    then some max_commits_reached
    else if at_most config.max_wall_clock_seconds elapsed
    then some max_wall_clock_reached
    else none

-- the result of `_finish_clean`: a reason that starts with "MAX_" is that of a limit
abbrev pub clean_result : String → Option String → ℕ → NightShiftResult → NightShiftResult
clean_result reason limit duration r = record r {
  status = NightShiftStatus.clean_termination;
  stop_reason = some reason;
  max_limit_reached_reason = limit;
  wall_clock_duration_seconds = duration;
}

-- the result of `_hard_stop`, with the counter that each of its calls raises before
abbrev pub hard_result : String → ℕ → NightShiftResult → NightShiftResult
hard_result reason duration r = record r {
  status = NightShiftStatus.hard_stop;
  stop_reason = some reason;
  integrity_violation = some reason;
  hard_stop_failures = r.hard_stop_failures + 1;
  wall_clock_duration_seconds = duration;
}

abbrev pub with_cycle : NightShiftCycleRecord → NightShiftResult → NightShiftResult
with_cycle cycle r = record r { cycles = r.cycles ++ cycle ∷ [] }

-- What a turn of the loop leaves: the run's result, or what the next turn goes on with.
pub data Turn (W : Type 0) : Type 0 where
  finished : NightShiftResult → Shift W → Turn W
  again : NightShiftResult → Shift W → Turn W

abbrev pub begin_cycle : {W : Type 0} → NightShiftResult → Shift W → Night W
begin_cycle r shift = record {
  shift = shift;
  result = record r { cycles_attempted = r.cycles_attempted + 1 };
  cycle = new_cycle (r.cycles_attempted + 1);
}

pub Turn-cases :
    {W : Type 0} (t : Turn W)
    → ((r : NightShiftResult) × (shift : Shift W) × (t ≡ finished r shift))
      ⊎ ((r : NightShiftResult) × (shift : Shift W) × (t ≡ again r shift))
Turn-cases (finished r shift) = inl (r, shift, refl)
Turn-cases (again r shift) = inr (r, shift, refl)

module _ {W : Type 0} (services : Services W) (config : NightShiftConfig) where
  abbrev read_clock : Shift W → ℕ × Shift W
  read_clock shift =
      let (now, world) = services.clock shift.world in (now, record shift { world = world })

  unfoldable pub finish_clean : String → Option String → ℕ → NightShiftResult → Shift W → Turn W
  finish_clean reason limit started r shift =
      let (now, after) = read_clock shift in
      finished (clean_result reason limit (now - started) r)
        (audit_night services "NIGHT_SHIFT_COMPLETED" "CLEAN_TERMINATION" after)

  unfoldable pub hard_stop : String → ℕ → NightShiftResult → Shift W → Turn W
  hard_stop reason started r shift =
      let (now, after) = read_clock shift in
      finished (hard_result reason (now - started) r) (
        audit_night services "NIGHT_SHIFT_HARD_STOP" "HARD_STOP"
          (audit_night services "NIGHT_SHIFT_CYCLE_CHECKPOINT" "HARD_STOP" after))

  -- the turn of a cycle that ended
  unfoldable pub settle : ℕ → Result Stop (Unit {0}) × Night W → Turn W
  settle started (ok _, n) = again (with_cycle n.cycle n.result) n.shift
  settle started (err Stop.idle, n) =
      finish_clean "IDLE" none started (with_cycle n.cycle n.result)
        (audit_night services "NIGHT_SHIFT_CYCLE_CHECKPOINT" "IDLE" n.shift)
  settle started (err (Stop.hard reason), n) =
      hard_stop reason started
        (with_cycle (record n.cycle { hard_stop_reason = some reason }) n.result) n.shift

  unfoldable pub turn_of : Option Limit → ℕ → NightShiftResult → Shift W → Turn W
  turn_of (some limit) started r shift =
      finish_clean (limit_reason limit) (some (limit_reason limit)) started r shift
  turn_of none started r shift = settle started (run_cycle services config (begin_cycle r shift))

  -- one turn of the loop
  unfoldable pub turn : ℕ → NightShiftResult → Shift W → Turn W
  turn started r shift =
      let (now, after) = read_clock shift in
      turn_of (reached_limit config r (now - started)) started r after

  -- what follows a turn
  abbrev pub after_turn :
      (NightShiftResult → Shift W → Option (NightShiftResult × Shift W))
      → Turn W
      → Option (NightShiftResult × Shift W)
  after_turn go_on (finished r shift) = some (r, shift)
  after_turn go_on (again r shift) = go_on r shift

  -- the loop, at most so many turns; none when these are not enough
  unfoldable pub repeat : ℕ → ℕ → NightShiftResult → Shift W → Option (NightShiftResult × Shift W)
  repeat zero started r shift = none
  repeat (suc fuel) started r shift = after_turn (repeat fuel started) (turn started r shift)

  unfoldable pub run : ℕ → Shift W → Option (NightShiftResult × Shift W)
  run fuel shift =
      let (started, after) = read_clock shift in
      repeat fuel started new_result (audit_night services "NIGHT_SHIFT_STARTED" "STARTED" after)
