-- ===== src/NightShift/Loop/Report.antt =====
-- night_shift/supervisor.py: what the result of `run` reports.
use lucius_engineering.Prelude.{
  ℕ, zero, suc, ◌+◌, ◌-◌, ◌≤◌, ◌≡◌, ◌≢◌, subst, refl, ◌⊎◌, none, some, List, [], ◌∷◌, ◌++◌, inl,
  inr, arith, length, Result, ok, err, Option-cases,
}
use lucius_engineering.Prelude.Triples.{Ends}
use lucius_engineering.NightShift.Schemas.{
  NightShiftStatus, NightShiftConfig, NightShiftResult, new_result,
}
use lucius_engineering.NightShift.Services.{Services, Shift}
use lucius_engineering.NightShift.Night.{Night, Stop}
use lucius_engineering.NightShift.Cycle.Books.{settled, Running, Returns, Raises, run_cycle-Running}
use lucius_engineering.NightShift.Loop.{
  Turn, finished, again, reached_limit, finish_clean, hard_stop, settle, turn_of, turn, Turn-cases,
  repeat, run,
}

-- A run that ended cleanly settled every cycle but an idle one, and committed what it integrated.
abbrev pub EndedClean : NightShiftResult → Type 0
EndedClean r =
    (r.status ≡ NightShiftStatus.clean_termination)
    × (r.integrity_violation ≡ none)
    × (r.hard_stop_failures ≡ 0)
    × (r.l1_integrations_failed ≡ 0)
    × (r.l2_commits_failed ≡ 0)
    × (r.l1_integrations_attempted ≡ r.l2_commits_succeeded + r.l2_commits_already_committed)
    × (((r.cycles_attempted ≡ settled r) × (r.max_limit_reached_reason ≡ r.stop_reason))
        ⊎ ((r.cycles_attempted ≡ settled r + 1) × (r.stop_reason ≡ some "IDLE")))

-- A run that stopped hard names the violation, and at most one service failed, in its last cycle.
abbrev pub StoppedHard : NightShiftResult → Type 0
StoppedHard r =
    (r.status ≡ NightShiftStatus.hard_stop)
    × (r.integrity_violation ≡ r.stop_reason)
    × (r.stop_reason ≢ none)
    × (r.hard_stop_failures ≡ 1)
    × (r.cycles_attempted ≡ settled r + 1)
    × (r.l1_integrations_attempted ≤ r.l2_commits_succeeded + r.l2_commits_already_committed + 1)

-- The record of every cycle is in the result, and the counters of the services add up.
abbrev pub IsBalanced : NightShiftResult → Type 0
IsBalanced r =
    (length r.cycles ≡ r.cycles_attempted)
    × (r.l1_integrations_attempted ≡ r.l1_integrations_succeeded + r.l1_integrations_failed)
    × (r.l2_commits_attempted
        ≡ r.l2_commits_succeeded + r.l2_commits_already_committed + r.l2_commits_failed)
    × (r.l2_commits_attempted ≤ r.l1_integrations_succeeded)

abbrev pub IsReport : NightShiftResult → Type 0
IsReport r = IsBalanced r × (EndedClean r ⊎ StoppedHard r)

-- The books between two turns.
abbrev Between : NightShiftResult → Type 0
Between r = Running 1 0 (record r { cycles_attempted = r.cycles_attempted + 1 })

abbrev IsSound : {W : Type 0} → Turn W → Type 0
IsSound (finished r shift) = IsReport r
IsSound (again r shift) = Between r

length-append {ℓ} : {A : Type ℓ} (xs : List A) (x : A) → length (xs ++ x ∷ []) ≡ length xs + 1
length-append [] x = refl
length-append (y ∷ xs) x = ground (arith, length-append xs x)

module _ {W : Type 0} (services : Services W) (config : NightShiftConfig) where
  settle-IsSound :
      (started : ℕ) (x : Result Stop (Unit {0}) × Night W)
      → Ends (Returns 0 0) Raises x
      → IsSound (settle services config started x)
  unfolding settle finish_clean hard_stop
  settle-IsSound started (ok _, n) h = ground (arith, h, length-append n.result.cycles n.cycle)
  settle-IsSound started (err Stop.idle, n) h =
      ground (arith, h, length-append n.result.cycles n.cycle)
  settle-IsSound started (err (Stop.hard reason), n) h =
      let grown =
        length-append n.result.cycles (record n.cycle { hard_stop_reason = some reason }) in
      ground (arith, h, grown)

  turn-IsSound :
      (started : ℕ) (r : NightShiftResult) (shift : Shift W)
      → Between r
      → IsSound (turn services config started r shift)
  unfolding turn turn_of finish_clean
  turn-IsSound started r shift h =
      elim (Option-cases (reached_limit config r ((services.clock shift.world).0 - started))) [
        | inl e ↦ rw e (settle-IsSound started _ (run_cycle-Running services config _ h))
        | inr (limit, e) ↦ rw e (ground arith)
      ]

  repeat-IsReport :
      (fuel started : ℕ) (r r' : NightShiftResult) (shift shift' : Shift W)
      → Between r
      → repeat services config fuel started r shift ≡ some (r', shift')
      → IsReport r'
  unfolding repeat
  repeat-IsReport zero started r r' shift shift' h e = absurd (ground arith)
  repeat-IsReport (suc fuel) started r r' shift shift' h e =
      let sound = turn-IsSound started r shift h in
      elim (Turn-cases (turn services config started r shift)) [
        | inl (r₁, shift₁, q) ↦
            let same : r₁ ≡ r' = ground (arith, rw q at e) in subst IsReport same (rw q at sound)
        | inr (r₁, shift₁, q) ↦
            repeat-IsReport fuel started r₁ r' shift₁ shift' (rw q at sound) (rw q at e)
      ]

  -- What a run returns is a report that adds up. A run that ends cleanly had no failing service,
  -- settled all its cycles but a last idle one, and committed all that it integrated. A run that stops
  -- hard names the violation and left only its last cycle unsettled.
  pub run-IsReport :
      (fuel : ℕ) (r : NightShiftResult) (shift shift' : Shift W)
      → run services config fuel shift ≡ some (r, shift')
      → IsReport r
  unfolding run
  run-IsReport fuel r shift shift' e = repeat-IsReport fuel _ new_result r _ shift' (ground arith) e
