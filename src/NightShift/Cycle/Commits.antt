-- ===== src/NightShift/Cycle/Commits.antt =====
-- night_shift/supervisor.py: when a cycle asks for a commit.
use lucius_engineering.Prelude.{ℕ, ◌≡◌, Result}
use lucius_engineering.Prelude.Triples.{Ends}
use lucius_engineering.NightShift.Services.{Services}
use lucius_engineering.NightShift.Night.{Night, Stop}

module _ {W : Type 0} where
  -- no more commits than `k` were asked for when a method ends
  abbrev AsksFor : {A : Type 0} → ℕ → Result Stop A × Night W → Type 0
  AsksFor k =
      Ends (λ _ (n : Night W). n.result.l2_commits_attempted ≡ k)
        (λ _ (n : Night W). n.result.l2_commits_attempted ≡ k)
