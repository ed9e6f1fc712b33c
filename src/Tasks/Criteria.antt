-- ===== src/Tasks/Criteria.antt =====
-- tasks/service.py: `_normalize_acceptance_criteria` and the coercion of the allowed actions.
use Prim.Native.Char.{code}
use Prim.Native.String.{◌++◌ as append}
use lucius_engineering.Prelude.{
  ℕ, ◌+◌, String, ◌&&◌, Option, none, some, List, [], ◌∷◌, if◌then◌else◌, is_space, is_blank,
  Result, ok, found, ◌>>=◌,
}
use lucius_engineering.Domain.Enums.{
  AcceptanceCriterionStatus, AllowedAction, parse_action, parse_criterion,
}
use lucius_engineering.Domain.Ids.{pad}
use lucius_engineering.Persistence.Orm.{AcceptanceCriterion}
use lucius_engineering.Tasks.Errors
use lucius_engineering.Tasks.Errors.{TaskError}

-- `text.lstrip()` and `text.rstrip()`
unfoldable pub lstrip : String → String
lstrip String.[] = String.[]
lstrip (String.◌∷◌ c s) = let rest = lstrip s in if is_space (code c) then rest else String.◌∷◌ c s

unfoldable pub rstrip : String → String
rstrip String.[] = String.[]
rstrip (String.◌∷◌ c s) =
    let rest = rstrip s in if is_space (code c) && is_blank s then String.[] else String.◌∷◌ c rest

abbrev pub strip : String → String
strip s = rstrip (lstrip s)

-- A criterion as it is given: a text, or a dictionary with the keys that the code reads, which hold
-- texts when they are there.
pub data CriterionInput : Type 0 where
  statement_only : String → CriterionInput
  entry : (id key statement status : Option String) → CriterionInput

-- f"AC-{index:03d}"
unfoldable pub criterion_key : ℕ → String
criterion_key index = append "AC-" (pad (index + 3) 3 index String.[])

abbrev pub first_text : Option String → Option String → String → String
first_text (some (String.◌∷◌ c s)) key d = String.◌∷◌ c s
first_text _ (some (String.◌∷◌ c s)) d = String.◌∷◌ c s
first_text _ _ d = d

abbrev pub text_or : String → Option String → String
text_or d none = d
text_or d (some s) = s

-- `AcceptanceCriterionStatus(item.get("status", "PENDING"))`
abbrev pub criterion_status : Option String → Result TaskError AcceptanceCriterionStatus
criterion_status none = ok AcceptanceCriterionStatus.pending
criterion_status (some s) = found (Errors.invalid_criterion_status s) (parse_criterion s)

unfoldable pub normalize_criterion : ℕ → CriterionInput → Result TaskError AcceptanceCriterion
normalize_criterion index (statement_only s) = ok (record {
  id = criterion_key index;
  statement = strip s;
  status = AcceptanceCriterionStatus.pending;
})
normalize_criterion index (entry id key statement status) = do
  parsed ← criterion_status status
  ok (record {
    id = first_text id key (criterion_key index);
    statement = strip (text_or "" statement);
    status = parsed;
  })

abbrev pub add_criterion : AcceptanceCriterion → List AcceptanceCriterion → List AcceptanceCriterion
add_criterion c cs = if is_blank c.statement then cs else c ∷ cs

-- The criteria from `index` on; those without a statement are left out.
unfoldable pub normalize_from :
    ℕ → List CriterionInput → Result TaskError (List AcceptanceCriterion)
normalize_from index [] = ok []
normalize_from index (item ∷ items) = do
  c ← normalize_criterion index item
  cs ← normalize_from (index + 1) items
  ok (add_criterion c cs)

abbrev pub normalize_acceptance_criteria :
    List CriterionInput → Result TaskError (List AcceptanceCriterion)
normalize_acceptance_criteria = normalize_from 1

-- An action as it is given: a member, or the text of one.
pub data ActionInput : Type 0 where
  member : AllowedAction → ActionInput
  action_text : String → ActionInput

unfoldable pub coerce_allowed_action : ActionInput → Result TaskError AllowedAction
coerce_allowed_action (member a) = ok a
coerce_allowed_action (action_text s) = found (Errors.invalid_action s) (parse_action s)

unfoldable pub coerce_actions : List ActionInput → Result TaskError (List AllowedAction)
coerce_actions [] = ok []
coerce_actions (a ∷ actions) = do
  first ← coerce_allowed_action a
  rest ← coerce_actions actions
  ok (first ∷ rest)
