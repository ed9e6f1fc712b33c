-- ===== src/Domain/Ids.antt =====
-- domain/ids.py: the kinds of public ids, their prefixes, and the text of an id.
use Prim.Native.Char.{Char}
use Prim.Native.String.{◌++◌ as append}
use lucius_engineering.Prelude.{
  ℕ, zero, suc, ◌+◌, ◌-◌, ◌/◌, ◌%◌, String, ◌≡◌, refl, ◌&&◌, Option, none, some, ltb, eqb,
  if◌then◌else◌,
}

-- the keys of `ENTITY_PREFIXES`
pub data Entity : Type 0 where
  project repository snapshot task task_contract task_run context_package documentation_completion
        evidence engineering_plan memory learning evaluation audit model_provider model_profile
        model_execution evaluation_suite evaluation_case evaluation_run evaluation_case_result
        repository_state plan_freeze plan_evaluation human_rubric benchmark pilot_learning
        pilot_record persistent_workflow workflow_checkpoint resume_validation queue_checkpoint
        controlled_commit :
      Entity

abbrev pub entity_name : Entity → String
entity_name project = "project"
entity_name repository = "repository"
entity_name snapshot = "snapshot"
entity_name task = "task"
entity_name task_contract = "task_contract"
entity_name task_run = "task_run"
entity_name context_package = "context_package"
entity_name documentation_completion = "documentation_completion"
entity_name evidence = "evidence"
entity_name engineering_plan = "engineering_plan"
entity_name memory = "memory"
entity_name learning = "learning"
entity_name evaluation = "evaluation"
entity_name audit = "audit"
entity_name model_provider = "model_provider"
entity_name model_profile = "model_profile"
entity_name model_execution = "model_execution"
entity_name evaluation_suite = "evaluation_suite"
entity_name evaluation_case = "evaluation_case"
entity_name evaluation_run = "evaluation_run"
entity_name evaluation_case_result = "evaluation_case_result"
entity_name repository_state = "repository_state"
entity_name plan_freeze = "plan_freeze"
entity_name plan_evaluation = "plan_evaluation"
entity_name human_rubric = "human_rubric"
entity_name benchmark = "benchmark"
entity_name pilot_learning = "pilot_learning"
entity_name pilot_record = "pilot_record"
entity_name persistent_workflow = "persistent_workflow"
entity_name workflow_checkpoint = "workflow_checkpoint"
entity_name resume_validation = "resume_validation"
entity_name queue_checkpoint = "queue_checkpoint"
entity_name controlled_commit = "controlled_commit"

abbrev pub entity_prefix : Entity → String
entity_prefix project = "LPROJ"
entity_prefix repository = "LREPO"
entity_prefix snapshot = "LSNAP"
entity_prefix task = "LTASK"
entity_prefix task_contract = "LCONTR"
entity_prefix task_run = "LRUN"
entity_prefix context_package = "LCTX"
entity_prefix documentation_completion = "LDOC"
entity_prefix evidence = "LEVID"
entity_prefix engineering_plan = "LPLAN"
entity_prefix memory = "LMEM"
entity_prefix learning = "LLEARN"
entity_prefix evaluation = "LEVAL"
entity_prefix audit = "LAUDIT"
entity_prefix model_provider = "LMPROV"
entity_prefix model_profile = "LMPROF"
entity_prefix model_execution = "LMEXEC"
entity_prefix evaluation_suite = "LESUITE"
entity_prefix evaluation_case = "LCASE"
entity_prefix evaluation_run = "LERUN"
entity_prefix evaluation_case_result = "LERES"
entity_prefix repository_state = "LRSTATE"
entity_prefix plan_freeze = "LFREEZE"
entity_prefix plan_evaluation = "LEVALPLAN"
entity_prefix human_rubric = "LRUBRIC"
entity_prefix benchmark = "LBENCH"
entity_prefix pilot_learning = "LPLEARN"
entity_prefix pilot_record = "LPILOT"
entity_prefix persistent_workflow = "LWORK"
entity_prefix workflow_checkpoint = "LWCHK"
entity_prefix resume_validation = "LRESUME"
entity_prefix queue_checkpoint = "LQCHK"
entity_prefix controlled_commit = "LCOMMIT"

-- the decimal digit of a number below ten
unfoldable pub digit : ℕ → Char
digit zero = "0"
digit (suc zero) = "1"
digit (suc (suc zero)) = "2"
digit (suc (suc (suc zero))) = "3"
digit (suc (suc (suc (suc zero)))) = "4"
digit (suc (suc (suc (suc (suc zero))))) = "5"
digit (suc (suc (suc (suc (suc (suc zero)))))) = "6"
digit (suc (suc (suc (suc (suc (suc (suc zero))))))) = "7"
digit (suc (suc (suc (suc (suc (suc (suc (suc zero)))))))) = "8"
digit _ = "9"

-- The decimal digits of `n` in front of `out`, at least `width` of them: `f"{n:0{width}d}"`. The
-- fuel bounds the number of digits.
unfoldable pub pad : ℕ → ℕ → ℕ → String → String
pad zero width n out = out
pad (suc fuel) width n out =
    let rest = pad fuel (width - 1) (n / 10) (String.◌∷◌ (digit (n % 10)) out) in
    if eqb width 0 && eqb n 0 then out else rest

-- `n + 6` digits are enough for `n`.
unfoldable pub decimal6 : ℕ → String
decimal6 n = pad (n + 6) 6 n String.[]

-- `f"{ENTITY_PREFIXES[entity]}_{number:06d}"`
unfoldable pub public_id : Entity → ℕ → String
public_id e number = append (append (entity_prefix e) "_") (decimal6 number)

-- `None` is the `ValueError` for numbers below 1.
unfoldable pub format_public_id : Entity → ℕ → Option String
unfolding public_id
format_public_id e number = if ltb number 1 then none else some (public_id e number)

sample : public_id task 12 ≡ "LTASK_000012"
unfolding public_id decimal6 pad digit
sample = refl

sample_long : public_id task 1234567 ≡ "LTASK_1234567"
unfolding public_id decimal6 pad digit
sample_long = refl
