-- ===== src/Pilots/Queue/Repair.antt =====
-- pilots/queue.py: repairing the configuration of a blocked item.
use lucius_engineering.Prelude.{
  ℕ, zero, suc, ◌+◌, String, Bool, true, false, ◌&&◌, not, Option, none, some, List, [], ◌∷◌, mem,
  lookup, insert, is_blank, Result, ok, refuse,
}
use lucius_engineering.Prelude.Exec.{pure, reads, modify, ◌>>=◌, ◌>>◌}
use lucius_engineering.Domain.Enums.{Actor}
use lucius_engineering.Domain.Json.{Json, bool, num, text, arr, Elements, nil, cons, JsonDict}
use lucius_engineering.Persistence.Orm.{WorkItem}
use lucius_engineering.Pilots.Queue.Errors
use lucius_engineering.Pilots.Queue.Errors.{QueueError}
use lucius_engineering.Pilots.Queue.Items.{int_or_zero}
use lucius_engineering.Pilots.Queue.Operations.{
  Action, change_item, put_workflow, audit_workflow, with_backlog,
}
use lucius_engineering.Pilots.Queue.Guards.{blocked_guard}

-- a positive integer; a Boolean is none
abbrev is_positive : Json → Bool
is_positive (num zero) = false
is_positive (num (suc n)) = true
is_positive _ = false

abbrev is_true : Json → Bool
is_true (bool b) = b
is_true _ = false

-- each element is a text that is not blank
all_texts : Elements → Bool
all_texts nil = true
all_texts (cons (text s) xs) = not (is_blank s) && all_texts xs
all_texts (cons _ xs) = false

-- a list that is not empty, of texts that are not blank
is_path_list : Json → Bool
unfolding all_texts
is_path_list (arr (cons x xs)) = all_texts (cons x xs)
is_path_list _ = false

-- the test of the value under a key, if the key is there
abbrev checked : (Json → Bool) → Option Json → Bool
checked p none = true
checked p (some v) = p v

-- the keys all stand in the list
only_keys : List String → JsonDict → Bool
only_keys allowed [] = true
only_keys allowed ((k, v) ∷ patch) = mem k allowed && only_keys allowed patch

-- `dict.update`
update_dict : JsonDict → JsonDict → JsonDict
update_dict d [] = d
update_dict d ((k, v) ∷ patch) = update_dict (insert k v d) patch

abbrev allowed_keys : List String
allowed_keys = "deterministic_verification" ∷ "read_only_context_paths" ∷ []

-- the checks of the new values
unfoldable pub check_repair : Option Json → JsonDict → Result QueueError (Unit {0})
unfolding is_path_list only_keys
check_repair timeout patch = refuse (not (checked is_positive timeout)) Errors.invalid_timeout (
    refuse (not (only_keys allowed_keys patch)) Errors.forbidden_limit_keys (
      refuse (not (checked is_true (lookup "deterministic_verification" patch)))
        Errors.invalid_verification_flag
        (refuse (not (checked is_path_list (lookup "read_only_context_paths" patch)))
          Errors.invalid_context_paths (ok tt))))

abbrev replaced : Option Json → Option Json → Option Json
replaced none old = old
replaced (some v) old = some v

unfoldable pub mark_repaired : Option Json → JsonDict → ℕ → WorkItem → WorkItem
unfolding update_dict
mark_repaired timeout patch now item = record item {
  timeout_seconds = replaced timeout item.timeout_seconds;
  context_limits = update_dict item.context_limits patch;
  version = some (int_or_zero item.version + 1);
  updated_at = some now;
}

unfoldable pub repair_blocked_item_configuration :
    String → String → String → ℕ → Option Json → JsonDict → Actor → ℕ → Action WorkItem
repair_blocked_item_configuration wid item_id checkpoint_id expected_version timeout patch actor
      now =
    do
      (wf, item) ← reads (blocked_guard wid item_id checkpoint_id expected_version)
      reads (λ _. check_repair timeout patch)
      let items = change_item item_id (mark_repaired timeout patch now) wf.task_backlog
      modify (put_workflow wid (with_backlog wf.active_task_id items now wf))
      modify (
          audit_workflow wf "QUEUE_WORK_ITEM_CONFIGURATION_REPAIRED"
            "repair_blocked_queue_work_item_configuration" item_id actor now)
      pure (mark_repaired timeout patch now item)
