-- ===== src/NightShift/Containment.antt =====
-- night_shift/supervisor.py: what is read before a cycle, and the proof that a failed task touched
-- nothing but its own workspace.
pub mod Evidence
use Prim.Native.String.{◌++◌ as append}
use lucius_engineering.Prelude.{
  ◌≡◌, arith, ℕ, String, Bool, true, false, ◌&&◌, ◌||◌, not, Option, none, some, List, [], ◌∷◌,
  ◌++◌, map, if◌then◌else◌, ◌==◌, keep, mem, is_empty, Table, lookup, insert, Result, ok, err,
  found, raise_when, ◌>>=◌, ◌>>◌,
}
use lucius_engineering.Domain.Enums.{PersistentWorkflowState}
use lucius_engineering.Persistence.Orm.{PersistentWorkflow, Session, quarantine_entry}
use lucius_engineering.NightShift.Services.{Services, Shift}

pub record ContainmentSnapshot : Type 0 where
  pub workflow_id : String
  pub canonical_repository_path : String
  pub candidate_workspace_path : String
  pub baseline_commit : Option String
  pub canonical_head : String
  pub canonical_tracked_paths : List String
  pub canonical_staged_paths : List String
  pub protected_untracked_hashes : Table String
  pub candidate_head : String
  pub candidate_changed_paths : List String

pub data ContainmentStatus : Type 0 where
  contained not_contained : ContainmentStatus

abbrev pub containment_value : ContainmentStatus → String
containment_value contained = "CONTAINED"
containment_value not_contained = "NOT_CONTAINED"

pub record ContainmentResult : Type 0 where
  pub status : ContainmentStatus
  pub reason : String
  pub candidate_quarantined : Bool

-- `x if text else None` of a text that may be missing
abbrev pub present : Option String → Option String
present none = none
present (some text) = if text == "" then none else some text

pub present_some : (o : Option String) {text : String} → present o ≡ some text → o ≡ some text
present_some none e = absurd (ground arith)
present_some (some text) e = ground arith

-- `session.get(R, id) if id else None`
abbrev get_present {ℓ} : {R : Type ℓ} → Option String → Table R → Option R
get_present none t = none
get_present (some id) t = lookup id t

unfoldable pub get_if {ℓ} : {R : Type ℓ} → Option String → Table R → Option R
get_if id t = get_present (present id) t

module _ {W : Type 0} (services : Services W) where
  -- the readings under `try` of `_capture_containment_snapshots`
  unfoldable pub read_snapshot :
      String → Option String → String → String → W → Result String ContainmentSnapshot
  read_snapshot wid baseline canonical candidate w = do
    head ← services.current_head w canonical
    tracked ← services.tracked_worktree_paths w canonical
    staged ← services.staged_paths w canonical
    hashes ← services.capture_untracked_file_hashes w canonical
    candidate_head ← services.current_head w candidate
    changed ← services.changed_paths w candidate
    ok record {
      workflow_id = wid;
      canonical_repository_path = canonical;
      candidate_workspace_path = candidate;
      baseline_commit = baseline;
      canonical_head = head;
      canonical_tracked_paths = tracked;
      canonical_staged_paths = staged;
      protected_untracked_hashes = hashes;
      candidate_head = candidate_head;
      candidate_changed_paths = changed;
    }

  -- the snapshot of one workflow, or the error for which the loop goes on without it
  unfoldable pub workflow_snapshot :
      List String → Shift W → String → PersistentWorkflow → Result String ContainmentSnapshot
  workflow_snapshot allowed shift wid wf = do
    raise_when (not (is_empty allowed) && not (mem wid allowed)) "skipped"
    freeze ← found "skipped" (get_if wf.plan_freeze_id shift.session.freezes)
    location ← found "skipped" (get_if wf.repository_id shift.session.registrations)
    raise_when (wf.worktree_path == "") "skipped"
    read_snapshot wid freeze.commit_sha (services.resolve shift.world location)
        (services.resolve shift.world wf.worktree_path) shift.world

  abbrev add_snapshot :
      String
      → Result String ContainmentSnapshot
      → Table ContainmentSnapshot
      → Table ContainmentSnapshot
  add_snapshot wid (ok snapshot) rest = (wid, snapshot) ∷ rest
  add_snapshot wid (err reason) rest = rest

  -- `_capture_containment_snapshots`, over the workflows of the session
  unfoldable pub capture_snapshots :
      List String → Shift W → Table PersistentWorkflow → Table ContainmentSnapshot
  capture_snapshots allowed shift [] = []
  capture_snapshots allowed shift ((wid, wf) ∷ workflows) =
      add_snapshot wid (workflow_snapshot allowed shift wid wf)
        (capture_snapshots allowed shift workflows)

  -- the tests of `_prove_contained_failure` on the snapshot, which return it with its baseline
  unfoldable pub safe_before :
      Option ContainmentSnapshot → Result String (ContainmentSnapshot × String)
  safe_before before = do
    snapshot ← found "CONTAINMENT_SNAPSHOT_MISSING" before
    baseline ← found "FROZEN_BASELINE_COMMIT_REQUIRED" (present snapshot.baseline_commit)
    raise_when (not (snapshot.canonical_head == baseline)) "CANONICAL_HEAD_UNSAFE_BEFORE_FAILURE"
    raise_when
        (not (is_empty snapshot.canonical_tracked_paths)
          || not (is_empty snapshot.canonical_staged_paths))
        "CANONICAL_DIRTY_BEFORE_FAILURE"
    raise_when
        (not (snapshot.candidate_head == baseline)
          || not (is_empty snapshot.candidate_changed_paths))
        "CANDIDATE_UNSAFE_BEFORE_FAILURE"
    ok (snapshot, baseline)

  -- a reading of Git, whose error becomes the reason of the result
  abbrev pub checked : {A : Type 0} → Result String A → Result String A
  checked (ok a) = ok a
  checked (err code) = err (append "CONTAINMENT_GIT_CHECK_FAILED:" code)

  -- the readings after the failure, which return the head and the changes of the candidate
  unfoldable pub safe_after :
      ContainmentSnapshot → String → W → Result String (String × List String)
  safe_after snapshot baseline w = do
    let path = snapshot.canonical_repository_path
    head ← checked (services.current_head w path)
    raise_when (not (head == baseline)) "FAILED_TASK_ADVANCED_CANONICAL_HEAD"
    staged ← checked (services.staged_paths w path)
    raise_when (not (is_empty staged)) "FAILED_TASK_LEFT_CANONICAL_STAGED_CHANGES"
    tracked ← checked (services.tracked_worktree_paths w path)
    raise_when (not (is_empty tracked)) "FAILED_TASK_LEFT_CANONICAL_TRACKED_CHANGES"
    checked (services.verify_untracked_file_hashes w path snapshot.protected_untracked_hashes)
    observed ← checked (services.changed_paths w path)
    raise_when
        (not (
          is_empty (
            keep
              (λ p.
                not
                  (mem p (map (λ (h : String × String). h.0) snapshot.protected_untracked_hashes)))
              observed)))
        "FAILED_TASK_LEFT_UNAUTHORIZED_CANONICAL_CHANGES"
    candidate_head ← checked (services.current_head w snapshot.candidate_workspace_path)
    changes ← checked (services.changed_paths w snapshot.candidate_workspace_path)
    ok (candidate_head, changes)

  abbrev quarantined_row : String → ℕ → PersistentWorkflow → PersistentWorkflow
  quarantined_row reason now wf = record wf {
    workflow_state = PersistentWorkflowState.blocked;
    active_task_id = none;
    checkpoint_history = wf.checkpoint_history ++ quarantine_entry reason now ∷ [];
    updated_at = now;
  }

  abbrev quarantine_found : String → String → ℕ → Option PersistentWorkflow → Session → Session
  quarantine_found wid reason now none s = s
  quarantine_found wid reason now (some wf) s = record s {
    workflows = insert wid (quarantined_row reason now wf) s.workflows;
  }

  -- `_quarantine_failed_candidate`
  unfoldable pub quarantine_failed_candidate : String → String → Shift W → Session
  quarantine_failed_candidate wid reason shift =
      quarantine_found wid reason (services.utc_now shift.world)
        (lookup wid shift.session.workflows) shift.session

  abbrev pub contained_as : String → Bool → ContainmentResult
  contained_as reason quarantined = record {
    status = contained;
    reason = reason;
    candidate_quarantined = quarantined;
  }

  -- the quarantine of a candidate that the failed task changed
  unfoldable pub contain_candidate :
      String → ContainmentSnapshot → String → List String → Shift W → ContainmentResult × Session
  contain_candidate wid snapshot head changes shift =
      if not (head == snapshot.candidate_head)
      then (
        contained_as "FAILED_CANDIDATE_QUARANTINED" true,
        quarantine_failed_candidate wid "FAILED_TASK_CHANGED_CANDIDATE_HEAD" shift,
      )
      else if not (is_empty changes)
      then (
        contained_as "FAILED_CANDIDATE_QUARANTINED" true,
        quarantine_failed_candidate wid "FAILED_TASK_LEFT_CANDIDATE_CHANGES" shift,
      )
      else (contained_as "TASK_LOCAL_FAILURE_CONTAINED" false, shift.session)

  -- the two rounds of tests of `_prove_contained_failure`
  unfoldable pub containment_evidence :
      Option ContainmentSnapshot → W → Result String (ContainmentSnapshot × String × List String)
  containment_evidence before w = do
    (snapshot, baseline) ← safe_before before
    (head, changes) ← safe_after snapshot baseline w
    ok (snapshot, head, changes)

  abbrev contain_with :
      String
      → Result String (ContainmentSnapshot × String × List String)
      → Shift W
      → ContainmentResult × Session
  contain_with wid (err reason) shift = (
    record { status = not_contained; reason = reason; candidate_quarantined = false },
    shift.session,
  )
  contain_with wid (ok (snapshot, head, changes)) shift =
      contain_candidate wid snapshot head changes shift

  unfoldable pub prove_contained_failure :
      String → Option ContainmentSnapshot → Shift W → ContainmentResult × Session
  prove_contained_failure wid before shift =
      contain_with wid (containment_evidence before shift.world) shift
