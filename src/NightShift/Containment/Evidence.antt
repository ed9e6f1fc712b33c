-- ===== src/NightShift/Containment/Evidence.antt =====
-- night_shift/supervisor.py: what a proved containment says of the repositories.
use lucius_engineering.Prelude.{
  String, ◌≡◌, refl, ◌⊎◌, Bool, true, false, not, Option, none, some, List, [], ◌∷◌, map, ◌==◌,
  eq_iff, keep, mem, mem_iff, is_empty, In, In-keep, Table, lookup, lookup-insert_self, ok, inl,
  inr, arith, Bool-cases, Result-cases, Option-cases,
}
use lucius_engineering.Domain.Enums.{PersistentWorkflowState}
use lucius_engineering.Persistence.Orm.{PersistentWorkflow}
use lucius_engineering.NightShift.Services.{Services, Shift}
use lucius_engineering.NightShift.Containment.{
  ContainmentSnapshot, contained, present, present_some, safe_before, safe_after,
  quarantine_failed_candidate, contain_candidate, containment_evidence, prove_contained_failure,
}

module _ {W : Type 0} (services : Services W) where
  -- The canonical repository as it was and as it is: at the baseline, with no change to a file that Git
  -- tracks, no new file, and the files that Git does not track verified against their hashes.
  abbrev pub IsUntouched : ContainmentSnapshot → String → W → Type 0
  IsUntouched snapshot baseline w =
      (snapshot.baseline_commit ≡ some baseline)
      × (snapshot.canonical_head ≡ baseline)
      × (snapshot.candidate_head ≡ baseline)
      × (services.current_head w snapshot.canonical_repository_path ≡ ok baseline)
      × (services.staged_paths w snapshot.canonical_repository_path ≡ ok [])
      × (services.tracked_worktree_paths w snapshot.canonical_repository_path ≡ ok [])
      × (services.verify_untracked_file_hashes w snapshot.canonical_repository_path
            snapshot.protected_untracked_hashes
          ≡ ok tt)
      × ((observed : List String) × (services.changed_paths w snapshot.canonical_repository_path
            ≡ ok observed)
          × ((path : String)
              → In path observed
              → In path (map (λ (h : String × String). h.0) snapshot.protected_untracked_hashes)))

  -- The candidate is as it was, or its workflow is blocked and has no active task.
  abbrev pub IsSetAside : String → ContainmentSnapshot → Shift W → Table PersistentWorkflow → Type 0
  IsSetAside wid snapshot shift workflows =
      ((services.current_head shift.world snapshot.candidate_workspace_path
          ≡ ok snapshot.candidate_head)
        × (services.changed_paths shift.world snapshot.candidate_workspace_path ≡ ok []))
      ⊎ ((wf : PersistentWorkflow)
          → lookup wid workflows ≡ some wf
          → (wf.workflow_state ≡ PersistentWorkflowState.blocked) × (wf.active_task_id ≡ none))

  empty_to : {A : Type 0} (xs : List A) → not (is_empty xs) ≡ false → xs ≡ []
  empty_to [] e = refl
  empty_to (x ∷ xs) e = absurd (ground arith)

  empty_no : {A : Type 0} {x : A} (xs : List A) → is_empty xs ≡ true → ¬ In x xs
  empty_no [] e i = elim i [ ]
  empty_no (y ∷ ys) e i = ground arith

  only_kept :
      (p : String → Bool) (xs : List String) (x : String)
      → is_empty (keep (λ y. not (p y)) xs) ≡ true
      → In x xs
      → p x ≡ true
  only_kept p xs x e i = elim (Bool-cases (p x)) [
    | inl t ↦ t
    | inr f ↦
        absurd (empty_no (keep (λ y. not (p y)) xs) e (In-keep (λ y. not (p y)) x xs i (rw f refl)))
  ]

  safe_before-IsSafe :
      (before : Option ContainmentSnapshot) (snapshot : ContainmentSnapshot) (baseline : String)
      → safe_before services before ≡ ok (snapshot, baseline)
      → (before ≡ some snapshot)
        × (present snapshot.baseline_commit ≡ some baseline)
        × (snapshot.canonical_head ≡ baseline)
        × (snapshot.candidate_head ≡ baseline)
  unfolding safe_before
  safe_before-IsSafe none snapshot baseline e = absurd (ground arith)
  safe_before-IsSafe (some given) snapshot baseline e =
      elim (Option-cases (present given.baseline_commit)) [
        | inl q ↦ absurd (ground (arith, rw q at e))
        | inr (b, q) ↦
            ground
              (arith, q, rw q at e, eq_iff given.canonical_head b, eq_iff given.candidate_head b)
      ]

  abbrev pub keys : Table String → List String
  keys = map (λ (h : String × String). h.0)

  safe_after-IsSafe :
      (snapshot : ContainmentSnapshot) (baseline head : String) (changes : List String) (w : W)
      → safe_after services snapshot baseline w ≡ ok (head, changes)
      → (services.current_head w snapshot.canonical_repository_path ≡ ok baseline)
        × (services.staged_paths w snapshot.canonical_repository_path ≡ ok [])
        × (services.tracked_worktree_paths w snapshot.canonical_repository_path ≡ ok [])
        × (services.verify_untracked_file_hashes w snapshot.canonical_repository_path
              snapshot.protected_untracked_hashes
            ≡ ok tt)
        × ((observed : List String) × (services.changed_paths w snapshot.canonical_repository_path
              ≡ ok observed)
            × ((path : String)
                → In path observed
                → In path (keys snapshot.protected_untracked_hashes)))
        × (services.current_head w snapshot.candidate_workspace_path ≡ ok head)
        × (services.changed_paths w snapshot.candidate_workspace_path ≡ ok changes)
  unfolding safe_after
  safe_after-IsSafe snapshot baseline head changes w e =
      let path = snapshot.canonical_repository_path in
      elim (Result-cases (services.current_head w path)) [
        | inr (code, q) ↦ absurd (ground (arith, rw q at e))
        | inl (head₀, q) ↦ elim (Result-cases (services.changed_paths w path)) [
          | inr (code, p) ↦ absurd (ground (arith, rw p at (rw q at e)))
          | inl (observed, p) ↦
              let e' = rw p at (rw q at e) in
              let same = eq_iff head₀ baseline in
              (
                ground (arith, q, e', same),
                ground (arith, e'),
                ground (arith, e'),
                ground (arith, e'),
                (
                  observed,
                  p,
                  λ path' i. (mem_iff path' _).0 (
                      only_kept (λ y. mem y (keys snapshot.protected_untracked_hashes)) observed
                        path' (ground (arith, e')) i),
                ),
                ground (arith, e'),
                ground (arith, e'),
              )
        ]
      ]

  quarantine-blocked :
      (wid reason : String) (shift : Shift W) (wf : PersistentWorkflow)
      → lookup wid (quarantine_failed_candidate services wid reason shift).workflows ≡ some wf
      → (wf.workflow_state ≡ PersistentWorkflowState.blocked) × (wf.active_task_id ≡ none)
  unfolding quarantine_failed_candidate
  quarantine-blocked wid reason shift wf e =
      elim (Option-cases (lookup wid shift.session.workflows)) [
        | inl q ↦ absurd (ground (arith, q, rw q at e))
        | inr (row, q) ↦
            ground (arith, rw (lookup-insert_self wid _ shift.session.workflows) at (rw q at e))
      ]

  contain_candidate-IsSetAside :
      (wid : String) (snapshot : ContainmentSnapshot) (head : String) (changes : List String)
      (shift : Shift W)
      → services.current_head shift.world snapshot.candidate_workspace_path ≡ ok head
      → services.changed_paths shift.world snapshot.candidate_workspace_path ≡ ok changes
      → IsSetAside wid snapshot shift
          (contain_candidate services wid snapshot head changes shift).1.workflows
  unfolding contain_candidate
  contain_candidate-IsSetAside wid snapshot head changes shift p q =
      elim (Bool-cases (head == snapshot.candidate_head)) [
        | inr moved ↦ rw moved (inr (quarantine-blocked wid _ shift))
        | inl same ↦ rw same (elim (Bool-cases (is_empty changes)) [
          | inr changed ↦ rw changed (inr (quarantine-blocked wid _ shift))
          | inl clean ↦ inl (
            ground (arith, p, same, eq_iff head snapshot.candidate_head),
            ground (arith, q, clean),
          )
        ])
      ]

  -- A failure that the supervisor calls contained left the canonical repository at the frozen baseline,
  -- with nothing staged, no tracked change and no changed path but those that were untracked before,
  -- whose contents pass the verification against the hashes that were taken before; and the candidate
  -- is as it was, or its workflow is blocked with no active task.
  pub contained-IsUntouched :
      (wid : String) (before : Option ContainmentSnapshot) (shift : Shift W)
      → (prove_contained_failure services wid before shift).0.status ≡ contained
      → (snapshot : ContainmentSnapshot) × (baseline : String) × (before ≡ some snapshot)
        × IsUntouched snapshot baseline shift.world
        × IsSetAside wid snapshot shift
            (prove_contained_failure services wid before shift).1.workflows
  unfolding prove_contained_failure containment_evidence
  contained-IsUntouched wid before shift e = elim (Result-cases (safe_before services before)) [
    | inr (reason, p) ↦ absurd (ground (arith, rw p at e))
    | inl ((snapshot, baseline), p) ↦
        elim (Result-cases (safe_after services snapshot baseline shift.world)) [
          | inr (reason, q) ↦ absurd (ground (arith, rw q at (rw p at e)))
          | inl ((head, changes), q) ↦
              let (here', base, h₀, h₁) = safe_before-IsSafe before snapshot baseline p in
              let (now, staged, tracked, hashes, observed, c₀, c₁) =
                safe_after-IsSafe snapshot baseline head changes shift.world q in
              (
                snapshot,
                baseline,
                here',
                (
                  present_some snapshot.baseline_commit base,
                  h₀,
                  h₁,
                  now,
                  staged,
                  tracked,
                  hashes,
                  observed,
                ),
                rw p (rw q (contain_candidate-IsSetAside wid snapshot head changes shift c₀ c₁)),
              )
        ]
  ]
