-- ===== src/Runtime/Mission/Reconcile/Status.antt =====
-- runtime/mission.py: what the status of a reconciled mission says.
use lucius_engineering.Prelude.{
  ℕ, ◌≤◌, ◌≡◌, ◌≢◌, ◌↔◌, refl, sym, subst, Bool, true, false, not, some, List, [], ◌∷◌, arith, inl,
  inr, length, keep, is_empty, In, here, In-cons, In-keep, In-of_keep, Bool-cases, if◌then◌else◌,
  max,
}
use lucius_engineering.Persistence.Orm.{WorkItem}
use lucius_engineering.Runtime.Mission.{MissionStatus, DurableMission, DurableWait}
use lucius_engineering.Runtime.Mission.Reconcile.{
  is_completed, is_ready, sleeps, sleeping_of, Situation, situation, status_for, reconciled,
}

keep-length : (p : WorkItem → Bool) (xs : List WorkItem) → length (keep p xs) ≤ length xs
unfolding keep
keep-length p [] = omega arith
keep-length p (x ∷ xs) = ground (arith, keep-length p xs)

-- When as many pass a test as there are, all pass it.
full-keep :
    (p : WorkItem → Bool) (xs : List WorkItem)
    → length (keep p xs) ≡ length xs
    → (x : WorkItem) → In x xs
    → p x ≡ true
unfolding keep
full-keep p [] h x m = elim m [ ]
full-keep p (y ∷ ys) h x m = elim (Bool-cases (p y)) [
  | inr e ↦ absurd (let short = keep-length p ys in ground (arith, short, rw e at h))
  | inl e ↦ elim (In-cons m) [
    | inl same ↦ subst (λ z. p z ≡ true) same e
    | inr n ↦ full-keep p ys (ground (arith, rw e at h)) x n
  ]
]

status_for-active :
    (old : MissionStatus) (s : Situation)
    → (status_for old s ≡ MissionStatus.active) ↔ (s.some_ready ≡ true)
unfolding status_for
status_for-active old s = ((λ e. ground arith), (λ e. ground arith))

status_for-completed :
    (old : MissionStatus) (s : Situation)
    → status_for old s ≡ MissionStatus.completed
    → (s.some_item ≡ true) × (s.some_wait ≡ false) × (s.all_completed ≡ true)
unfolding status_for
status_for-completed old s e = ground arith

status_for-status_for :
    (old : MissionStatus) (s : Situation) → status_for (status_for old s) s ≡ status_for old s
unfolding status_for
status_for-status_for old s = ground arith

sleeps-status_for :
    (old : MissionStatus) (s : Situation) → sleeps (status_for old s) s ≡ sleeps old s
unfolding status_for
sleeps-status_for old s = ground arith

max_again : (a b : ℕ) → max a (max a b) ≡ max a b
max_again a b = omega arith

if_again :
    {A : Type 0} (b : Bool) (x y : A) → (if b then x else if b then x else y) ≡ (if b then x else y)
if_again true x y = refl
if_again false x y = refl

empty_iff : {A : Type 0} (xs : List A) → (not (is_empty xs) ≡ false) ↔ (xs ≡ [])
empty_iff [] = ((λ _. refl), (λ _. refl))
empty_iff (x ∷ xs) = ((λ e. cc), (λ e. absurd (ground arith)))

some_kept :
    (p : WorkItem → Bool) (xs : List WorkItem)
    → (not (is_empty (keep p xs)) ≡ true) ↔ ((x : WorkItem) × In x xs × (p x ≡ true))
some_kept p xs = ((λ e. first_kept (keep p xs) refl e), (λ h. kept_some h))
  where
    first_kept :
        (ys : List WorkItem)
        → keep p xs ≡ ys
        → not (is_empty ys) ≡ true
        → (x : WorkItem) × In x xs × (p x ≡ true)
    first_kept [] q e = absurd (ground arith)
    first_kept (y ∷ ys) q e =
        let (i, h) = In-of_keep p y xs (subst (In y) (sym q) here) in (y, i, h)

    kept_some : (x : WorkItem) × In x xs × (p x ≡ true) → not (is_empty (keep p xs)) ≡ true
    kept_some (x, i, h) = elim (Bool-cases (is_empty (keep p xs))) [
      | inr e ↦ rw e refl
      | inl e ↦
          let none' = (empty_iff (keep p xs)).0 (rw e refl) in
          elim (subst (In x) none' (In-keep p x xs i h)) [ ]
    ]

-- A reconciled mission is COMPLETED only when there are items, all of them COMPLETED, and none of its
-- waits is open.
pub reconciled-completed :
    (now : ℕ) (items : List WorkItem) (open_waits : List DurableWait) (m : DurableMission)
    → (reconciled now items open_waits m).status ≡ MissionStatus.completed
    → (items ≢ []) × (open_waits ≡ []) × ((i : WorkItem) → In i items → is_completed i ≡ true)
unfolding reconciled situation
reconciled-completed now items open_waits m e =
    let (item, wait, done) = status_for-completed m.status (situation now items open_waits) e in
    (
      (λ none'. ground (arith, rw none' at item)),
      (empty_iff open_waits).0 wait,
      full-keep is_completed items (ground (arith, done)),
    )

-- A reconciled mission is ACTIVE exactly when an item is ready.
pub reconciled-active :
    (now : ℕ) (items : List WorkItem) (open_waits : List DurableWait) (m : DurableMission)
    → ((reconciled now items open_waits m).status ≡ MissionStatus.active)
      ↔ ((i : WorkItem) × In i items × (is_ready i ≡ true))
unfolding reconciled situation
reconciled-active now items open_waits m =
    let (to, back) = status_for-active m.status (situation now items open_waits) in
    let (first, kept) = some_kept is_ready items in ((λ e. first (to e)), (λ h. back (kept h)))

-- Reconciling once more at the same moment changes nothing.
pub reconciled-reconciled :
    (now : ℕ) (items : List WorkItem) (open_waits : List DurableWait) (m : DurableMission)
    → reconciled now items open_waits (reconciled now items open_waits m)
      ≡ reconciled now items open_waits m
unfolding reconciled
reconciled-reconciled now items open_waits m =
    let s = situation now items open_waits in
    rw
      (
        status_for-status_for m.status s,
        sleeps-status_for m.status s,
        max_again (length (keep is_completed items)) m.completed_tasks_count,
        if_again (sleeps m.status s) (some (sleeping_of open_waits)) m.sleeping_metadata,
      )
      refl

-- A reconciled mission has completed no fewer tasks than before.
pub reconciled-completed_grows :
    (now : ℕ) (items : List WorkItem) (open_waits : List DurableWait) (m : DurableMission)
    → m.completed_tasks_count ≤ (reconciled now items open_waits m).completed_tasks_count
unfolding reconciled
reconciled-completed_grows now items open_waits m = omega arith
