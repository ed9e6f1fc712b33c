-- ===== src/Pilots/Workflows/Checks.antt =====
-- What the checks of a resume decide.
use lucius_engineering.Prelude.{
  ◌≡◌, ◌↔◌, refl, Bool, true, false, not, List, [], ◌∷◌, arith, All, any, keep, is_empty, In, here,
  there, In-keep, In-of_keep, Bool-cases, inl, inr,
}
use lucius_engineering.Domain.Enums.{ResumeValidationResult}
use lucius_engineering.Domain.Json.{JsonDict}
use lucius_engineering.Pilots.Workflows.Checkpoints.{has_passed, is_blocking, resume_result}

abbrev failed_checks : List JsonDict → List JsonDict
failed_checks = keep (λ c. not (has_passed c))

none_failed :
    (checks : List JsonDict)
    → is_empty (failed_checks checks) ≡ true
    → All (λ c. has_passed c ≡ true) checks
unfolding keep
none_failed [] h = tt
none_failed (c ∷ cs) h = elim (Bool-cases (has_passed c)) [
  | inl q ↦ (q, none_failed cs (rw q at h))
  | inr q ↦ absurd (ground (arith, q, h))
]

All-passed :
    (checks : List JsonDict)
    → All (λ c. has_passed c ≡ true) checks
    → is_empty (failed_checks checks) ≡ true
unfolding keep
All-passed [] h = refl
All-passed (c ∷ cs) h = rw h.0 (All-passed cs h.1)

any-In {ℓ} :
    {A : Type ℓ} (p : A → Bool) (xs : List A) → any p xs ≡ true → (a : A) × In a xs × (p a ≡ true)
unfolding any
any-In p [] h = absurd (ground (arith, h))
any-In p (x ∷ xs) h = elim (Bool-cases (p x)) [
  | inl q ↦ (x, here, q)
  | inr q ↦ let (a, m, e) = any-In p xs (rw q at h) in (a, there m, e)
]

In-any {ℓ} :
    {A : Type ℓ} (p : A → Bool) {a : A} (xs : List A) → In a xs → p a ≡ true → any p xs ≡ true
unfolding any
In-any p [] m e = elim m [ ]
In-any p (x ∷ xs) here e = rw e refl
In-any p (x ∷ xs) (there m) e = elim (Bool-cases (p x)) [
  | inl q ↦ rw q refl
  | inr q ↦ rw q (In-any p xs m e)
]

-- A failed check of the list is blocking.
abbrev pub HasBlocking : List JsonDict → Type 0
HasBlocking checks =
    (check : JsonDict) × In check checks × (has_passed check ≡ false) × (is_blocking check ≡ true)

is_false_of_not : (b : Bool) → not b ≡ true → b ≡ false
is_false_of_not true h = absurd (ground (arith, h))
is_false_of_not false h = refl

empty_any {ℓ} : {A : Type ℓ} (p : A → Bool) (xs : List A) → any p xs ≡ true → is_empty xs ≡ false
unfolding any
empty_any p [] h = absurd (ground (arith, h))
empty_any p (x ∷ xs) h = refl

safe_iff :
    (checks : List JsonDict)
    → (resume_result checks ≡ ResumeValidationResult.safe_to_resume)
      ↔ (is_empty (failed_checks checks) ≡ true)
unfolding resume_result
safe_iff checks = (to, from)
  where
    to :
        resume_result checks ≡ ResumeValidationResult.safe_to_resume
        → is_empty (failed_checks checks) ≡ true
    to h = ground arith

    from :
        is_empty (failed_checks checks) ≡ true
        → resume_result checks ≡ ResumeValidationResult.safe_to_resume
    from h = ground arith

blocked_iff :
    (checks : List JsonDict)
    → (resume_result checks ≡ ResumeValidationResult.blocked)
      ↔ (any is_blocking (failed_checks checks) ≡ true)
unfolding resume_result
blocked_iff checks = (to, from)
  where
    to :
        resume_result checks ≡ ResumeValidationResult.blocked
        → any is_blocking (failed_checks checks) ≡ true
    to h = ground arith

    from :
        any is_blocking (failed_checks checks) ≡ true
        → resume_result checks ≡ ResumeValidationResult.blocked
    from h = let full = empty_any is_blocking (failed_checks checks) h in ground arith

blocking_iff :
    (checks : List JsonDict) → (any is_blocking (failed_checks checks) ≡ true) ↔ HasBlocking checks
blocking_iff checks = (to, from)
  where
    to : any is_blocking (failed_checks checks) ≡ true → HasBlocking checks
    to h =
        let (c, m, e) = any-In is_blocking (failed_checks checks) h in
        let (i, q) = In-of_keep (λ d. not (has_passed d)) c checks m in
        (c, i, is_false_of_not (has_passed c) q, e)

    from : HasBlocking checks → any is_blocking (failed_checks checks) ≡ true
    from (c, i, q, e) =
        In-any is_blocking (failed_checks checks)
          (In-keep (λ d. not (has_passed d)) c checks i (rw q refl)) e

-- A resume is safe exactly when every check has passed, and blocked exactly when a check that has
-- not passed is blocking.
pub resume_result_decides :
    (checks : List JsonDict)
    → ((resume_result checks ≡ ResumeValidationResult.safe_to_resume)
        ↔ All (λ c. has_passed c ≡ true) checks)
      × ((resume_result checks ≡ ResumeValidationResult.blocked) ↔ HasBlocking checks)
resume_result_decides checks = (
  (
    (λ h. none_failed checks ((safe_iff checks).0 h)),
    (λ h. (safe_iff checks).1 (All-passed checks h)),
  ),
  (
    (λ h. (blocking_iff checks).0 ((blocked_iff checks).0 h)),
    (λ h. (blocked_iff checks).1 ((blocking_iff checks).1 h)),
  ),
)
