-- ===== src/Compliance/Evaluate/Conformant.antt =====
-- The outcome of an assessment in internal/compliance/evaluate.go.
use cupel.Base.{
  ℕ, suc, ◌+◌, ◌≤◌, ◌≡◌, ◌↔◌, ◌∙◌, ◌≢◌, inl, inr, refl, sym, ap, true, false, not, List, [], ◌∷◌,
  String, map, length, All, ltb, ◌==◌, arith, Bool-cases,
}
use cupel.Compliance.Catalog.{Control}
use cupel.Compliance.Observed.{is_open, Evidence, Attestation, Result, observed}
use cupel.Compliance.Evaluate.{
  evaluate_control, status_severity, insert_open, open_controls, count_status, evaluate,
}

-- The statuses do not get worse along the list.
abbrev pub WorstFirst : List Result → Type 0
WorstFirst [] = Unit
WorstFirst (r ∷ rs) =
    All (λ x. status_severity x.status ≤ status_severity r.status) rs × WorstFirst rs

All-insert_open :
    (bound : ℕ) (r : Result) (xs : List Result)
    → status_severity r.status ≤ bound
    → All (λ x. status_severity x.status ≤ bound) xs
    → All (λ x. status_severity x.status ≤ bound) (insert_open r xs)
unfolding insert_open
All-insert_open bound r [] h all = (h, tt)
All-insert_open bound r (x ∷ xs) h all =
    elim (Bool-cases (ltb (status_severity r.status) (status_severity x.status))) [
      | inl later ↦ rw later (all.0, All-insert_open bound r xs h all.1)
      | inr here ↦ rw here (h, all)
    ]

All-weaken :
    (low high : ℕ) (xs : List Result)
    → low ≤ high
    → All (λ x. status_severity x.status ≤ low) xs
    → All (λ x. status_severity x.status ≤ high) xs
All-weaken low high [] h all = tt
All-weaken low high (x ∷ xs) h all = (omega (arith, h, all.0), All-weaken low high xs h all.1)

WorstFirst-insert_open :
    (r : Result) (xs : List Result) → WorstFirst xs → WorstFirst (insert_open r xs)
unfolding insert_open
WorstFirst-insert_open r [] sorted = (tt, tt)
WorstFirst-insert_open r (x ∷ xs) sorted =
    elim (Bool-cases (ltb (status_severity r.status) (status_severity x.status))) [
      | inl later ↦ rw later (
        All-insert_open (status_severity x.status) r xs (ground arith) sorted.0,
        WorstFirst-insert_open r xs sorted.1,
      )
      | inr here ↦
          let worse : status_severity x.status ≤ status_severity r.status = ground arith in
          rw here (
            (
              worse,
              All-weaken (status_severity x.status) (status_severity r.status) xs worse sorted.0,
            ),
            sorted,
          )
    ]

length-insert_open : (r : Result) (xs : List Result) → length (insert_open r xs) ≡ suc (length xs)
unfolding insert_open
length-insert_open r [] = refl
length-insert_open r (x ∷ xs) =
    elim (Bool-cases (ltb (status_severity r.status) (status_severity x.status))) [
      | inl later ↦ rw later (ap suc (length-insert_open r xs))
      | inr here ↦ rw here refl
    ]

WorstFirst-open_controls : (rs : List Result) → WorstFirst (open_controls rs)
unfolding open_controls
WorstFirst-open_controls [] = tt
WorstFirst-open_controls (r ∷ rs) = elim (Bool-cases (is_open r.status)) [
  | inl opened ↦ rw opened (WorstFirst-insert_open r _ (WorstFirst-open_controls rs))
  | inr closed ↦ rw closed (WorstFirst-open_controls rs)
]

length-open_controls : (rs : List Result) → length (open_controls rs) ≡ count_status is_open rs
unfolding open_controls count_status
length-open_controls [] = refl
length-open_controls (r ∷ rs) = elim (Bool-cases (is_open r.status)) [
  | inl opened ↦ rw (opened, length-insert_open) (ap suc (length-open_controls rs))
  | inr closed ↦ rw closed (length-open_controls rs)
]

suc≢zero : (n : ℕ) → suc n ≢ 0
suc≢zero n h = omega arith

count_status-split :
    (rs : List Result)
    → count_status is_open rs + count_status (λ status. not (is_open status)) rs ≡ length rs
unfolding count_status
count_status-split [] = refl
count_status-split (r ∷ rs) = elim (Bool-cases (is_open r.status)) [
  | inl opened ↦ rw opened (omega (arith, count_status-split rs))
  | inr closed ↦ rw closed (omega (arith, count_status-split rs))
]

-- The open controls of an assessment come worst first, and they and the closed ones are as many as
-- all results.
pub open_controls-WorstFirst :
    (rs : List Result)
    → WorstFirst (open_controls rs)
      × (length (open_controls rs) + count_status (λ status. not (is_open status)) rs ≡ length rs)
open_controls-WorstFirst rs =
    (WorstFirst-open_controls rs, rw length-open_controls (count_status-split rs))

module _ (f : Control → Result) where
  none_open :
      (controls : List Control)
      → count_status is_open (map f controls) ≡ 0
      → All (λ c. is_open (f c).status ≡ false) controls
  unfolding count_status
  none_open [] h = tt
  none_open (c ∷ controls) h = elim (Bool-cases (is_open (f c).status)) [
    | inl opened ↦ absurd (suc≢zero _ (rw opened at h))
    | inr closed ↦ (closed, none_open controls (rw closed at h))
  ]

  All-closed :
      (controls : List Control)
      → All (λ c. is_open (f c).status ≡ false) controls
      → count_status is_open (map f controls) ≡ 0
  unfolding count_status
  All-closed [] h = refl
  All-closed (c ∷ controls) h = rw (h.0) (All-closed controls h.1)

eq_zero : (n : ℕ) → n == 0 ≡ true → n ≡ 0
eq_zero n h = ground arith

zero_eq : (n : ℕ) → n ≡ 0 → n == 0 ≡ true
zero_eq n h = ground arith

-- A model version conforms exactly when every control of the framework is closed for it.
pub conformant-iff-closed :
    (framework : String) (controls : List Control) (ev : Evidence) (attestations : List Attestation)
    (scope : List (String × String)) (now : ℕ)
    → ((evaluate framework controls ev attestations scope now).conformant ≡ true)
      ↔ All
          (λ ctrl.
            is_open (evaluate_control ctrl (observed ev) attestations scope now).status ≡ false)
          controls
unfolding evaluate
conformant-iff-closed framework controls ev attestations scope now = (
  (λ h. none_open result controls (sym (length-open_controls (map result controls)) ∙ eq_zero _ h)),
  (λ all. zero_eq _ (length-open_controls (map result controls) ∙ All-closed result controls all)),
)
  where
    result : Control → Result
    result ctrl = evaluate_control ctrl (observed ev) attestations scope now
