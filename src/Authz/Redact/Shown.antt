-- ===== src/Authz/Redact/Shown.antt =====
-- What internal/authz/redact.go shows of findings and of models.
use cupel.Base.{
  ℕ, suc, ◌+◌, ◌≡◌, inl, inr, refl, ap, Bool, true, false, not, ◌&&◌, List, [], ◌∷◌, String,
  if◌then◌else◌, length, map, select, All, ltb, arith, Bool-cases,
}
use cupel.Authz.Roles.{
  Subject, can, can_see_namespace, view_inventory, view_findings, view_finding_path,
}
use cupel.Authz.Redact.{
  Redaction, no_redaction, Finding, FindingView, view_of, redact_findings, ModelView, split_models,
  filter_models,
}

-- A row without the location and the description of the finding, and marked so.
pub record IsWithheld (v : FindingView) : Type 0 where
  pub no_location : v.location ≡ ""
  pub no_description : v.description ≡ ""
  pub marked : v.redacted ≡ true

views-IsWithheld :
    (scanner : String) (findings : List Finding)
    → All IsWithheld (map (view_of false scanner) findings)
unfolding view_of
views-IsWithheld scanner [] = tt
views-IsWithheld scanner (f ∷ findings) = (
  record { no_location = refl; no_description = refl; marked = refl },
  views-IsWithheld scanner findings,
)

length-views :
    (full : Bool) (scanner : String) (findings : List Finding)
    → length (map (view_of full scanner) findings) ≡ length findings
length-views full scanner [] = refl
length-views full scanner (f ∷ findings) = ap suc (length-views full scanner findings)

-- Unless the subject sees the tenant, may view findings and may view their paths, every row that it
-- is shown is without location and description, and marked as redacted.
pub paths_need_the_right :
    (s : Subject) (namespace : String) (findings : List Finding) (scanner : String)
    → (can_see_namespace s namespace && can s view_findings) && can s view_finding_path ≡ false
    → All IsWithheld (redact_findings s namespace findings scanner).0
unfolding redact_findings
paths_need_the_right s namespace findings scanner h =
    elim (Bool-cases (can_see_namespace s namespace)) [
      | inr outside ↦ rw outside tt
      | inl inside ↦ elim (Bool-cases (can s view_findings)) [
        | inr barred ↦ rw (inside, barred) tt
        | inl allowed ↦
            rw (inside, allowed, rw (inside, allowed) at h) (views-IsWithheld scanner findings)
      ]
    ]

none_hidden :
    (b : Bool) (r : Redaction)
    → r.hidden_findings ≡ 0
    → (if b then r else no_redaction).hidden_findings ≡ 0
none_hidden true r h = h
none_hidden false r h = refl

some_hidden :
    (n : ℕ) (r : Redaction)
    → r.hidden_findings ≡ n
    → (if ltb 0 n then r else no_redaction).hidden_findings ≡ n
some_hidden n r h = ground arith

-- No finding is lost silently: every finding is shown as a row or counted as hidden.
pub findings_are_accounted :
    (s : Subject) (namespace : String) (findings : List Finding) (scanner : String)
    → length (redact_findings s namespace findings scanner).0
        + (redact_findings s namespace findings scanner).1.hidden_findings
      ≡ length findings
unfolding redact_findings
findings_are_accounted s namespace findings scanner =
    elim (Bool-cases (can_see_namespace s namespace)) [
      | inr outside ↦ rw outside (omega arith)
      | inl inside ↦ elim (Bool-cases (can s view_findings)) [
        | inr barred ↦ rw (inside, barred) (omega arith)
        | inl allowed ↦
            rw (inside, allowed)
              (let shown = length-views (can s view_finding_path) scanner findings in
                let hidden =
                  none_hidden (not (can s view_finding_path) && ltb 0 (length findings))
                    (record no_redaction {
                      detail_withheld = true;
                      reason =
                          "location and description are limited to security and model-owner roles";
                    })
                    refl in
                rw (shown, hidden) (omega arith))
      ]
    ]

module _ {ℓ} {Details : Type ℓ} where
  select-step :
      (p : ModelView Details → Bool) (m : ModelView Details) (models : List (ModelView Details))
      → select p (m ∷ models) ≡ (if p m then m ∷ select p models else select p models)
  select-step p m models = elim (Bool-cases (p m)) [
    | inl yes_p ↦ rw yes_p refl
    | inr no_p ↦ rw no_p refl
  ]

  split-select :
      (s : Subject) (models : List (ModelView Details))
      → (split_models s models).0 ≡ select (λ m. can_see_namespace s m.namespace) models
  unfolding split_models
  split-select s [] = refl
  split-select s (m ∷ models) =
      rw select-step (elim (Bool-cases (can_see_namespace s m.namespace)) [
        | inl seen ↦ rw (seen, split-select s models) refl
        | inr hidden ↦ rw (hidden, split-select s models) refl
      ])

  split-count :
      (s : Subject) (models : List (ModelView Details))
      → length (split_models s models).0 + (split_models s models).1 ≡ length models
  unfolding split_models
  split-count s [] = refl
  split-count s (m ∷ models) = elim (Bool-cases (can_see_namespace s m.namespace)) [
    | inl seen ↦ rw seen (omega (arith, split-count s models))
    | inr hidden ↦ rw hidden (omega (arith, split-count s models))
  ]

  -- A subject that may view the inventory is shown the models of the tenants it sees, in their
  -- order, and any other subject none; the models that are left out are counted as hidden.
  pub models_are_filtered :
      (s : Subject) (models : List (ModelView Details))
      → ((filter_models s models).0 ≡ (
          if can s view_inventory
          then select (λ m. can_see_namespace s m.namespace) models
          else []))
        × (length (filter_models s models).0 + (filter_models s models).1.hidden_findings
            ≡ length models)
  unfolding filter_models
  models_are_filtered s models = elim (Bool-cases (can s view_inventory)) [
    | inr barred ↦ rw barred (refl, omega arith)
    | inl allowed ↦ rw allowed (
      split-select s models,
      rw
          (some_hidden (split_models s models).1
            (record no_redaction {
              hidden_findings = (split_models s models).1;
              reason = "models outside your assigned tenants are not shown";
            })
            refl)
          (split-count s models),
    )
  ]
