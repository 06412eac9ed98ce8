-- ===== src/Compliance/Evaluate/Evidenced.antt =====
-- What closes a control in internal/compliance/evaluate.go.
use cupel.Base.{
  ℕ, ◌≡◌, ◌≢◌, ◌↔◌, ◌⊎◌, inl, inr, refl, Bool, true, false, none, some, List, [], ◌∷◌, String, All,
  Bool-cases, Option-cases, is_blank,
}
use cupel.Compliance.Catalog.{
  Automation, automation_full, automation_partial, automation_none, EvidenceKind, Control,
}
use cupel.Compliance.Observed.{
  satisfied, is_open, Evidence, Attestation, Warning, flaw, observed, incomplete_scan_shows_nothing,
  attestation_for, justification,
}
use cupel.Compliance.Evaluate.{
  seen_of, missing_of, Standing, unattested, attested_by_person, standing, expiry_warning, judged,
  evaluate_unless, decide, conclude, evaluate_in_scope, excluded, evaluate_control,
}

-- The attestation on file for a control names a person, makes a statement and has not expired.
pub record HasValid (attestations : List Attestation) (id : String) (now : ℕ) : Type 0 where
  pub attestation : Attestation
  pub on_file : attestation_for attestations id ≡ some attestation
  pub unflawed : flaw now attestation ≡ none

-- All evidence of the control is present, and the control is fully automated, or a valid attestation
-- covers the rest of it.
pub record IsEvidenced (ctrl : Control) (present : EvidenceKind → Bool)
    (attestations : List Attestation) (now : ℕ) : Type 0 where
  pub all_present : All (λ kind. present kind ≡ true) ctrl.evidence
  pub closed_by :
      (ctrl.automation ≡ automation_full)
      ⊎ ((ctrl.automation ≡ automation_partial) × HasValid attestations ctrl.id now)

missing_of-none :
    (present : EvidenceKind → Bool) (kinds : List EvidenceKind)
    → missing_of present kinds ≡ []
    → All (λ kind. present kind ≡ true) kinds
unfolding missing_of
missing_of-none present [] h = tt
missing_of-none present (k ∷ ks) h = elim (Bool-cases (present k)) [
  | inl there ↦ (there, missing_of-none present ks (rw there at h))
  | inr gone ↦ cc (rw gone at h)
]

decide-satisfied :
    (rationale : String) (automation : Automation) (seen missing : List EvidenceKind)
    (stand : Standing)
    → (decide rationale automation seen missing stand).0 ≡ satisfied
    → (missing ≡ [])
      × ((automation ≡ automation_full)
          ⊎ ((automation ≡ automation_partial)
              × ((a : Attestation) × (w : Warning) × (stand ≡ attested_by_person a w))))
unfolding decide
decide-satisfied rationale automation_none seen missing (unattested w) h = cc
decide-satisfied rationale automation_none seen missing (attested_by_person a w) h = cc
decide-satisfied rationale automation_full seen [] stand h = (refl, inl refl)
decide-satisfied rationale automation_full seen (k ∷ ks) stand h = cc
decide-satisfied rationale automation_partial seen (k ∷ ks) stand h = cc
decide-satisfied rationale automation_partial seen [] (unattested w) h = cc
decide-satisfied rationale automation_partial seen [] (attested_by_person a w) h =
    (refl, inr (refl, (a, w, refl)))

standing-HasValid :
    (now : ℕ) (attestations : List Attestation) (id : String) (a : Attestation) (w : Warning)
    → standing now (attestation_for attestations id) ≡ attested_by_person a w
    → HasValid attestations id now
unfolding standing judged
standing-HasValid now attestations id a w h =
    elim (Option-cases (attestation_for attestations id)) [
      | inl missing ↦ cc (rw missing at h)
      | inr (b, found) ↦ elim (Option-cases (flaw now b)) [
        | inl sound ↦ record { attestation = b; on_file = found; unflawed = sound }
        | inr (why, flawed) ↦ cc (rw (found, flawed) at h)
      ]
    ]

HasValid-standing :
    (now : ℕ) (attestations : List Attestation) (id : String)
    → (v : HasValid attestations id now)
    → (w : Warning) × (standing now (attestation_for attestations id)
        ≡ attested_by_person v.attestation w)
unfolding standing judged expiry_warning
HasValid-standing now attestations id v =
    (expiry_warning v.attestation.expires_at, rw (v.on_file, v.unflawed) refl)

excluded-status : (ctrl : Control) (why : String) → (excluded ctrl why).status ≢ satisfied
unfolding excluded
excluded-status ctrl why h = elim (Bool-cases (is_blank why)) [
  | inl blank ↦ cc (rw blank at h)
  | inr given ↦ cc (rw given at h)
]

-- A control is reported as satisfied only if all its evidence is present and the control is fully
-- automated, or partially and a valid attestation is on file. So no control that only people can
-- answer for is ever satisfied.
pub satisfied-IsEvidenced :
    (ctrl : Control) (present : EvidenceKind → Bool) (attestations : List Attestation)
    (scope : List (String × String)) (now : ℕ)
    → (evaluate_control ctrl present attestations scope now).status ≡ satisfied
    → IsEvidenced ctrl present attestations now
unfolding evaluate_control evaluate_unless evaluate_in_scope conclude
satisfied-IsEvidenced ctrl present attestations scope now h =
    elim (Option-cases (justification scope ctrl.id)) [
      | inr (why, out) ↦
          absurd (excluded-status ctrl why (rw (evaluate_control, evaluate_unless, out) at h))
      | inl in_scope ↦
          let (nothing_missing, how) =
            decide-satisfied _ _ _ _ _ (rw (evaluate_control, in_scope) at h) in
          record {
            all_present = missing_of-none present ctrl.evidence nothing_missing;
            closed_by = elim how [
              | inl full ↦ inl full
              | inr (partial, (a, w, stands)) ↦
                  inr (partial, standing-HasValid now attestations ctrl.id a w stands)
            ];
          }
    ]

evaluate_control-in_scope :
    (ctrl : Control) (present : EvidenceKind → Bool) (attestations : List Attestation)
    (scope : List (String × String)) (now : ℕ)
    → justification scope ctrl.id ≡ none
    → evaluate_control ctrl present attestations scope now
      ≡ evaluate_in_scope ctrl present (attestation_for attestations ctrl.id) now
unfolding evaluate_control evaluate_unless
evaluate_control-in_scope ctrl present attestations scope now h = rw h refl

organizational_closed :
    (rationale : String) (seen missing : List EvidenceKind) (stand : Standing)
    → is_open (decide rationale automation_none seen missing stand).0 ≡ false
    → (a : Attestation) × (w : Warning) × (stand ≡ attested_by_person a w)
unfolding decide is_open
organizational_closed rationale seen missing (unattested w) h = cc
organizational_closed rationale seen missing (attested_by_person a w) h = (a, w, refl)

-- A control that only people can answer for and that is in scope is closed exactly when a valid
-- attestation is on file, whatever the scan has shown.
pub people_close_the_rest :
    (ctrl : Control) (present : EvidenceKind → Bool) (attestations : List Attestation)
    (scope : List (String × String)) (now : ℕ)
    → ctrl.automation ≡ automation_none
    → justification scope ctrl.id ≡ none
    → (is_open (evaluate_control ctrl present attestations scope now).status ≡ false)
      ↔ HasValid attestations ctrl.id now
unfolding evaluate_in_scope conclude decide is_open
people_close_the_rest ctrl present attestations scope now organizational in_scope =
    rw (evaluate_control-in_scope ctrl present attestations scope now in_scope, organizational)
      (
        (λ h.
            let (a, w, stands) =
              organizational_closed ctrl.rationale (seen_of present ctrl.evidence)
                (missing_of present ctrl.evidence) _ h in
            standing-HasValid now attestations ctrl.id a w stands),
        (λ v. let (w, stands) = HasValid-standing now attestations ctrl.id v in rw stands refl),
      )

-- A scan that is not complete satisfies no control that asks for evidence.
pub incomplete_scan_satisfies_nothing :
    (ctrl : Control) (ev : Evidence) (attestations : List Attestation)
    (scope : List (String × String)) (now : ℕ)
    → ev.scan_complete ≡ false
    → ctrl.evidence ≢ []
    → (evaluate_control ctrl (observed ev) attestations scope now).status ≢ satisfied
incomplete_scan_satisfies_nothing ctrl ev attestations scope now incomplete asks h = asks (
    nothing ctrl.evidence
      (satisfied-IsEvidenced ctrl (observed ev) attestations scope now h).all_present)
  where
    nothing : (kinds : List EvidenceKind) → All (λ kind. observed ev kind ≡ true) kinds → kinds ≡ []
    nothing [] all = refl
    nothing (k ∷ ks) all = absurd (incomplete_scan_shows_nothing ev incomplete k all.0)
