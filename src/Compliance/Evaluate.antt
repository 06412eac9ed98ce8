-- ===== src/Compliance/Evaluate.antt =====
-- internal/compliance/evaluate.go: the evaluation of one model version against a framework.
pub mod Evidenced
pub mod Conformant
mod Tests
use cupel.Base.{
  ℕ, suc, Bool, true, false, not, Option, none, some, List, [], ◌∷◌, String, if◌then◌else◌, ltb,
  ◌==◌, length, is_blank, map, select,
}
use cupel.Compliance.Catalog.{
  Automation, automation_full, automation_partial, automation_none, EvidenceKind, Control, Coverage,
  coverage,
}
use cupel.Compliance.Observed.{
  Status, satisfied, partially_satisfied, not_satisfied, attested, attestation_required,
  not_applicable, is_open, TrustCharacteristic, Evidence, Attestation, Warning, no_warning,
  no_expiry, Reason, unjustified, scoped_out, attested_with, because, not_produced, evidence_plus,
  remainder_of, Result, flaw, observed, unmeasured, attestation_for, justification,
}

-- The kinds of the control's evidence that are present, and those that are not.
pub seen_of : (EvidenceKind → Bool) → List EvidenceKind → List EvidenceKind
seen_of present kinds = select present kinds

pub missing_of : (EvidenceKind → Bool) → List EvidenceKind → List EvidenceKind
missing_of present kinds = select (λ kind. not (present kind)) kinds

-- What the attestation on file, if any, says: the attester if it is valid, and the warning.
pub data Standing : Type 0 where
  unattested : Warning → Standing
  attested_by_person : Attestation → Warning → Standing

expiry_warning : Option ℕ → Warning
expiry_warning none = no_expiry
expiry_warning (some t) = no_warning

judged : Attestation → Option Warning → Standing
unfolding expiry_warning
judged a (some why) = unattested why
judged a none = attested_by_person a (expiry_warning a.expires_at)

pub standing : ℕ → Option Attestation → Standing
unfolding judged
standing now none = unattested no_warning
standing now (some a) = judged a (flaw now a)

attester : Standing → String
attester (unattested w) = ""
attester (attested_by_person a w) = a.attested_by

warning_of : Standing → Warning
warning_of (unattested w) = w
warning_of (attested_by_person a w) = w

decide : String → Automation → (seen missing : List EvidenceKind) → Standing → Status × Reason
decide rationale automation_none seen missing (unattested w) =
    (attestation_required, because rationale)
decide rationale automation_none seen missing (attested_by_person a w) =
    (attested, attested_with a.attested_by a.statement)
decide rationale automation_full seen [] stand = (satisfied, because rationale)
decide rationale automation_full seen (k ∷ ks) stand = (not_satisfied, not_produced (k ∷ ks))
decide rationale automation_partial seen (k ∷ ks) stand = (not_satisfied, not_produced (k ∷ ks))
decide rationale automation_partial seen [] (unattested w) =
    (partially_satisfied, remainder_of seen rationale)
decide rationale automation_partial seen [] (attested_by_person a w) =
    (satisfied, evidence_plus seen a.attested_by)

-- The final switch of `evaluateControl`, given the kinds seen and missing.
pub conclude : Control → (seen missing : List EvidenceKind) → Standing → Status × Reason
unfolding decide
conclude ctrl seen missing stand = decide ctrl.rationale ctrl.automation seen missing stand

-- `evaluateControl` for a control that is in scope.
pub evaluate_in_scope : Control → (EvidenceKind → Bool) → Option Attestation → ℕ → Result
unfolding attester warning_of
evaluate_in_scope ctrl present attestation now =
    let stand = standing now attestation in
    let seen = seen_of present ctrl.evidence in
    let missing = missing_of present ctrl.evidence in
    let verdict = conclude ctrl seen missing stand in
    record {
      control = ctrl;
      status = verdict.0;
      reason = verdict.1;
      evidence_seen = seen;
      evidence_missing = missing;
      attested_by = attester stand;
      warning = warning_of stand;
    }

-- A control whose entry among the exclusions has a text.
excluded : Control → String → Result
excluded ctrl why = record {
  control = ctrl;
  status = if is_blank why then attestation_required else not_applicable;
  reason = if is_blank why then unjustified else scoped_out why;
  evidence_seen = [];
  evidence_missing = [];
  attested_by = "";
  warning = no_warning;
}

evaluate_unless : Option String → Control → (EvidenceKind → Bool) → Option Attestation → ℕ → Result
unfolding excluded
evaluate_unless (some why) ctrl present attestation now = excluded ctrl why
evaluate_unless none ctrl present attestation now = evaluate_in_scope ctrl present attestation now

pub evaluate_control :
    Control → (EvidenceKind → Bool) → List Attestation → List (String × String) → ℕ → Result
unfolding evaluate_unless
evaluate_control ctrl present attestations scope now =
    evaluate_unless (justification scope ctrl.id) ctrl present
      (attestation_for attestations ctrl.id) now

pub status_severity : Status → ℕ
status_severity not_satisfied = 3
status_severity partially_satisfied = 2
status_severity attestation_required = 1
status_severity satisfied = 0
status_severity attested = 0
status_severity not_applicable = 0

-- The stable sort of `OpenControls`: a result goes before the first one that is no worse.
pub insert_open : Result → List Result → List Result
insert_open r [] = r ∷ []
insert_open r (x ∷ xs) =
    let later = insert_open r xs in
    if ltb (status_severity r.status) (status_severity x.status) then x ∷ later else r ∷ x ∷ xs

pub open_controls : List Result → List Result
open_controls [] = []
open_controls (r ∷ rs) =
    let rest = open_controls rs in if is_open r.status then insert_open r rest else rest

pub count_status : (Status → Bool) → List Result → ℕ
count_status is [] = 0
count_status is (r ∷ rs) = let rest = count_status is rs in if is r.status then suc rest else rest

pub record Assessment : Type 0 where
  pub framework : String
  pub coverage_of : Coverage
  pub results : List Result
  pub unmeasured_of : List TrustCharacteristic
  pub conformant : Bool

-- `Evaluate`; the catalog is its name and its controls in order. The counts are `count_status`.
pub evaluate :
    String → List Control → Evidence → List Attestation → List (String × String) → ℕ → Assessment
evaluate framework controls ev attestations scope now =
    let results =
      map (λ ctrl. evaluate_control ctrl (observed ev) attestations scope now) controls in
    record {
      framework = framework;
      coverage_of = coverage controls;
      results = results;
      unmeasured_of = unmeasured ev;
      conformant = length (open_controls results) == 0;
    }
