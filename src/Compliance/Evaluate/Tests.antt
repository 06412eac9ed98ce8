-- ===== src/Compliance/Evaluate/Tests.antt =====
-- Assessments of concrete models: the theorems applied, and tests by evaluation.
use cupel.Base.{
  ◌≡◌, ◌≢◌, ◌↔◌, refl, true, false, none, some, List, [], ◌∷◌, All, is_blank, trim_space, is_space,
}
use cupel.Compliance.Catalog.{automation_partial, automation_none, policy, Control}
use cupel.Compliance.Observed.{
  satisfied, partially_satisfied, is_open, Evidence, Attestation, flaw, observed, attestation_for,
  justification,
}
use cupel.Compliance.Evaluate.{
  evaluate_control, evaluate_unless, evaluate_in_scope, standing, judged, conclude, decide, seen_of,
  missing_of, evaluate,
}
use cupel.Compliance.Evaluate.Evidenced.{
  IsEvidenced, satisfied-IsEvidenced, incomplete_scan_satisfies_nothing,
}
use cupel.Compliance.Evaluate.Conformant.{conformant-iff-closed}

abbrev complete : Evidence
complete = record {
  scan_complete = true;
  verdict_given = "Approved";
  risk_scored = true;
  security_scanned = true;
  secrets_scanned = true;
  sbom_generated = true;
  aibom_generated = false;
  signature_verified = false;
  policy_ref = "default";
  inventoried = true;
  continuous_monitoring = false;
  admission_enforcing = true;
  residual_risks_documented = true;
  bias_evaluated = false;
}

abbrev partial_control : Control
partial_control = record {
  id = "GOVERN 1.2";
  function = "GOVERN";
  category = "GOVERN 1";
  text = "";
  automation = automation_partial;
  evidence = policy ∷ [];
  rationale = "an encoded policy";
}

abbrev organizational_control : Control
organizational_control = record {
  id = "GOVERN 1.1";
  function = "GOVERN";
  category = "GOVERN 1";
  text = "";
  automation = automation_none;
  evidence = [];
  rationale = "organizational";
}

abbrev attestations : List Attestation
attestations =
    record {
      control_id = "GOVERN 1.2";
      statement = "reviewed";
      attested_by = "dana";
      expires_at = some 900;
    }
    ∷ record {
      control_id = "GOVERN 1.1";
      statement = "trained";
      attested_by = "dana";
      expires_at = none;
    }
    ∷ []

is_satisfied :
    (evaluate_control partial_control (observed complete) attestations [] 100).status ≡ satisfied
unfolding evaluate_control evaluate_unless evaluate_in_scope standing judged conclude decide seen_of
    missing_of flaw observed attestation_for justification is_blank trim_space is_space
is_satisfied = refl

-- The attestation has expired.
is_partial :
    (evaluate_control partial_control (observed complete) attestations [] 901).status
    ≡ partially_satisfied
unfolding evaluate_control evaluate_unless evaluate_in_scope standing judged conclude decide seen_of
    missing_of flaw observed attestation_for justification is_blank trim_space is_space
is_partial = refl

satisfied-IsEvidenced_example : IsEvidenced partial_control (observed complete) attestations 100
satisfied-IsEvidenced_example =
    satisfied-IsEvidenced partial_control (observed complete) attestations [] 100 is_satisfied

incomplete_scan_satisfies_nothing_example :
    (evaluate_control partial_control
      (observed (record complete { scan_complete = false }))
      attestations
      []
      100).status
    ≢ satisfied
incomplete_scan_satisfies_nothing_example =
    incomplete_scan_satisfies_nothing partial_control (record complete { scan_complete = false })
      attestations [] 100 refl (λ e. cc)

conformant-iff-closed_example :
    ((evaluate "nist-ai-rmf-1.0"
        (partial_control ∷ organizational_control ∷ [])
        complete
        attestations
        []
        100).conformant
      ≡ true)
    ↔ All
        (λ ctrl.
          is_open (evaluate_control ctrl (observed complete) attestations [] 100).status ≡ false)
        (partial_control ∷ organizational_control ∷ [])
conformant-iff-closed_example =
    conformant-iff-closed "nist-ai-rmf-1.0" (partial_control ∷ organizational_control ∷ []) complete
      attestations [] 100
