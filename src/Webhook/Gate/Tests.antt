-- ===== src/Webhook/Gate/Tests.antt =====
-- A gate over a small cluster: the theorems applied, and tests by evaluation.
use cupel.Base.{
  value_of, equal_fold, has_lower_prefix, ◌≡◌, ◌≢◌, ◌↔◌, ◌⊎◌, inl, inr, refl, true, ◌&&◌, none,
  some, [], ◌∷◌, arith, eq_iff, str_eq, if◌then◌else◌,
}
use cupel.Api.{ModelSecurityReport, ArtifactRef}
use cupel.Webhook.ModelRef.{
  ModelRef, Workload, extract_model_ref, ref_from_evidence, is_storage_uri, model_from_storage_uri,
  digest_from_uri,
}
use cupel.Webhook.Reads.{
  found, not_found, failed, Cluster, ModelGate, lookup_namespaces, find_report, enforcement_for,
  promotion_mode_for,
}
use cupel.Webhook.Reads.Lookup.{Unreadable-enforces}
use cupel.Webhook.Reads.Failing.{FailsFirst, FailsIn}
use cupel.Webhook.Evaluate.{no_reason, evaluate, total_counts, is_positive}
use cupel.Webhook.Evaluate.Cleared.{IsCleared, evaluate-iff-IsCleared}
use cupel.Webhook.Gate.{
  Request, admit, errored, Operation, create, delete, recorded, denied, handle, skips, gate_object,
  gate_evidence, gate_ref, judge, on_decision, enforce,
}
use cupel.Webhook.Gate.Admission.{HasClearedReport, settled_ref, admits_only_cleared}
use cupel.Webhook.Gate.Trail.{HasFullReport, unrecorded_admission_is_clean}
use cupel.Webhook.Gate.Blind.{
  in_environment, failed_read_never_admits, evidence_ignores_environment,
}

abbrev artifact : ArtifactRef
artifact = record {
  uri = "s3://m/fraud/3";
  digest = "sha256:ab";
  media_type = "";
  format = "";
  size_bytes = some 10;
}

abbrev report : ModelSecurityReport
report = record {
  namespace = "cupel-system";
  name = "fraud";
  model_name = "fraud";
  model_version = "3";
  artifact = artifact;
  scan_ref = "scan-1";
  verdict = "Approved";
  risk_score = 5;
  malware = "Clean";
  unexamined = record { critical = 0; high = 0; medium = 0; low = 0; unknown = 0 };
  last_scan_time = some 4500;
  approved_environments = "prod" ∷ [];
}

abbrev gate : ModelGate
gate = record {
  default_policy = "";
  max_report_age = 1000;
  now = 5000;
  require_report = true;
  records = true;
  report_namespace = "cupel-system";
  report_names = λ model version. model ∷ [];
}

abbrev cluster : Cluster
cluster = record {
  report_at = λ ns name.
      if str_eq ns "cupel-system" && str_eq name "fraud" then found report else not_found;
  policy_at = λ ns name. failed;
}

abbrev outage : Cluster
outage = record {
  report_at = λ ns name. if str_eq ns "ml" then not_found else failed;
  policy_at = λ ns name. failed;
}

abbrev workload : Workload
workload = record {
  kind = "Deployment";
  name = "scorer";
  annotations =
      ("security.davano.io/model", "fraud")
      ∷ ("security.davano.io/model-version", "3")
      ∷ ("security.davano.io/environment", "PROD")
      ∷ [];
  labels = [];
  predictor_uri = "";
  evidence = [];
}

abbrev silent_workload : Workload
silent_workload = record workload {
  annotations = [];
  evidence = record { kind = "env"; detail = "STORAGE_URI"; uri = "s3://m/fraud/3" } ∷ [];
}

abbrev request : Request
request = record {
  operation = create;
  namespace = "ml";
  username = "alice";
  object = some workload;
}

abbrev ref : ModelRef
ref = record { model = "fraud"; version = "3"; digest = ""; storage_uri = ""; environment = "PROD" }

not_deleted : ◌≢◌ {A = Operation} create delete
not_deleted e = cc

admitted : (handle gate cluster request).response ≡ admit no_reason []
unfolding handle gate_object gate_ref judge on_decision skips extract_model_ref value_of find_report
    enforcement_for promotion_mode_for evaluate equal_fold total_counts is_positive
admitted = refl

-- A version that was promoted to prod only is refused elsewhere.
staging_denied :
    (handle gate cluster
      (record request { object = some (in_environment "stage" workload) })).outcome
    ≡ denied
unfolding handle gate_object gate_ref judge on_decision enforce skips extract_model_ref value_of
    find_report enforcement_for promotion_mode_for evaluate equal_fold total_counts is_positive
staging_denied = refl

-- The same declaration is not asked for where evidence identifies the model.
evidence_admitted :
    (handle gate cluster
      (record request { object = some (in_environment "stage" silent_workload) })).response
    ≡ admit no_reason []
unfolding handle gate_object gate_evidence gate_ref judge on_decision skips extract_model_ref
    ref_from_evidence value_of find_report enforcement_for promotion_mode_for evaluate equal_fold
    total_counts is_positive is_storage_uri model_from_storage_uri digest_from_uri has_lower_prefix
evidence_admitted = refl

admits_only_cleared_example :
    (((extract_model_ref workload).model ≡ "") × (workload.evidence ≡ []))
    ⊎ HasClearedReport gate cluster request workload (settled_ref workload)
unfolding skips value_of equal_fold enforcement_for
admits_only_cleared_example =
    admits_only_cleared gate cluster request workload no_reason [] not_deleted refl refl refl
      (ground (arith, eq_iff "Enforce" "Audit")) (ground (arith, eq_iff "Enforce" "Warn")) admitted

evaluate-iff-IsCleared_example :
    (evaluate gate report ref "Require" ≡ none) ↔ IsCleared gate report ref "Require"
evaluate-iff-IsCleared_example = evaluate-iff-IsCleared gate report ref "Require"

Unreadable-enforces_example :
    (enforcement_for gate cluster "ml" [] ≡ "Enforce")
    × (promotion_mode_for gate cluster "ml" [] ≡ "Require")
unfolding lookup_namespaces
Unreadable-enforces_example =
    Unreadable-enforces gate cluster "ml" [] ((λ pol e. cc), ((λ pol e. cc), tt))

unrecorded : recorded true gate (handle gate cluster request) ≡ none
unfolding recorded handle gate_object gate_ref judge on_decision skips extract_model_ref value_of
    find_report enforcement_for promotion_mode_for evaluate equal_fold total_counts is_positive
unrecorded = refl

unrecorded_admission_is_clean_example :
    (((extract_model_ref workload).model ≡ "") × (workload.evidence ≡ []))
    ⊎ HasFullReport gate cluster request workload (settled_ref workload)
unrecorded_admission_is_clean_example =
    unrecorded_admission_is_clean gate cluster request workload no_reason [] not_deleted refl refl
      admitted unrecorded

failed_read_never_admits_example : (handle gate outage request).response ≡ errored 500
unfolding skips value_of equal_fold extract_model_ref lookup_namespaces FailsFirst FailsIn
failed_read_never_admits_example =
    failed_read_never_admits gate outage request workload not_deleted refl refl
      (ground (arith, eq_iff "fraud" "")) (inr ((λ name r m e. cc), inl (inl refl)))

evidence_ignores_environment_example :
    handle gate cluster (record request { object = some (in_environment "stage" silent_workload) })
    ≡ handle gate cluster (record request { object = some silent_workload })
unfolding skips value_of equal_fold extract_model_ref
evidence_ignores_environment_example =
    evidence_ignores_environment gate cluster request silent_workload "stage" not_deleted refl refl
      (λ e. cc)
