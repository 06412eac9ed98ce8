-- ===== src/Controller/Scan/Report.antt =====
-- The report on a model that a finished scan writes, and the entry of its verdict in the audit chain, of
-- internal/controller/artifactscan_controller.go.
use cupel.Base.{
  ℕ, ◌+◌, Bool, true, false, ◌||◌, Option, none, some, List, [], ◌∷◌, ◌++◌, String, if◌then◌else◌,
  str_eq, length,
}
use cupel.Api.{SeverityCounts, i32, ModelSecurityReport}
use cupel.Policy.{ScannerResult, Evaluation}
use cupel.Controller.Scan.{
  ScanSpec, ScanStatus, Message, passed, passed_waived, violated, VerdictRecord, Faults, Setup,
}

abbrev zero_counts : SeverityCounts
zero_counts = record { critical = 0; high = 0; medium = 0; low = 0; unknown = 0 }

add_counts : SeverityCounts → SeverityCounts → SeverityCounts
add_counts t u = record {
  critical = i32 (t.critical + u.critical);
  high = i32 (t.high + u.high);
  medium = i32 (t.medium + u.medium);
  low = i32 (t.low + u.low);
  unknown = i32 (t.unknown + u.unknown);
}

unfoldable pub total_unexamined : SeverityCounts → List ScannerResult → SeverityCounts
unfolding add_counts
total_unexamined t [] = t
total_unexamined t (r ∷ rs) = total_unexamined (add_counts t r.unexamined) rs

no_violation : List String → Message
no_violation [] = passed
no_violation (w ∷ ws) = passed_waived (length (w ∷ ws))

message_of : List String → List String → Message
unfolding no_violation
message_of [] waived = no_violation waived
message_of (v ∷ vs) waived = violated (length (v ∷ vs)) v

unfoldable pub summarize : Evaluation → Message
unfolding message_of
summarize eval = message_of eval.violations eval.waived

-- The digest that was measured, or else the one that the scan declares.
unfoldable pub digest_scanned : ScanSpec → ScanStatus → String
digest_scanned spec status =
    if str_eq status.scanned_digest "" then spec.artifact.digest else status.scanned_digest

-- A report that is created has no status yet.
blank_report : Setup → ScanSpec → ModelSecurityReport
blank_report setup spec = record {
  namespace = spec.namespace;
  name = setup.report_name;
  model_name = "";
  model_version = "";
  artifact = spec.artifact;
  scan_ref = "";
  verdict = "";
  risk_score = 0;
  malware = "";
  unexamined = zero_counts;
  last_scan_time = none;
  approved_environments = [];
}

existing_or : ModelSecurityReport → Option ModelSecurityReport → ModelSecurityReport
existing_or blank none = blank
existing_or blank (some r) = r

-- What `CreateOrUpdate` writes.
unfoldable pub with_spec :
    Setup → ScanSpec → ScanStatus → Option ModelSecurityReport → ModelSecurityReport
unfolding existing_or blank_report digest_scanned
with_spec setup spec status old = record (existing_or (blank_report setup spec) old) {
  model_name = spec.model_name;
  model_version = spec.model_version;
  artifact = record spec.artifact { digest = digest_scanned spec status };
  scan_ref = spec.name;
}

-- What the update of its status writes.
unfoldable pub with_verdict :
    ℕ → ScanStatus → Evaluation → ModelSecurityReport → ModelSecurityReport
with_verdict now status eval report = record report {
  verdict = eval.verdict;
  risk_score = eval.risk_score;
  malware = eval.malware_status;
  unexamined = total_unexamined zero_counts status.results;
  last_scan_time = some now;
}

-- `upsertModelSecurityReport`: the report after it, and whether it succeeded.
unfoldable pub upsert_report :
    Faults
    → Setup
    → ScanSpec
    → ℕ
    → ScanStatus
    → Evaluation
    → Option ModelSecurityReport
    → Option ModelSecurityReport × Bool
upsert_report f setup spec now status eval old =
    if str_eq spec.model_name "" || str_eq spec.model_version ""
    then (old, true)
    else if f.upsert_fails
    then (old, false)
    else if f.report_status_fails
    then (some (with_spec setup spec status old), false)
    else (some (with_verdict now status eval (with_spec setup spec status old)), true)

-- `recordVerdict`
unfoldable pub recorded_verdict :
    Faults → Setup → ScanSpec → ScanStatus → Evaluation → List VerdictRecord → List VerdictRecord
unfolding digest_scanned
recorded_verdict f setup spec status eval trail =
    if setup.records_verdicts
    then (if f.chain_fails
        then trail
        else trail
          ++ record {
            model_name = spec.model_name;
            model_version = spec.model_version;
            verdict = eval.verdict;
            risk_score = eval.risk_score;
            digest = digest_scanned spec status;
            trigger = spec.trigger;
            triggered_by = spec.triggered_by;
          }
            ∷ [])
    else trail
