-- ===== src/Policy.antt =====
-- internal/policy: the exceptions that apply to a model version, and the conversion of scan results and
-- policies to the arguments of the library's gate. The gate itself is a parameter.
pub mod Scoped
mod Tests
use cupel.Base.{
  ℕ, Bool, ◌&&◌, ◌||◌, Option, none, some, List, [], ◌∷◌, String, if◌then◌else◌, str_eq, map,
  select,
}
use cupel.Api.{SeverityCounts, ArtifactRef, ExceptionSpec}

pub record ScannerResult : Type 0 where
  pub scanner : String
  pub status : String
  pub findings : ℕ
  pub severities : SeverityCounts
  pub drift : SeverityCounts
  pub unexamined : SeverityCounts
  pub produced : Option Bool
  pub message : String
  pub report_ref : String

pub record PolicyRules : Type 0 where
  pub max_critical_cves : Option ℕ
  pub max_high_cves : Option ℕ
  pub block_malware : Option Bool
  pub block_secrets : Option Bool
  pub block_unsafe_model : Option Bool
  pub block_model_drift : Option Bool
  pub block_unexamined : Option Bool
  pub max_high_model_findings : Option ℕ
  pub require_signature : Bool
  pub require_provenance : Bool
  pub require_sbom : Bool
  pub require_aibom : Bool
  pub allowed_formats : List String
  pub blocked_formats : List String

pub record ScannerSpec : Type 0 where
  pub name : String
  pub enabled : Option Bool

pub record ArtifactScanPolicy : Type 0 where
  pub scanners : List ScannerSpec
  pub rules : PolicyRules

-- What the gate takes of a result and of an exception.
pub record GateScannerResult : Type 0 where
  pub scanner : String
  pub status : String
  pub findings : ℕ
  pub severities : SeverityCounts
  pub drift : SeverityCounts
  pub unexamined : SeverityCounts
  pub produced : Option Bool
  pub message : String

pub record GateException : Type 0 where
  pub finding_ids : List String
  pub rules : List String
  pub reason : String
  pub scanned_digest : String
  pub expires_at : Option ℕ

-- A violation is its text.
pub record Evaluation : Type 0 where
  pub verdict : String
  pub risk_score : ℕ
  pub malware_status : String
  pub violations : List String
  pub waived : List String

abbrev pub Gate : Type 0
Gate =
    List GateScannerResult → ArtifactRef → Option PolicyRules → List GateException → ℕ → Evaluation

to_result : ScannerResult → GateScannerResult
to_result r = record {
  scanner = r.scanner;
  status = r.status;
  findings = r.findings;
  severities = r.severities;
  drift = r.drift;
  unexamined = r.unexamined;
  produced = r.produced;
  message = r.message;
}

unfoldable pub to_results : List ScannerResult → List GateScannerResult
unfolding to_result
to_results rs = map to_result rs

-- No policy stays none, which the gate reads as its defaults.
unfoldable pub to_rules : Option ArtifactScanPolicy → Option PolicyRules
to_rules none = none
to_rules (some p) = some p.rules

to_exception : ExceptionSpec → GateException
to_exception e = record {
  finding_ids = e.finding_ids;
  rules = e.rules;
  reason = e.reason;
  scanned_digest = e.scanned_digest;
  expires_at = e.expires_at;
}

unfoldable pub to_exceptions : List ExceptionSpec → List GateException
unfolding to_exception
to_exceptions es = map to_exception es

unfoldable pub evaluate :
    Gate
    → List ScannerResult
    → ArtifactRef
    → Option ArtifactScanPolicy
    → List ExceptionSpec
    → ℕ
    → Evaluation
evaluate gate results artifact policy exceptions now =
    gate (to_results results) artifact (to_rules policy) (to_exceptions exceptions) now

abbrev pub applies_to : String → String → ExceptionSpec → Bool
applies_to model version e = str_eq e.model_name model && str_eq e.model_version version

unfoldable pub exceptions_for : List ExceptionSpec → String → String → List ExceptionSpec
exceptions_for es model version =
    if str_eq model "" || str_eq version "" then [] else select (applies_to model version) es
