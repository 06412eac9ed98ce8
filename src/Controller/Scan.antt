-- ===== src/Controller/Scan.antt =====
-- internal/controller/artifactscan_controller.go: what the reconciler of scans reads and writes. A
-- message is a value with the facts that its text is formatted from. Names of jobs and reports are
-- functions of the scan and the scanner, which stand for them; owner references are left out.
pub mod Jobs
pub mod Report
pub mod Reconcile
pub mod Deadline
pub mod Work
pub mod Verdict
mod Tests
use cupel.Base.{ℕ, Bool, Option, none, some, List, [], ◌∷◌, String}
use cupel.Api.{ArtifactRef, ExceptionSpec, ModelSecurityReport}
use cupel.Policy.{ScannerResult, ArtifactScanPolicy, Gate}

pub record ScanSpec : Type 0 where
  pub name : String
  pub namespace : String
  pub model_name : String
  pub model_version : String
  pub artifact : ArtifactRef
  pub policy_ref : String
  pub scanners : List String
  pub trigger : String
  pub triggered_by : String

pub data Message : Type 0 where
  empty : Message
  unresolved : Message
  no_scanners : Message
  overdue : (deadline pending : ℕ) → Message
  passed : Message
  passed_waived : (waived : ℕ) → Message
  violated : (violations : ℕ) (first : String) → Message
  reevaluated : Message → (waived : ℕ) → Message

pub record ScanStatus : Type 0 where
  pub phase : String
  pub start_time : Option ℕ
  pub completion_time : Option ℕ
  pub results : List ScannerResult
  pub risk_score : Option ℕ
  pub verdict : String
  pub message : Message
  pub scanned_digest : String

-- The job of one scanner, and the report that its publish step wrote.
pub record Job : Type 0 where
  pub scanner : String
  pub active : ℕ
  pub succeeded : ℕ
  pub failed : ℕ

pub record ScanReport : Type 0 where
  pub name : String
  pub scanner : String
  pub summary : ScannerResult
  pub digest : String

-- An entry of the audit chain.
pub record VerdictRecord : Type 0 where
  pub model_name : String
  pub model_version : String
  pub verdict : String
  pub risk_score : ℕ
  pub digest : String
  pub trigger : String
  pub triggered_by : String

pub record World : Type 0 where
  pub status : ScanStatus
  pub jobs : List Job
  pub reports : List ScanReport
  pub model_report : Option ModelSecurityReport
  pub trail : List VerdictRecord

-- The requests that the API server refuses, beside a job that cannot be built.
pub record Faults : Type 0 where
  pub policy_fails : Bool
  pub job_fails : String → Bool
  pub phase_fails : Bool
  pub reports_fail : Bool
  pub adoption_fails : String → Bool
  pub job_read_fails : String → Bool
  pub exceptions_fail : Bool
  pub status_fails : Bool
  pub chain_fails : Bool
  pub upsert_fails : Bool
  pub report_status_fails : Bool

-- What the reconciler is configured with and reads but does not write: the gate, the catalog of
-- scanners, the policy that the scan names, the exceptions of its namespace. A deadline of 0 is unset.
pub record Setup : Type 0 where
  pub gate : Gate
  pub is_known : String → Bool
  pub defaults : List String
  pub policy : Option ArtifactScanPolicy
  pub exceptions : List ExceptionSpec
  pub deadline : ℕ
  pub records_verdicts : Bool
  pub report_name : String

-- How a call ends: done, to be repeated at once or later, or with an error, after which it is repeated.
pub data Ended : Type 0 where
  settled : Ended
  requeued : Ended
  waiting : Ended
  erred : Ended
