-- ===== src/Controller/Scan/Tests.antt =====
-- One scan of internal/controller/artifactscan_controller.go with one scanner: the theorems applied, and
-- tests by evaluation.
use cupel.Base.{◌≡◌, refl, true, false, none, some, [], ◌∷◌, arith}
use cupel.Api.{SeverityCounts, ArtifactRef, ModelSecurityReport}
use cupel.Policy.{ScannerResult, Gate, evaluate, to_results}
use cupel.Controller.Scan.{ScanSpec, ScanStatus, empty, World, Faults, Setup, settled}
use cupel.Controller.Scan.Jobs.{
  resolve_scanners, ensure_scan_jobs, ensure_scan_job, find_scan_job, collect_results,
  collecting_fails, digest_of, result_of, by_scanner, is_pending,
}
use cupel.Controller.Scan.Report.{digest_scanned, upsert_report}
use cupel.Controller.Scan.Reconcile.{
  complete, is_finished, reconcile_scan, load_policy, advance_scan, on_wanted, enter_scanning,
  collect, eval_of, wait_or_fail, scan_deadline,
}
use cupel.Controller.Scan.Deadline.{IsQuiet, overdue-IsFinished}
use cupel.Controller.Scan.Work.{Distinct, reconcile_scan-Distinct}
use cupel.Controller.Scan.Verdict.{IsPublished, complete-IsPublished, stale_verdict_stands}

abbrev zero_counts : SeverityCounts
zero_counts = record { critical = 0; high = 0; medium = 0; low = 0; unknown = 0 }

abbrev artifact : ArtifactRef
artifact = record {
  uri = "s3://models/fraud";
  digest = "";
  media_type = "";
  format = "onnx";
  size_bytes = none;
}

abbrev spec : ScanSpec
spec = record {
  name = "fraud-3-scan";
  namespace = "ml";
  model_name = "fraud";
  model_version = "3";
  artifact = artifact;
  policy_ref = "";
  scanners = "clamav" ∷ [];
  trigger = "Manual";
  triggered_by = "alice";
}

abbrev fresh : ScanStatus
fresh = record {
  phase = "";
  start_time = none;
  completion_time = none;
  results = [];
  risk_score = none;
  verdict = "";
  message = empty;
  scanned_digest = "";
}

abbrev detected : ScannerResult
detected = record {
  scanner = "clamav";
  status = "Failed";
  findings = 1;
  severities = record zero_counts { critical = 1 };
  drift = zero_counts;
  unexamined = zero_counts;
  produced = none;
  message = "";
  report_ref = "";
}

-- A gate that quarantines whatever has a result.
quarantine : Gate
quarantine [] a rules es now = record {
  verdict = "Approved";
  risk_score = 0;
  malware_status = "Clean";
  violations = [];
  waived = [];
}
quarantine (r ∷ rs) a rules es now = record {
  verdict = "Quarantined";
  risk_score = 90;
  malware_status = "Detected";
  violations = "malware" ∷ [];
  waived = [];
}

abbrev setup : Setup
setup = record {
  gate = quarantine;
  is_known = λ _. true;
  defaults = "clamav" ∷ [];
  policy = none;
  exceptions = [];
  deadline = 100;
  records_verdicts = true;
  report_name = "fraud-3";
}

abbrev quiet : Faults
quiet = record {
  policy_fails = false;
  job_fails = λ _. false;
  phase_fails = false;
  reports_fail = false;
  adoption_fails = λ _. false;
  job_read_fails = λ _. false;
  exceptions_fail = false;
  status_fails = false;
  chain_fails = false;
  upsert_fails = false;
  report_status_fails = false;
}

quiet-IsQuiet : IsQuiet quiet
quiet-IsQuiet = record {
  policy = refl;
  job = λ _. refl;
  phase = refl;
  reports = refl;
  adoption = λ _. refl;
  job_read = λ _. refl;
  exceptions = refl;
  status = refl;
  upsert = refl;
  report_status = refl;
}

abbrev lossy : Faults
lossy = record quiet { report_status_fails = true }

abbrev approved : ModelSecurityReport
approved = record {
  namespace = "ml";
  name = "fraud-3";
  model_name = "fraud";
  model_version = "3";
  artifact = record artifact { digest = "sha256:old" };
  scan_ref = "earlier";
  verdict = "Approved";
  risk_score = 0;
  malware = "Clean";
  unexamined = zero_counts;
  last_scan_time = some 5;
  approved_environments = [];
}

abbrev scanning : ScanStatus
scanning = record fresh { phase = "Scanning"; start_time = some 10 }

abbrev scanned : ScanStatus
scanned = record scanning { results = detected ∷ []; scanned_digest = "sha256:new" }

abbrev world : World
world = record {
  status = scanning;
  jobs = [];
  reports = [];
  model_report = some approved;
  trail = [];
}

created_test :
    (reconcile_scan quiet setup spec 20 world).0.jobs
    ≡ record { scanner = "clamav"; active = 0; succeeded = 0; failed = 0 } ∷ []
unfolding reconcile_scan is_finished load_policy advance_scan on_wanted resolve_scanners
    ensure_scan_jobs ensure_scan_job find_scan_job enter_scanning collect collect_results
    collecting_fails digest_of result_of by_scanner is_pending wait_or_fail scan_deadline
created_test = refl

overdue-IsFinished_example :
    is_finished (reconcile_scan quiet setup spec 200 world).0.status.phase ≡ true
unfolding is_finished
overdue-IsFinished_example =
    overdue-IsFinished quiet quiet-IsQuiet setup spec 200 world 10 (λ e. cc) refl refl
      (unfold scan_deadline in omega arith)

reconcile_scan-Distinct_example : Distinct (reconcile_scan quiet setup spec 20 world).0.jobs
reconcile_scan-Distinct_example = reconcile_scan-Distinct quiet setup spec 20 world tt

complete-IsPublished_example :
    IsPublished quiet setup spec world (complete quiet setup spec none 20 world scanned).0
unfolding complete upsert_report
complete-IsPublished_example =
    complete-IsPublished quiet setup spec (λ e. cc) (λ e. cc) none 20 world scanned refl

stale_verdict_stands_example :
    (reconcile_scan quiet setup spec 30 (complete lossy setup spec none 20 world scanned).0
      ≡ ((complete lossy setup spec none 20 world scanned).0, settled))
    × ((complete lossy setup spec none 20 world scanned).0.model_report
        ≡ some (record approved {
          artifact = record artifact { digest = "sha256:new" };
          scan_ref = "fraud-3-scan";
        }))
unfolding eval_of load_policy quarantine digest_scanned evaluate to_results
stale_verdict_stands_example =
    stale_verdict_stands lossy quiet setup spec none 20 30 world scanned approved (λ e. cc)
      (λ e. cc) refl refl refl refl refl (omega arith) quiet-IsQuiet refl refl
