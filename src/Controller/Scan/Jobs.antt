-- ===== src/Controller/Scan/Jobs.antt =====
-- The scanners of a scan, their jobs and their results, of
-- internal/controller/artifactscan_controller.go.
use cupel.Base.{
  ℕ, suc, Bool, true, false, not, ◌&&◌, ◌||◌, Option, none, some, List, [], ◌∷◌, ◌++◌, String,
  if◌then◌else◌, str_eq, ltb, any, all, map, select,
}
use cupel.Api.{SeverityCounts}
use cupel.Policy.{ScannerResult, ScannerSpec, ArtifactScanPolicy}
use cupel.Controller.Scan.{ScanSpec, Job, ScanReport, Faults, Setup}

is_enabled : ScannerSpec → Bool
is_enabled s = is_on s.enabled
  where
    is_on : Option Bool → Bool
    is_on none = true
    is_on (some b) = b

of_policy : List String → List ScannerSpec → List String
unfolding is_enabled
of_policy defaults [] = defaults
of_policy defaults (s ∷ ss) = map ScannerSpec.name (select is_enabled (s ∷ ss))

selected : Setup → List String → Option ArtifactScanPolicy → List String
unfolding of_policy
selected setup (n ∷ ns) policy = n ∷ ns
selected setup [] none = setup.defaults
selected setup [] (some p) = of_policy setup.defaults p.scanners

-- `resolveScanners`; none, if a scanner is not in the catalog.
unfoldable pub resolve_scanners :
    Setup → ScanSpec → Option ArtifactScanPolicy → Option (List String)
unfolding selected
resolve_scanners setup spec policy =
    let names = selected setup spec.scanners policy in
    if all setup.is_known names then some names else none

unfoldable pub find_scan_job : String → List Job → Option Job
find_scan_job n [] = none
find_scan_job n (j ∷ js) =
    let rest = find_scan_job n js in if str_eq j.scanner n then some j else rest

abbrev pub new_job : String → Job
new_job n = record { scanner = n; active = 0; succeeded = 0; failed = 0 }

-- `ensureScanJob`: the jobs after it, and whether it succeeded. A job is created unless there is one.
unfoldable pub on_found : Faults → String → List Job → Option Job → List Job × Bool
on_found f n jobs (some j) = (jobs, true)
on_found f n jobs none = if f.job_fails n then (jobs, false) else (jobs ++ new_job n ∷ [], true)

unfoldable pub ensure_scan_job : Faults → String → List Job → List Job × Bool
unfolding on_found
ensure_scan_job f n jobs =
    if f.job_read_fails n then (jobs, false) else on_found f n jobs (find_scan_job n jobs)

-- The loop stops at the first failure.
unfoldable pub ensure_scan_jobs : Faults → List String → List Job → List Job × Bool
ensure_scan_jobs f [] jobs = (jobs, true)
ensure_scan_jobs f (n ∷ ns) jobs =
    let (now, done) = ensure_scan_job f n jobs in
    let rest = ensure_scan_jobs f ns now in if done then rest else (now, false)

-- The result of a scanner whose report was read; a later report replaces an earlier one.
summary_of : ScanReport → ScannerResult
summary_of r = record r.summary { scanner = r.scanner; report_ref = r.name }

unfoldable pub by_scanner : String → List ScanReport → Option ScannerResult
unfolding summary_of
by_scanner n [] = none
by_scanner n (r ∷ rs) = later (by_scanner n rs)
  where
    later : Option ScannerResult → Option ScannerResult
    later (some found) = some found
    later none = if str_eq r.scanner n then some (summary_of r) else none

-- The digest that the reports carry, after that which the scan has.
unfoldable pub digest_of : String → List ScanReport → String
digest_of digest [] = digest
digest_of digest (r ∷ rs) = digest_of (if str_eq r.digest "" then digest else r.digest) rs

abbrev no_counts : SeverityCounts
no_counts = record { critical = 0; high = 0; medium = 0; low = 0; unknown = 0 }

interim : String → (status message : String) → ScannerResult
interim n status message = record {
  scanner = n;
  status = status;
  findings = 0;
  severities = no_counts;
  drift = no_counts;
  unexamined = no_counts;
  produced = none;
  message = message;
  report_ref = "";
}

unfoldable pub of_job : String → Option Job → ScannerResult
unfolding interim
of_job n none = interim n "Pending" ""
of_job n (some j) =
    if ltb 0 j.failed
    then interim n "Error" "scan job failed; see job logs"
    else if ltb 0 j.active
    then interim n "Running" ""
    else if ltb 0 j.succeeded
    then interim n "Running" "waiting for scan report"
    else interim n "Pending" ""

-- A scanner has a report, or the status of its job.
of_scanner : List Job → String → Option ScannerResult → ScannerResult
unfolding of_job
of_scanner jobs n (some r) = r
of_scanner jobs n none = of_job n (find_scan_job n jobs)

unfoldable pub result_of : List Job → List ScanReport → String → ScannerResult
unfolding of_scanner
result_of jobs reports n = of_scanner jobs n (by_scanner n reports)

awaits : ScannerResult → Option ScannerResult → Bool
awaits r (some report) = false
awaits r none = not (str_eq r.status "Error")

unfoldable pub is_pending : List Job → List ScanReport → String → Bool
unfolding awaits
is_pending jobs reports n = awaits (result_of jobs reports n) (by_scanner n reports)

-- What `collectResults` returns: the results and how many of them are pending.
unfoldable pub collect_results : List Job → List ScanReport → List String → List ScannerResult × ℕ
collect_results jobs reports [] = ([], 0)
collect_results jobs reports (n ∷ ns) =
    let (results, pending) = collect_results jobs reports ns in
    (result_of jobs reports n ∷ results, if is_pending jobs reports n then suc pending else pending)

unfoldable pub read_fails : Faults → List ScanReport → String → Bool
read_fails f reports n = is_unreported (by_scanner n reports) && f.job_read_fails n
  where
    is_unreported : Option ScannerResult → Bool
    is_unreported none = true
    is_unreported (some r) = false

unfoldable pub collecting_fails : Faults → List ScanReport → List String → Bool
unfolding read_fails
collecting_fails f reports wanted =
    f.reports_fail
    || (any (λ r. f.adoption_fails r.name) reports || any (read_fails f reports) wanted)
