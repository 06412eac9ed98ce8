-- ===== src/Controller/Scan/Reconcile.antt =====
-- `Reconcile` of internal/controller/artifactscan_controller.go, over what its reads answer and with the
-- faults of its requests. After an error the status that was not yet written is forgotten.
use cupel.Base.{
  ℕ, ◌+◌, ◌*◌, ◌^◌, Bool, false, not, ◌&&◌, ◌||◌, Option, none, some, List, [], ◌∷◌, String,
  if◌then◌else◌, str_eq, ltb, ◌==◌, length,
}
use cupel.Api.{verdict_review_required}
use cupel.Policy.{ScannerResult, ArtifactScanPolicy, Evaluation, evaluate, exceptions_for}
use cupel.Controller.Scan.{
  ScanSpec, ScanStatus, Message, unresolved, no_scanners, overdue, reevaluated, World, Faults,
  Setup, Ended, settled, requeued, waiting, erred,
}
use cupel.Controller.Scan.Jobs.{
  resolve_scanners, ensure_scan_jobs, collecting_fails, collect_results, digest_of,
}
use cupel.Controller.Scan.Report.{summarize, upsert_report, recorded_verdict}

-- Two hours, in nanoseconds.
abbrev pub default_scan_deadline : ℕ
default_scan_deadline = 2 * 3600 * 10 ^ 9

unfoldable pub scan_deadline : Setup → ℕ
scan_deadline setup = if ltb 0 setup.deadline then setup.deadline else default_scan_deadline

-- `loadPolicy`; none, if the read fails.
unfoldable pub load_policy : Faults → Setup → ScanSpec → Option (Option ArtifactScanPolicy)
load_policy f setup spec =
    if str_eq spec.policy_ref ""
    then some none
    else if f.policy_fails
    then none
    else some setup.policy

unfoldable pub eval_of :
    Setup → ScanSpec → Option ArtifactScanPolicy → ℕ → List ScannerResult → Evaluation
eval_of setup spec policy now results =
    evaluate setup.gate results spec.artifact policy
      (exceptions_for setup.exceptions spec.model_name spec.model_version) now

-- The update of the status, refused or not.
unfoldable pub put_status : Faults → World → ScanStatus → Ended → World × Ended
put_status f w status done =
    if f.status_fails then (w, erred) else (record w { status = status }, done)

-- `fail`
unfoldable pub fail : Faults → ℕ → World → ScanStatus → Message → World × Ended
unfolding put_status
fail f now w status message =
    put_status f w
      (record status {
        phase = "Failed";
        message = message;
        completion_time = some now;
        verdict = verdict_review_required;
      })
      settled

-- The report that follows a status that is written.
unfoldable pub publish_report : Faults → Setup → ScanSpec → ℕ → World → Evaluation → World × Ended
publish_report f setup spec now w eval =
    let (report, done) = upsert_report f setup spec now w.status eval w.model_report in
    (record w { model_report = report }, if done then settled else erred)

-- All results are there.
unfoldable pub complete :
    Faults → Setup → ScanSpec → Option ArtifactScanPolicy → ℕ → World → ScanStatus → World × Ended
unfolding publish_report
complete f setup spec policy now w status =
    let eval = eval_of setup spec policy now status.results in
    let finished = record status {
      phase = "Completed";
      completion_time = some now;
      risk_score = some eval.risk_score;
      verdict = eval.verdict;
      message = summarize eval;
    } in
    if f.exceptions_fail || f.status_fails
    then (w, erred)
    else publish_report f setup spec now
        (record w {
          status = finished;
          trail = recorded_verdict f setup spec finished eval w.trail;
        })
        eval

unfoldable pub is_overdue : Setup → ℕ → Option ℕ → Bool
is_overdue setup now none = false
is_overdue setup now (some started) = ltb (started + scan_deadline setup) now

unfoldable pub wait_or_fail : Faults → Setup → ℕ → World → ScanStatus → ℕ → World × Ended
unfolding is_overdue put_status
wait_or_fail f setup now w status pending =
    if is_overdue setup now status.start_time
    then fail f now w status (overdue (scan_deadline setup) pending)
    else put_status f w status waiting

-- The scan is under way, and its jobs exist.
unfoldable pub collect :
    Faults → Setup → ScanSpec → Option ArtifactScanPolicy → ℕ → List String → World → World × Ended
collect f setup spec policy now wanted w =
    let (results, pending) = collect_results w.jobs w.reports wanted in
    let status = record w.status {
      results = results;
      scanned_digest = digest_of w.status.scanned_digest w.reports;
    } in
    if collecting_fails f w.reports wanted
    then (w, erred)
    else if ltb 0 pending
    then wait_or_fail f setup now w status pending
    else complete f setup spec policy now w status

-- The phase moves on, once.
unfoldable pub enter_scanning :
    Faults → Setup → ScanSpec → Option ArtifactScanPolicy → ℕ → List String → World → World × Ended
enter_scanning f setup spec policy now wanted w =
    if not (str_eq w.status.phase "Pending")
    then collect f setup spec policy now wanted w
    else if f.phase_fails
    then (w, erred)
    else collect f setup spec policy now wanted
        (record w { status = record w.status { phase = "Scanning" } })

unfoldable pub on_wanted :
    Faults
    → Setup
    → ScanSpec
    → Option ArtifactScanPolicy
    → ℕ
    → World
    → Option (List String)
    → World × Ended
on_wanted f setup spec policy now w none = fail f now w w.status unresolved
on_wanted f setup spec policy now w (some []) = fail f now w w.status no_scanners
on_wanted f setup spec policy now w (some (n ∷ ns)) =
    let (jobs, done) = ensure_scan_jobs f (n ∷ ns) w.jobs in
    if done
    then enter_scanning f setup spec policy now (n ∷ ns) (record w { jobs = jobs })
    else (record w { jobs = jobs }, erred)

unfoldable pub advance_scan :
    Faults → Setup → ScanSpec → ℕ → World → Option (Option ArtifactScanPolicy) → World × Ended
advance_scan f setup spec now w none = (w, erred)
advance_scan f setup spec now w (some policy) =
    on_wanted f setup spec policy now w (resolve_scanners setup spec policy)

unfoldable pub same_score : Option ℕ → ℕ → Bool
same_score none n = false
same_score (some m) n = m == n

waived_note : Evaluation → Message → Message
waived_note eval message =
    if ltb 0 (length eval.waived) then reevaluated message (length eval.waived) else message

unfoldable pub reevaluate :
    Faults → Setup → ScanSpec → ℕ → World → Option (Option ArtifactScanPolicy) → World × Ended
unfolding same_score waived_note publish_report
reevaluate f setup spec now w none = (w, erred)
reevaluate f setup spec now w (some policy) =
    let eval = eval_of setup spec policy now w.status.results in
    let moved = record w.status {
      verdict = eval.verdict;
      risk_score = some eval.risk_score;
      message = waived_note eval (summarize eval);
    } in
    if f.exceptions_fail
    then (w, erred)
    else if str_eq eval.verdict w.status.verdict && same_score w.status.risk_score eval.risk_score
    then (w, settled)
    else if f.status_fails
    then (w, erred)
    else publish_report f setup spec now (record w { status = moved }) eval

unfoldable pub is_finished : String → Bool
is_finished phase = str_eq phase "Completed" || str_eq phase "Failed"

unfoldable pub start_scan : Faults → ℕ → World → World × Ended
start_scan f now w = if f.phase_fails then (w, erred) else (
  record w { status = record w.status { phase = "Pending"; start_time = some now } },
  requeued,
)

unfoldable pub reconcile_finished : Faults → Setup → ScanSpec → ℕ → World → World × Ended
reconcile_finished f setup spec now w =
    if length w.status.results == 0
    then (w, settled)
    else reevaluate f setup spec now w (load_policy f setup spec)

-- `Reconcile`, of a scan that is found and not about to be deleted.
unfoldable pub reconcile_scan : Faults → Setup → ScanSpec → ℕ → World → World × Ended
reconcile_scan f setup spec now w =
    if str_eq w.status.phase ""
    then start_scan f now w
    else if is_finished w.status.phase
    then reconcile_finished f setup spec now w
    else advance_scan f setup spec now w (load_policy f setup spec)
