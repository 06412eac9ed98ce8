-- ===== src/Controller/Scan/Verdict.antt =====
-- What a finished scan of internal/controller/artifactscan_controller.go leaves in its status, in the
-- report on its model and in the audit chain.
use cupel.Base.{
  ℕ, ◌<◌, ◌≡◌, ◌≢◌, refl, sym, ap, true, false, ◌||◌, Option, none, some, [], ◌∷◌, ◌++◌, String,
  str_eq, eq_iff, ◌==◌, length, arith, Bool-cases, inl, inr,
}
use cupel.Api.{ModelSecurityReport}
use cupel.Policy.{ArtifactScanPolicy, Evaluation}
use cupel.Controller.Scan.{ScanSpec, ScanStatus, World, Faults, Setup, Ended, settled, erred}
use cupel.Controller.Scan.Deadline.{IsQuiet}
use cupel.Controller.Scan.Report.{
  summarize, digest_scanned, with_spec, with_verdict, upsert_report, recorded_verdict,
}
use cupel.Controller.Scan.Reconcile.{
  load_policy, eval_of, publish_report, complete, same_score, reevaluate, is_finished,
  reconcile_finished, reconcile_scan,
}

-- The status, the report and, if it is kept and can be written, the last entry of the chain agree.
pub record IsPublished (f : Faults) (setup : Setup) (spec : ScanSpec) (before w : World)
    : Type 0 where
  pub report : ModelSecurityReport
  pub written : w.model_report ≡ some report
  pub verdict : report.verdict ≡ w.status.verdict
  pub score : w.status.risk_score ≡ some report.risk_score
  pub measured : w.status.scanned_digest ≢ "" → report.artifact.digest ≡ w.status.scanned_digest
  pub declared : w.status.scanned_digest ≡ "" → report.artifact.digest ≡ spec.artifact.digest
  pub recorded :
      setup.records_verdicts ≡ true
      → f.chain_fails ≡ false
      → w.trail
        ≡ before.trail
          ++ record {
            model_name = spec.model_name;
            model_version = spec.model_version;
            verdict = report.verdict;
            risk_score = report.risk_score;
            digest = report.artifact.digest;
            trigger = spec.trigger;
            triggered_by = spec.triggered_by;
          }
            ∷ []

named_is :
    (spec : ScanSpec)
    → spec.model_name ≢ ""
    → spec.model_version ≢ ""
    → (str_eq spec.model_name "" || str_eq spec.model_version "") ≡ false
named_is spec n v = ground (arith, n, v, eq_iff spec.model_name "", eq_iff spec.model_version "")

upsert_report_done :
    (f : Faults) (setup : Setup) (spec : ScanSpec) (now : ℕ) (status : ScanStatus)
    (eval : Evaluation) (old : Option ModelSecurityReport)
    → (str_eq spec.model_name "" || str_eq spec.model_version "") ≡ false
    → (upsert_report f setup spec now status eval old).1 ≡ true
    → (upsert_report f setup spec now status eval old).0
      ≡ some (with_verdict now status eval (with_spec setup spec status old))
unfolding upsert_report
upsert_report_done f setup spec now status eval old named done = elim (Bool-cases f.upsert_fails) [
  | inl bad ↦ cc (simp (named, bad) at done)
  | inr fine ↦ elim (Bool-cases f.report_status_fails) [
    | inl bad ↦ cc (simp (named, fine, bad) at done)
    | inr good ↦ simp (named, fine, good) refl
  ]
]

digest_scanned_measured :
    (spec : ScanSpec) (status : ScanStatus)
    → status.scanned_digest ≢ ""
    → digest_scanned spec status ≡ status.scanned_digest
unfolding digest_scanned
digest_scanned_measured spec status n = ground (arith, n, eq_iff status.scanned_digest "")

digest_scanned_declared :
    (spec : ScanSpec) (status : ScanStatus)
    → status.scanned_digest ≡ ""
    → digest_scanned spec status ≡ spec.artifact.digest
unfolding digest_scanned
digest_scanned_declared spec status e = ground (arith, e, eq_iff status.scanned_digest "")

-- The status of a scan that is completed.
abbrev completed : ℕ → Evaluation → ScanStatus → ScanStatus
completed now eval status = record status {
  phase = "Completed";
  completion_time = some now;
  risk_score = some eval.risk_score;
  verdict = eval.verdict;
  message = summarize eval;
}

module _ (f : Faults) (setup : Setup) (spec : ScanSpec) (named : spec.model_name ≢ "")
    (versioned : spec.model_version ≢ "") where
  completed-IsPublished :
      (now : ℕ) (w : World) (status : ScanStatus) (eval : Evaluation)
      (report : Option ModelSecurityReport)
      → report
        ≡ some (
            with_verdict now
              (completed now eval status)
              eval
              (with_spec setup spec (completed now eval status) w.model_report))
      → IsPublished f setup spec w (record w {
        status = completed now eval status;
        model_report = report;
        trail = recorded_verdict f setup spec (completed now eval status) eval w.trail;
      })
  unfolding with_verdict with_spec recorded_verdict
  completed-IsPublished now w status eval report e = record {
    report =
        with_verdict now (completed now eval status) eval
          (with_spec setup spec (completed now eval status) w.model_report);
    written = e;
    verdict = refl;
    score = refl;
    measured = λ n. digest_scanned_measured spec (completed now eval status) n;
    declared = λ n. digest_scanned_declared spec (completed now eval status) n;
    recorded = λ on fine. simp (on, fine) refl;
  }

  -- A scan of a named model version whose results are all there, and which settles, has published its
  -- verdict: the report has the verdict and the score of the status, and the digest that was measured,
  -- or the declared one where none was measured. Where verdicts are recorded and the chain can be
  -- appended to, exactly one entry is added to it, with the verdict, score and digest of the report.
  pub complete-IsPublished :
      (policy : Option ArtifactScanPolicy) (now : ℕ) (w : World) (status : ScanStatus)
      → (complete f setup spec policy now w status).1 ≡ settled
      → IsPublished f setup spec w (complete f setup spec policy now w status).0
  unfolding complete publish_report
  complete-IsPublished policy now w status ends =
      let eval = eval_of setup spec policy now status.results in
      elim (Bool-cases (f.exceptions_fail || f.status_fails)) [
        | inl bad ↦ cc (simp bad at ends)
        | inr fine ↦
            elim (Bool-cases
              (upsert_report f setup spec now (completed now eval status) eval w.model_report).1) [
                | inr bad ↦ cc (simp (fine, bad) at ends)
                | inl done ↦ simp fine (
                    completed-IsPublished now w status eval _ (
                      upsert_report_done f setup spec now (completed now eval status) eval
                        w.model_report (named_is spec named versioned) done))
              ]
      ]

upsert_report_stale :
    (f : Faults) (setup : Setup) (spec : ScanSpec) (now : ℕ) (status : ScanStatus)
    (eval : Evaluation) (old : ModelSecurityReport)
    → (str_eq spec.model_name "" || str_eq spec.model_version "") ≡ false
    → f.upsert_fails ≡ false
    → f.report_status_fails ≡ true
    → upsert_report f setup spec now status eval (some old)
      ≡ (some (with_spec setup spec status (some old)), false)
unfolding upsert_report
upsert_report_stale f setup spec now status eval old named upserted lost =
    simp (named, upserted, lost) refl

finished_begun : (phase : String) → is_finished phase ≡ true → str_eq phase "" ≡ false
unfolding is_finished
finished_begun phase h = elim (Bool-cases (str_eq phase "")) [
  | inr other ↦ other
  | inl blank ↦ let e : phase ≡ "" = (eq_iff phase "").0 blank in cc (rw e at h)
]

same_score_refl : (m : Option ℕ) (n : ℕ) → m ≡ some n → same_score m n ≡ true
unfolding same_score
same_score_refl none n e = cc
same_score_refl (some m) n e = let same : m ≡ n = cc in rw same (ground arith)

-- A finished scan whose verdict and score are those of the gate is left as it is.
pub reconcile_scan-settled :
    (f : Faults) (setup : Setup) (spec : ScanSpec) (policy : Option ArtifactScanPolicy) (now : ℕ)
    (w : World)
    → is_finished w.status.phase ≡ true
    → 0 < length w.status.results
    → load_policy f setup spec ≡ some policy
    → f.exceptions_fail ≡ false
    → w.status.verdict ≡ (eval_of setup spec policy now w.status.results).verdict
    → w.status.risk_score ≡ some (eval_of setup spec policy now w.status.results).risk_score
    → reconcile_scan f setup spec now w ≡ (w, settled)
unfolding reconcile_scan reconcile_finished reevaluate
reconcile_scan-settled f setup spec policy now w finished full loaded fine verdict score =
    let begun : str_eq w.status.phase "" ≡ false = finished_begun w.status.phase finished in
    let some_results : (length w.status.results == 0) ≡ false = ground arith in
    let same : str_eq (eval_of setup spec policy now w.status.results).verdict w.status.verdict
        ≡ true =
      (eq_iff (eval_of setup spec policy now w.status.results).verdict w.status.verdict).1
        (sym verdict) in
    simp
      (
        begun,
        finished,
        some_results,
        loaded,
        fine,
        same,
        same_score_refl w.status.risk_score _ score,
      )
      refl

-- The world in which only the status of the report was not written.
abbrev half_done :
    Faults → Setup → ScanSpec → ℕ → World → ScanStatus → Evaluation → ModelSecurityReport → World
half_done f setup spec now w status eval old = record w {
  status = completed now eval status;
  model_report = some (with_spec setup spec (completed now eval status) (some old));
  trail = recorded_verdict f setup spec (completed now eval status) eval w.trail;
}

complete_half_done :
    (f : Faults) (setup : Setup) (spec : ScanSpec) (policy : Option ArtifactScanPolicy) (now : ℕ)
    (w : World) (status : ScanStatus) (old : ModelSecurityReport)
    → spec.model_name ≢ ""
    → spec.model_version ≢ ""
    → f.exceptions_fail ≡ false
    → f.status_fails ≡ false
    → f.upsert_fails ≡ false
    → f.report_status_fails ≡ true
    → w.model_report ≡ some old
    → complete f setup spec policy now w status ≡ (
      half_done f setup spec now w status (eval_of setup spec policy now status.results) old,
      erred,
    )
unfolding complete publish_report
complete_half_done f setup spec policy now w status old named versioned exceptions_read status_put
      upserted lost e =
    let eval = eval_of setup spec policy now status.results in
    simp
      (
        exceptions_read,
        status_put,
        e,
        upsert_report_stale f setup spec now (completed now eval status) eval old
            (named_is spec named versioned) upserted lost,
      )
      refl

-- If the last of the requests of a scan of a named model version that completes is refused, the update
-- of the status of the report, then the report that an earlier scan left has the digest that was just
-- measured beside the verdict of the earlier scan. A later call of `Reconcile`, in which nothing is
-- refused, leaves it so, as long as there are results and the policy and what the gate says of them are
-- as before.
pub stale_verdict_stands :
    (f g : Faults) (setup : Setup) (spec : ScanSpec) (policy : Option ArtifactScanPolicy)
    (now later : ℕ) (w : World) (status : ScanStatus) (old : ModelSecurityReport)
    → spec.model_name ≢ ""
    → spec.model_version ≢ ""
    → f.exceptions_fail ≡ false
    → f.status_fails ≡ false
    → f.upsert_fails ≡ false
    → f.report_status_fails ≡ true
    → w.model_report ≡ some old
    → 0 < length status.results
    → IsQuiet g
    → load_policy g setup spec ≡ some policy
    → eval_of setup spec policy later status.results ≡ eval_of setup spec policy now status.results
    → (reconcile_scan g setup spec later (complete f setup spec policy now w status).0
        ≡ ((complete f setup spec policy now w status).0, settled))
      × ((complete f setup spec policy now w status).0.model_report
          ≡ some (record old {
            model_name = spec.model_name;
            model_version = spec.model_version;
            artifact = record spec.artifact { digest = digest_scanned spec status };
            scan_ref = spec.name;
          }))
unfolding with_spec is_finished
stale_verdict_stands f g setup spec policy now later w status old named versioned exceptions_read
      status_put upserted lost e full quiet loaded same =
    let eval = eval_of setup spec policy now status.results in
    let half = half_done f setup spec now w status eval old in
    let left : (complete f setup spec policy now w status).0 ≡ half =
      ap (λ (r : World × Ended). r.0)
        (complete_half_done f setup spec policy now w status old named versioned exceptions_read
          status_put upserted lost e) in
    rw left (
      reconcile_scan-settled g setup spec policy later half refl full loaded quiet.exceptions
          (sym (ap Evaluation.verdict same))
          (sym (ap (λ (v : Evaluation). some v.risk_score) same)),
      refl,
    )
