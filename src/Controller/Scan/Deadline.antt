-- ===== src/Controller/Scan/Deadline.antt =====
-- A scan of internal/controller/artifactscan_controller.go that is overdue is brought to an end.
use cupel.Base.{
  ℕ, ◌+◌, ◌<◌, ◌≡◌, ◌≢◌, refl, Bool, true, false, not, Option, none, some, List, [], ◌∷◌, String,
  str_eq, eq_iff, ltb, any, arith, Bool-cases, inl, inr,
}
use cupel.Policy.{ArtifactScanPolicy}
use cupel.Controller.Scan.{
  ScanSpec, ScanStatus, Job, ScanReport, World, Faults, Setup, Message, unresolved, no_scanners,
}
use cupel.Controller.Scan.Jobs.{
  on_found, read_fails, resolve_scanners, find_scan_job, ensure_scan_job, ensure_scan_jobs,
  collecting_fails, collect_results,
}
use cupel.Controller.Scan.Reconcile.{
  is_overdue, scan_deadline, load_policy, fail, complete, wait_or_fail, collect, enter_scanning,
  on_wanted, advance_scan, is_finished, reconcile_scan,
}

-- No request of a call is refused.
pub record IsQuiet (f : Faults) : Type 0 where
  pub policy : f.policy_fails ≡ false
  pub job : (n : String) → f.job_fails n ≡ false
  pub phase : f.phase_fails ≡ false
  pub reports : f.reports_fail ≡ false
  pub adoption : (n : String) → f.adoption_fails n ≡ false
  pub job_read : (n : String) → f.job_read_fails n ≡ false
  pub exceptions : f.exceptions_fail ≡ false
  pub status : f.status_fails ≡ false
  pub upsert : f.upsert_fails ≡ false
  pub report_status : f.report_status_fails ≡ false

any_none {ℓ} :
    {A : Type ℓ} (p : A → Bool) (xs : List A) → ((x : A) → p x ≡ false) → any p xs ≡ false
any_none p [] h = refl
any_none p (x ∷ xs) h = rw (h x) (any_none p xs h)

module _ (f : Faults) (q : IsQuiet f) where
  found_done : (n : String) (jobs : List Job) (j : Option Job) → (on_found f n jobs j).1 ≡ true
  unfolding on_found
  found_done n jobs none = rw (q.job n) refl
  found_done n jobs (some j) = refl

  ensure_scan_job_done : (n : String) (jobs : List Job) → (ensure_scan_job f n jobs).1 ≡ true
  unfolding ensure_scan_job
  ensure_scan_job_done n jobs = rw (q.job_read n) (found_done n jobs (find_scan_job n jobs))

  pub ensure_scan_jobs_done :
      (ns : List String) (jobs : List Job) → (ensure_scan_jobs f ns jobs).1 ≡ true
  unfolding ensure_scan_jobs
  ensure_scan_jobs_done [] jobs = refl
  ensure_scan_jobs_done (n ∷ ns) jobs =
      rw (ensure_scan_job_done n jobs) (ensure_scan_jobs_done ns (ensure_scan_job f n jobs).0)

  read_works : (reports : List ScanReport) (n : String) → read_fails f reports n ≡ false
  unfolding read_fails
  read_works reports n = ground (arith, q.job_read n)

  pub collecting_works :
      (reports : List ScanReport) (wanted : List String) → collecting_fails f reports wanted ≡ false
  unfolding collecting_fails
  collecting_works reports wanted =
      rw
        (
          q.reports,
          any_none (λ (r : ScanReport). f.adoption_fails r.name) reports (λ r. q.adoption r.name),
          any_none (read_fails f reports) wanted (read_works reports),
        )
        refl

  module _ (setup : Setup) (spec : ScanSpec) (now : ℕ) where
    fail-IsFinished :
        (w : World) (status : ScanStatus) (m : Message)
        → is_finished (fail f now w status m).0.status.phase ≡ true
    unfolding fail is_finished
    fail-IsFinished w status m = rw q.status refl

    complete-IsFinished :
        (policy : Option ArtifactScanPolicy) (w : World) (status : ScanStatus)
        → is_finished (complete f setup spec policy now w status).0.status.phase ≡ true
    unfolding complete is_finished
    complete-IsFinished policy w status = rw (q.exceptions, q.status) refl

    collect-IsFinished :
        (policy : Option ArtifactScanPolicy) (wanted : List String) (w : World)
        → is_overdue setup now w.status.start_time ≡ true
        → is_finished (collect f setup spec policy now wanted w).0.status.phase ≡ true
    unfolding collect wait_or_fail
    collect-IsFinished policy wanted w late =
        elim (Bool-cases (ltb 0 (collect_results w.jobs w.reports wanted).1)) [
          | inl some_pending ↦
              rw (collecting_works w.reports wanted, some_pending, late) (fail-IsFinished w _ _)
          | inr all_there ↦
              rw (collecting_works w.reports wanted, all_there) (complete-IsFinished policy w _)
        ]

    enter_scanning-IsFinished :
        (policy : Option ArtifactScanPolicy) (wanted : List String) (w : World)
        → is_overdue setup now w.status.start_time ≡ true
        → is_finished (enter_scanning f setup spec policy now wanted w).0.status.phase ≡ true
    unfolding enter_scanning
    enter_scanning-IsFinished policy wanted w late =
        elim (Bool-cases (not (str_eq w.status.phase "Pending"))) [
          | inl scanning ↦ rw scanning (collect-IsFinished policy wanted w late)
          | inr first ↦
              simp (first, q.phase)
                (collect-IsFinished policy wanted
                  (record w { status = record w.status { phase = "Scanning" } }) late)
        ]

    on_wanted-IsFinished :
        (policy : Option ArtifactScanPolicy) (w : World) (wanted : Option (List String))
        → is_overdue setup now w.status.start_time ≡ true
        → is_finished (on_wanted f setup spec policy now w wanted).0.status.phase ≡ true
    unfolding on_wanted
    on_wanted-IsFinished policy w none late = fail-IsFinished w w.status unresolved
    on_wanted-IsFinished policy w (some []) late = fail-IsFinished w w.status no_scanners
    on_wanted-IsFinished policy w (some (n ∷ ns)) late =
        rw (ensure_scan_jobs_done (n ∷ ns) w.jobs)
          (enter_scanning-IsFinished policy (n ∷ ns) _ late)

    advance_scan-IsFinished :
        (w : World)
        → is_overdue setup now w.status.start_time ≡ true
        → is_finished (advance_scan f setup spec now w (load_policy f setup spec)).0.status.phase
          ≡ true
    unfolding load_policy advance_scan
    advance_scan-IsFinished w late = elim (Bool-cases (str_eq spec.policy_ref "")) [
      | inl unnamed ↦
          rw unnamed (on_wanted-IsFinished none w (resolve_scanners setup spec none) late)
      | inr named ↦
          simp (named, q.policy)
            (on_wanted-IsFinished setup.policy w (resolve_scanners setup spec setup.policy) late)
    ]

    -- If no request is refused, a scan that was started longer ago than the deadline is finished by one
    -- call of `Reconcile`, whatever its jobs and reports are.
    pub overdue-IsFinished :
        (w : World) (started : ℕ)
        → w.status.phase ≢ ""
        → is_finished w.status.phase ≡ false
        → w.status.start_time ≡ some started
        → started + scan_deadline setup < now
        → is_finished (reconcile_scan f setup spec now w).0.status.phase ≡ true
    unfolding reconcile_scan is_overdue
    overdue-IsFinished w started begun unfinished e late =
        let has_phase : str_eq w.status.phase "" ≡ false =
          ground (arith, begun, eq_iff w.status.phase "") in
        rw (has_phase, unfinished) (advance_scan-IsFinished w (rw e (ground arith)))
