-- ===== src/Controller/Scan/Work.antt =====
-- The jobs that a scan of internal/controller/artifactscan_controller.go has.
use cupel.Base.{
  ℕ, ◌||◌, ltb, length, ◌==◌, ◌≡◌, refl, false, not, Option, none, some, List, [], ◌∷◌, ◌++◌,
  String, str_eq, eq_iff, arith, Bool-cases, inl, inr,
}
use cupel.Policy.{ArtifactScanPolicy}
use cupel.Controller.Scan.{
  ScanSpec, ScanStatus, Message, unresolved, no_scanners, Job, World, Faults, Setup, Ended, settled,
  waiting,
}
use cupel.Controller.Scan.Reconcile.{
  load_policy, put_status, fail, publish_report, complete, is_overdue, wait_or_fail, collect,
  enter_scanning, on_wanted, advance_scan, reevaluate, is_finished, start_scan, reconcile_finished,
  reconcile_scan,
}
use cupel.Controller.Scan.Jobs.{
  find_scan_job, new_job, on_found, ensure_scan_job, ensure_scan_jobs, collecting_fails,
  collect_results, resolve_scanners,
}

-- No two jobs are of the same scanner.
abbrev pub Distinct : List Job → Type 0
Distinct [] = Unit {0}
Distinct (j ∷ js) = (find_scan_job j.scanner js ≡ none) × Distinct js

find_scan_job-append :
    (n : String) (js : List Job) (j : Job)
    → find_scan_job n js ≡ none
    → str_eq j.scanner n ≡ false
    → find_scan_job n (js ++ j ∷ []) ≡ none
unfolding find_scan_job
find_scan_job-append n [] j h other = rw other refl
find_scan_job-append n (k ∷ ks) j h other = elim (Bool-cases (str_eq k.scanner n)) [
  | inl same ↦ cc (rw same at h)
  | inr apart ↦ rw apart (find_scan_job-append n ks j (rw apart at h) other)
]

str_eq_sym : (m n : String) → str_eq m n ≡ false → str_eq n m ≡ false
str_eq_sym m n h = ground (arith, eq_iff m n, eq_iff n m)

Distinct-append :
    (js : List Job) (n : String)
    → Distinct js
    → find_scan_job n js ≡ none
    → Distinct (js ++ new_job n ∷ [])
unfolding find_scan_job
Distinct-append [] n d h = (refl, tt)
Distinct-append (k ∷ ks) n d h = elim (Bool-cases (str_eq k.scanner n)) [
  | inl same ↦ cc (rw same at h)
  | inr apart ↦ (
    find_scan_job-append k.scanner ks (new_job n) d.0 (str_eq_sym k.scanner n apart),
    Distinct-append ks n d.1 (rw apart at h),
  )
]

on_found-Distinct :
    (f : Faults) (n : String) (jobs : List Job) (j : Option Job)
    → find_scan_job n jobs ≡ j
    → Distinct jobs
    → Distinct (on_found f n jobs j).0
unfolding on_found
on_found-Distinct f n jobs (some j) h d = d
on_found-Distinct f n jobs none h d = elim (Bool-cases (f.job_fails n)) [
  | inl bad ↦ simp bad d
  | inr fine ↦ simp fine (Distinct-append jobs n d h)
]

ensure_scan_job-Distinct :
    (f : Faults) (n : String) (jobs : List Job)
    → Distinct jobs
    → Distinct (ensure_scan_job f n jobs).0
unfolding ensure_scan_job
ensure_scan_job-Distinct f n jobs d = elim (Bool-cases (f.job_read_fails n)) [
  | inl bad ↦ simp bad d
  | inr fine ↦ simp fine (on_found-Distinct f n jobs (find_scan_job n jobs) refl d)
]

pub ensure_scan_jobs-Distinct :
    (f : Faults) (ns : List String) (jobs : List Job)
    → Distinct jobs
    → Distinct (ensure_scan_jobs f ns jobs).0
unfolding ensure_scan_jobs
ensure_scan_jobs-Distinct f [] jobs d = d
ensure_scan_jobs-Distinct f (n ∷ ns) jobs d = elim (Bool-cases (ensure_scan_job f n jobs).1) [
  | inl done ↦ rw done (
      ensure_scan_jobs-Distinct f ns (ensure_scan_job f n jobs).0
        (ensure_scan_job-Distinct f n jobs d))
  | inr failed ↦ rw failed (ensure_scan_job-Distinct f n jobs d)
]

module _ (f : Faults) (setup : Setup) (spec : ScanSpec) (now : ℕ) where
  put_status-jobs :
      (w : World) (status : ScanStatus) (e : Ended) → (put_status f w status e).0.jobs ≡ w.jobs
  unfolding put_status
  put_status-jobs w status e = elim (Bool-cases f.status_fails) [
    | inl bad ↦ simp bad refl
    | inr fine ↦ simp fine refl
  ]

  fail-jobs :
      (w : World) (status : ScanStatus) (m : Message) → (fail f now w status m).0.jobs ≡ w.jobs
  unfolding fail
  fail-jobs w status m = put_status-jobs w _ settled

  complete-jobs :
      (policy : Option ArtifactScanPolicy) (w : World) (status : ScanStatus)
      → (complete f setup spec policy now w status).0.jobs ≡ w.jobs
  unfolding complete publish_report
  complete-jobs policy w status = elim (Bool-cases (f.exceptions_fail || f.status_fails)) [
    | inl bad ↦ simp bad refl
    | inr fine ↦ simp fine refl
  ]

  collect-jobs :
      (policy : Option ArtifactScanPolicy) (wanted : List String) (w : World)
      → (collect f setup spec policy now wanted w).0.jobs ≡ w.jobs
  unfolding collect wait_or_fail
  collect-jobs policy wanted w = elim (Bool-cases (collecting_fails f w.reports wanted)) [
    | inl bad ↦ simp bad refl
    | inr fine ↦ elim (Bool-cases (ltb 0 (collect_results w.jobs w.reports wanted).1)) [
      | inr all_there ↦ simp (fine, all_there) (complete-jobs policy w _)
      | inl some_pending ↦ elim (Bool-cases (is_overdue setup now w.status.start_time)) [
        | inl late ↦ simp (fine, some_pending, late) (fail-jobs w _ _)
        | inr early ↦ simp (fine, some_pending, early) (put_status-jobs w _ waiting)
      ]
    ]
  ]

  enter_scanning-jobs :
      (policy : Option ArtifactScanPolicy) (wanted : List String) (w : World)
      → (enter_scanning f setup spec policy now wanted w).0.jobs ≡ w.jobs
  unfolding enter_scanning
  enter_scanning-jobs policy wanted w = elim (Bool-cases (not (str_eq w.status.phase "Pending"))) [
    | inl scanning ↦ simp scanning (collect-jobs policy wanted w)
    | inr first ↦ elim (Bool-cases f.phase_fails) [
      | inl bad ↦ simp (first, bad) refl
      | inr fine ↦
          simp (first, fine)
            (collect-jobs policy wanted
              (record w { status = record w.status { phase = "Scanning" } }))
    ]
  ]

  on_wanted-Distinct :
      (policy : Option ArtifactScanPolicy) (w : World) (wanted : Option (List String))
      → Distinct w.jobs
      → Distinct (on_wanted f setup spec policy now w wanted).0.jobs
  unfolding on_wanted
  on_wanted-Distinct policy w none d = rw (fail-jobs w w.status unresolved) d
  on_wanted-Distinct policy w (some []) d = rw (fail-jobs w w.status no_scanners) d
  on_wanted-Distinct policy w (some (n ∷ ns)) d =
      let more = ensure_scan_jobs-Distinct f (n ∷ ns) w.jobs d in
      elim (Bool-cases (ensure_scan_jobs f (n ∷ ns) w.jobs).1) [
        | inr failed ↦ rw failed more
        | inl done ↦
            rw
              (
                done,
                enter_scanning-jobs policy (n ∷ ns)
                    (record w { jobs = (ensure_scan_jobs f (n ∷ ns) w.jobs).0 }),
              )
              more
      ]

  advance_scan-Distinct :
      (w : World) (policy : Option (Option ArtifactScanPolicy))
      → Distinct w.jobs
      → Distinct (advance_scan f setup spec now w policy).0.jobs
  unfolding advance_scan
  advance_scan-Distinct w none d = d
  advance_scan-Distinct w (some policy) d =
      on_wanted-Distinct policy w (resolve_scanners setup spec policy) d

  reevaluate-jobs :
      (w : World) (policy : Option (Option ArtifactScanPolicy))
      → (reevaluate f setup spec now w policy).0.jobs ≡ w.jobs
  unfolding reevaluate publish_report
  reevaluate-jobs w none = refl
  reevaluate-jobs w (some policy) = ground arith

  reconcile_finished-jobs : (w : World) → (reconcile_finished f setup spec now w).0.jobs ≡ w.jobs
  unfolding reconcile_finished
  reconcile_finished-jobs w = elim (Bool-cases (length w.status.results == 0)) [
    | inl bare ↦ simp bare refl
    | inr full ↦ simp full (reevaluate-jobs w (load_policy f setup spec))
  ]

  -- Whatever fails, a call of `Reconcile` keeps that no two jobs are of the same scanner.
  pub reconcile_scan-Distinct :
      (w : World) → Distinct w.jobs → Distinct (reconcile_scan f setup spec now w).0.jobs
  unfolding reconcile_scan start_scan
  reconcile_scan-Distinct w d = elim (Bool-cases (str_eq w.status.phase "")) [
    | inl new ↦ elim (Bool-cases f.phase_fails) [
      | inl bad ↦ simp (new, bad) d
      | inr fine ↦ simp (new, fine) d
    ]
    | inr begun ↦ elim (Bool-cases (is_finished w.status.phase)) [
      | inl finished ↦ simp (begun, finished) (rw (reconcile_finished-jobs w) d)
      | inr running ↦ simp (begun, running) (advance_scan-Distinct w (load_policy f setup spec) d)
    ]
  ]
