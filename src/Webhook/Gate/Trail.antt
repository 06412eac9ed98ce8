-- ===== src/Webhook/Gate/Trail.antt =====
-- What the admissions of internal/webhook/gate.go leave in the audit chain, and what they ignore.
use cupel.Base.{
  ℕ, ◌+◌, ◌<◌, ◌^◌, ◌≡◌, ◌≢◌, ◌⊎◌, inl, inr, refl, subst, ◌&&◌, true, false, Option, none, some,
  List, [], ◌∷◌, String, arith, eq_iff, str_eq, Bool-cases, if◌then◌else◌,
}
use cupel.Api.{SeverityCounts, ModelSecurityReport}
use cupel.Webhook.ModelRef.{ModelRef, Evidence, Workload, extract_model_ref, ref_from_evidence}
use cupel.Webhook.Reads.{
  Reply, found, not_found, failed, Cluster, ModelGate, find_report, enforcement_for,
  promotion_mode_for,
}
use cupel.Webhook.Evaluate.{Reason, evaluate, total_counts, is_positive}
use cupel.Webhook.Evaluate.Cleared.{IsCleared, evaluate-iff-IsCleared}
use cupel.Webhook.Gate.{
  Request, Handled, Response, admit, deny, errored, Operation, delete, create, update, connect,
  Outcome, denied, allowed, error, judge, enforce, on_decision, on_reply, gate_ref, gate_evidence,
  gate_object, gate_decoded, handle_operation, skips, handle, recorded, is_auditable,
}
use cupel.Webhook.Gate.Admission.{settled_ref, handle_object}

-- All five counts are zero.
abbrev pub IsZero : SeverityCounts → Type 0
IsZero n = (n.critical ≡ 0) × (n.high ≡ 0) × (n.medium ≡ 0) × (n.low ≡ 0) × (n.unknown ≡ 0)

abbrev pub sum : SeverityCounts → ℕ
sum n = n.critical + n.high + n.medium + n.low + n.unknown

not_positive :
    (n : SeverityCounts) → is_positive (total_counts n) ≡ false → sum n < 2 ^ 31 → IsZero n
unfolding is_positive total_counts
not_positive n h small =
    let none_left : sum n ≡ 0 = ground arith in
    (omega arith, omega arith, omega arith, omega arith, omega arith)

-- A report was found that clears the workload. It counts no part of the artifact as unread, if its
-- counts add up to a number that fits 31 bits.
pub record HasFullReport (g : ModelGate) (c : Cluster) (req : Request) (obj : Workload)
    (ref : ModelRef) : Type 0 where
  pub report : ModelSecurityReport
  pub is_found : find_report g c req.namespace ref ≡ found report
  pub cleared : IsCleared g report ref (promotion_mode_for g c req.namespace obj.annotations)
  pub examined : sum report.unexamined < 2 ^ 31 → IsZero report.unexamined

enforce_outcome :
    (mode : String) (ref : ModelRef) (why : Reason) → (enforce mode ref why).outcome ≢ allowed
unfolding enforce
enforce_outcome mode ref why = ground arith

on_decision_allowed :
    (mode : String) (ref : ModelRef) (report : ModelSecurityReport) (decision : Option Reason)
    → (on_decision mode ref report decision).outcome ≡ allowed
    → (decision ≡ none) × (is_positive (total_counts report.unexamined) ≡ false)
unfolding on_decision
on_decision_allowed mode ref report (some why) h = absurd (enforce_outcome mode ref why h)
on_decision_allowed mode ref report none h = (refl, ground arith)

-- A denial is counted as one, an error as one, and an admission as neither.
abbrev pub Agrees : Response → Outcome → Type 0
Agrees (deny why) outcome = outcome ≡ denied
Agrees (errored code) outcome = outcome ≡ error
Agrees (admit why warnings) outcome = (outcome ≢ denied) × (outcome ≢ error)

abbrev pub AgreesIn : Handled → Type 0
AgreesIn h = Agrees h.response h.outcome

enforce_agrees : (mode : String) (ref : ModelRef) (why : Reason) → AgreesIn (enforce mode ref why)
unfolding enforce
enforce_agrees mode ref why = elim (Bool-cases (str_eq mode "Audit")) [
  | inl audit ↦ rw audit ((λ e. cc), (λ e. cc))
  | inr other ↦ elim (Bool-cases (str_eq mode "Warn")) [
    | inl warn ↦ rw (other, warn) ((λ e. cc), (λ e. cc))
    | inr neither ↦ rw (other, neither) refl
  ]
]

on_decision_agrees :
    (mode : String) (ref : ModelRef) (report : ModelSecurityReport) (decision : Option Reason)
    → AgreesIn (on_decision mode ref report decision)
unfolding on_decision
on_decision_agrees mode ref report (some why) = enforce_agrees mode ref why
on_decision_agrees mode ref report none =
    elim (Bool-cases (is_positive (total_counts report.unexamined))) [
      | inl partial ↦ rw partial ((λ e. cc), (λ e. cc))
      | inr whole ↦ rw whole ((λ e. cc), (λ e. cc))
    ]

unrecorded_outcome :
    (g : ModelGate) (h : Handled) (why : Reason) (warnings : List Reason)
    → g.records ≡ true
    → AgreesIn h
    → h.response ≡ admit why warnings
    → recorded true g h ≡ none
    → h.outcome ≡ allowed
unfolding recorded
unrecorded_outcome g h why warnings records agrees admitted silent =
    go h.outcome (subst (λ r. Agrees r h.outcome) admitted agrees) silent
  where
    go :
        (outcome : Outcome)
        → Agrees (admit why warnings) outcome
        → (if g.records && is_auditable outcome then if true then some outcome else none else none)
          ≡ none
        → outcome ≡ allowed
    go allowed a e = refl
    go error a e = absurd (a.1 refl)
    go _ a e = cc (rw records at e)

module _ (g : ModelGate) (c : Cluster) (req : Request) (obj : Workload) where
  judge_allowed :
      (ref : ModelRef) (report : ModelSecurityReport)
      → (judge g c req obj ref report).outcome ≡ allowed
      → (evaluate g report ref (promotion_mode_for g c req.namespace obj.annotations) ≡ none)
        × (is_positive (total_counts report.unexamined) ≡ false)
  unfolding judge
  judge_allowed ref report h =
      on_decision_allowed (enforcement_for g c req.namespace obj.annotations) ref report _ h

  on_reply_allowed :
      (ref : ModelRef) (answer : Reply ModelSecurityReport)
      → find_report g c req.namespace ref ≡ answer
      → (on_reply g c req obj ref answer).outcome ≡ allowed
      → HasFullReport g c req obj ref
  unfolding on_reply
  on_reply_allowed ref failed e h = cc
  on_reply_allowed ref not_found e h = ground arith
  on_reply_allowed ref (found report) e h =
      let (clear, whole) = judge_allowed ref report h in
      record {
        report = report;
        is_found = e;
        cleared = (evaluate-iff-IsCleared g report ref _).0 clear;
        examined = not_positive report.unexamined whole;
      }

  on_reply_agrees :
      (ref : ModelRef) (answer : Reply ModelSecurityReport)
      → AgreesIn (on_reply g c req obj ref answer)
  unfolding on_reply judge
  on_reply_agrees ref failed = refl
  on_reply_agrees ref not_found = elim (Bool-cases g.require_report) [
    | inl strict ↦ rw strict refl
    | inr lenient ↦ rw lenient ((λ e. cc), (λ e. cc))
  ]
  on_reply_agrees ref (found report) = on_decision_agrees _ ref report _

  gate_evidence_agrees :
      (declared : ModelRef) (evidence : List Evidence)
      → AgreesIn (gate_evidence g c req obj declared evidence)
  unfolding gate_evidence gate_ref
  gate_evidence_agrees declared [] = ((λ e. cc), (λ e. cc))
  gate_evidence_agrees declared (e ∷ es) =
      elim (Bool-cases (str_eq (ref_from_evidence (e ∷ es)).model "")) [
        | inr named ↦ rw named (on_reply_agrees (ref_from_evidence (e ∷ es)) _)
        | inl unnamed ↦ elim (Bool-cases g.require_report) [
          | inl strict ↦ rw (unnamed, strict) refl
          | inr lenient ↦ rw (unnamed, lenient) ((λ e. cc), (λ e. cc))
        ]
      ]

  pub gate_object_agrees : AgreesIn (gate_object g c req obj)
  unfolding gate_object gate_ref
  gate_object_agrees = elim (Bool-cases (skips obj)) [
    | inl skipping ↦ rw skipping ((λ e. cc), (λ e. cc))
    | inr plain ↦ elim (Bool-cases (str_eq (extract_model_ref obj).model "")) [
      | inl unnamed ↦
          rw (plain, unnamed) (gate_evidence_agrees (extract_model_ref obj) obj.evidence)
      | inr named ↦ rw (plain, named) (on_reply_agrees (extract_model_ref obj) _)
    ]
  ]

  gate_ref_allowed :
      (ref : ModelRef)
      → (gate_ref g c req obj ref).outcome ≡ allowed
      → HasFullReport g c req obj ref
  unfolding gate_ref
  gate_ref_allowed ref h = on_reply_allowed ref (find_report g c req.namespace ref) refl h

  gate_evidence_allowed :
      (declared : ModelRef) (evidence : List Evidence)
      → (gate_evidence g c req obj declared evidence).outcome ≡ allowed
      → (evidence ≡ []) ⊎ HasFullReport g c req obj (ref_from_evidence evidence)
  unfolding gate_evidence
  gate_evidence_allowed declared [] h = inl refl
  gate_evidence_allowed declared (e ∷ es) h =
      elim (Bool-cases (str_eq (ref_from_evidence (e ∷ es)).model "")) [
        | inl unnamed ↦ ground arith
        | inr named ↦ inr (gate_ref_allowed (ref_from_evidence (e ∷ es)) (rw named at h))
      ]

  gate_object_allowed :
      (gate_object g c req obj).outcome ≡ allowed
      → (((extract_model_ref obj).model ≡ "") × (obj.evidence ≡ []))
        ⊎ HasFullReport g c req obj (settled_ref obj)
  unfolding gate_object
  gate_object_allowed h = elim (Bool-cases (skips obj)) [
    | inl skipping ↦ cc (rw skipping at h)
    | inr plain ↦ elim (Bool-cases (str_eq (extract_model_ref obj).model "")) [
      | inl unnamed ↦
          elim (gate_evidence_allowed (extract_model_ref obj) obj.evidence
            (rw (plain, unnamed) at h)) [
              | inl nothing ↦ inl ((eq_iff _ "").0 unnamed, nothing)
              | inr good ↦ inr (rw unnamed good)
            ]
      | inr named ↦
          inr (rw named (gate_ref_allowed (extract_model_ref obj) (rw (plain, named) at h)))
    ]
  ]

  -- Whatever the gate's settings, the policy and the annotations: where decisions are recorded, a
  -- request that is admitted without a record, although the append would have succeeded, is about no
  -- model at all, or about one with a report that clears it and whose five counts of unread parts are
  -- zero, if they add up to a number that fits 31 bits. The request is no deletion, and decodes.
  pub unrecorded_admission_is_clean :
      (why : Reason) (warnings : List Reason)
      → req.operation ≢ delete
      → req.object ≡ some obj
      → g.records ≡ true
      → (handle g c req).response ≡ admit why warnings
      → recorded true g (handle g c req) ≡ none
      → (((extract_model_ref obj).model ≡ "") × (obj.evidence ≡ []))
        ⊎ HasFullReport g c req obj (settled_ref obj)
  unrecorded_admission_is_clean why warnings stays decoded records admitted silent =
      let same = handle_object g c req obj stays decoded in
      gate_object_allowed (
        unrecorded_outcome g (gate_object g c req obj) why warnings records gate_object_agrees
          (rw same at admitted) (rw same at silent))

-- In every case a denied response is counted as denied, an error response as an error, and an
-- admission as neither: so the audit record says `admitted` exactly of what was let in.
pub handle-Agrees :
    (g : ModelGate) (c : Cluster) (req : Request)
    → Agrees (handle g c req).response (handle g c req).outcome
unfolding handle
handle-Agrees g c req = operation req.operation
  where
    decoded : (object : Option Workload) → AgreesIn (gate_decoded g c req object)
    decoded none = refl
    decoded (some obj) = gate_object_agrees g c req obj

    operation : (op : Operation) → AgreesIn (handle_operation op g c req)
    operation delete = ((λ e. cc), (λ e. cc))
    operation create = decoded req.object
    operation update = decoded req.object
    operation connect = decoded req.object
