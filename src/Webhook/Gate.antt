-- ===== src/Webhook/Gate.antt =====
-- `Handle` of internal/webhook/gate.go, and `recordDecision` of internal/webhook/audit.go.
pub mod Admission
pub mod Trail
pub mod Blind
mod Tests
use cupel.Base.{
  ℕ, ◌+◌, ◌-◌, ◌^◌, Bool, true, false, not, ◌||◌, ◌&&◌, Option, none, some, List, [], ◌∷◌, String,
  if◌then◌else◌, ltb, ◌==◌, str_eq, any, length, equal_fold, value_of,
}
use cupel.Webhook.Reads.{
  Reply, found, not_found, failed, Cluster, ModelGate, find_report, enforcement_for,
  promotion_mode_for,
}
use cupel.Webhook.Evaluate.{
  Reason, no_reason, skipped, unidentified, no_report, unexamined, evaluate, total_counts,
  is_positive,
}
use cupel.Api.{
  SeverityCounts, ModelSecurityReport, i32, verdict_approved, verdict_quarantined,
  verdict_review_required,
}
use cupel.Webhook.ModelRef.{
  ModelRef, Evidence, Workload, empty_ref, extract_model_ref, ref_from_evidence,
}

pub data Operation : Type 0 where
  create update delete connect : Operation

-- `object` is `none` where the raw object does not decode.
pub record Request : Type 0 where
  pub operation : Operation
  pub namespace : String
  pub username : String
  pub object : Option Workload

pub data Outcome : Type 0 where
  allowed denied allowed_no_scan allowed_audit allowed_warn allowed_skipped allowed_unidentified
        allowed_unexamined error :
      Outcome

-- An allowed response carries its message's reason, and its warnings.
pub data Response : Type 0 where
  admit : Reason → List Reason → Response
  deny : Reason → Response
  errored : ℕ → Response

-- The variables that `Handle` has set when it returns.
pub record Handled : Type 0 where
  pub response : Response
  pub outcome : Outcome
  pub ref : ModelRef
  pub reason : Reason

pub handled : Response → Outcome → ModelRef → Reason → Handled
handled response outcome ref reason = record {
  response = response;
  outcome = outcome;
  ref = ref;
  reason = reason;
}

-- What a denied evaluation becomes in each enforcement mode.
pub enforce : String → ModelRef → Reason → Handled
unfolding handled
enforce mode ref why =
    if str_eq mode "Audit"
    then handled (admit why []) allowed_audit ref why
    else if str_eq mode "Warn"
    then handled (admit no_reason (why ∷ [])) allowed_warn ref why
    else handled (deny why) denied ref why

-- What `Handle` makes of the decision of `evaluate`.
pub on_decision : String → ModelRef → ModelSecurityReport → Option Reason → Handled
unfolding handled
on_decision mode ref report (some why) = enforce mode ref why
on_decision mode ref report none =
    let n = total_counts report.unexamined in
    if is_positive n
    then handled (admit no_reason (unexamined n ∷ [])) allowed_unexamined ref (unexamined n)
    else handled (admit no_reason []) allowed ref no_reason

-- The part of `Handle` after a report was found.
pub judge : ModelGate → Cluster → Request → Workload → ModelRef → ModelSecurityReport → Handled
judge g c req obj ref report =
    on_decision (enforcement_for g c req.namespace obj.annotations) ref report
      (evaluate g report ref (promotion_mode_for g c req.namespace obj.annotations))

-- What `Handle` makes of the answer of `findReport`.
pub on_reply :
    ModelGate → Cluster → Request → Workload → ModelRef → Reply ModelSecurityReport → Handled
unfolding handled
on_reply g c req obj ref failed = handled (errored 500) error ref no_reason
on_reply g c req obj ref not_found =
    if g.require_report
    then handled (deny (no_report ref)) denied ref (no_report ref)
    else handled (admit (no_report ref) []) allowed_no_scan ref (no_report ref)
on_reply g c req obj ref (found report) = judge g c req obj ref report

-- The part of `Handle` after the reference was settled.
pub gate_ref : ModelGate → Cluster → Request → Workload → ModelRef → Handled
unfolding on_reply
gate_ref g c req obj ref = on_reply g c req obj ref (find_report g c req.namespace ref)

-- The part of `Handle` for a workload that declares no model, by the evidence of one.
pub gate_evidence : ModelGate → Cluster → Request → Workload → ModelRef → List Evidence → Handled
unfolding handled
gate_evidence g c req obj declared [] = handled (admit no_reason []) allowed declared no_reason
gate_evidence g c req obj declared (e ∷ es) =
    let ref = ref_from_evidence (e ∷ es) in
    if str_eq ref.model ""
    then if g.require_report
      then handled (deny (unidentified (e ∷ es))) denied ref (unidentified (e ∷ es))
      else handled (admit no_reason (unidentified (e ∷ es) ∷ [])) allowed_unidentified ref
          (unidentified (e ∷ es))
    else gate_ref g c req obj ref

pub skips : Workload → Bool
skips obj = equal_fold (value_of obj.annotations "security.davano.io/skip-validation") "true"

pub gate_object : ModelGate → Cluster → Request → Workload → Handled
unfolding handled
gate_object g c req obj =
    let ref = extract_model_ref obj in
    if skips obj
    then handled (admit skipped []) allowed_skipped ref skipped
    else if str_eq ref.model ""
    then gate_evidence g c req obj ref obj.evidence
    else gate_ref g c req obj ref

pub gate_decoded : ModelGate → Cluster → Request → Option Workload → Handled
unfolding handled
gate_decoded g c req none = handled (errored 400) error empty_ref no_reason
gate_decoded g c req (some obj) = gate_object g c req obj

-- `Handle`, before its deferred record.
pub handle_operation : Operation → ModelGate → Cluster → Request → Handled
unfolding handled
handle_operation delete g c req = handled (admit no_reason []) allowed empty_ref no_reason
handle_operation _ g c req = gate_decoded g c req req.object

pub handle : ModelGate → Cluster → Request → Handled
unfolding handle_operation gate_decoded
handle g c req = handle_operation req.operation g c req

-- `auditableOutcomes`
pub is_auditable : Outcome → Bool
is_auditable denied = true
is_auditable allowed_no_scan = true
is_auditable allowed_audit = true
is_auditable allowed_warn = true
is_auditable allowed_skipped = true
is_auditable allowed_unidentified = true
is_auditable allowed_unexamined = true
is_auditable allowed = false
is_auditable error = false

-- `recordDecision`: the outcome of the entry that the audit chain gets, if the outcome is auditable and
-- the append, whose success is the first argument, does not fail; a failure is only counted and logged.
pub recorded : Bool → ModelGate → Handled → Option Outcome
unfolding is_auditable
recorded appends g h =
    if g.records && is_auditable h.outcome then if appends then some h.outcome else none else none
