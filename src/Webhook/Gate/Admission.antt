-- ===== src/Webhook/Gate/Admission.antt =====
-- What it takes for internal/webhook/gate.go to admit a workload.
use cupel.Base.{
  ◌≡◌, ◌≢◌, ◌⊎◌, inl, inr, refl, sym, ap, ◌∙◌, true, false, Option, none, some, List, [], ◌∷◌,
  String, arith, eq_iff, str_eq, Bool-cases, if◌then◌else◌,
}
use cupel.Api.{ModelSecurityReport}
use cupel.Webhook.ModelRef.{ModelRef, Evidence, Workload, extract_model_ref, ref_from_evidence}
use cupel.Webhook.Reads.{
  Reply, found, not_found, failed, Cluster, ModelGate, find_report, enforcement_for,
  promotion_mode_for,
}
use cupel.Webhook.Evaluate.{Reason, evaluate}
use cupel.Webhook.Evaluate.Cleared.{IsCleared, evaluate-iff-IsCleared}
use cupel.Webhook.Gate.{
  Request, Handled, admit, deny, Operation, delete, create, update, connect, judge, enforce,
  gate_ref, gate_evidence, gate_object, gate_decoded, handle_operation, on_decision, on_reply,
  skips, handle,
}

-- The reference that the gate settles on: the declared one, or one built from evidence.
abbrev pub settled_ref : Workload → ModelRef
settled_ref obj =
    if str_eq (extract_model_ref obj).model ""
    then ref_from_evidence obj.evidence
    else extract_model_ref obj

-- A report was found for the reference, and it clears the workload.
pub record HasClearedReport (g : ModelGate) (c : Cluster) (req : Request) (obj : Workload)
    (ref : ModelRef) : Type 0 where
  pub report : ModelSecurityReport
  pub is_found : find_report g c req.namespace ref ≡ found report
  pub cleared : IsCleared g report ref (promotion_mode_for g c req.namespace obj.annotations)

-- A request that is not a deletion and decodes is gated by its object.
pub handle_object :
    (g : ModelGate) (c : Cluster) (req : Request) (obj : Workload)
    → req.operation ≢ delete
    → req.object ≡ some obj
    → handle g c req ≡ gate_object g c req obj
unfolding handle
handle_object g c req obj stays decoded = go req.operation stays
  where
    go : (op : Operation) → op ≢ delete → handle_operation op g c req ≡ gate_object g c req obj
    go delete n = absurd (n refl)
    go create n = ap (gate_decoded g c req) decoded
    go update n = ap (gate_decoded g c req) decoded
    go connect n = ap (gate_decoded g c req) decoded

module _ (g : ModelGate) (c : Cluster) (req : Request) (obj : Workload) where
  enforce_denies :
      (mode : String) (ref : ModelRef) (why : Reason)
      → mode ≢ "Audit"
      → mode ≢ "Warn"
      → (enforce mode ref why).response ≡ deny why
  unfolding enforce
  enforce_denies mode ref why a w = ground (arith, eq_iff mode "Audit", eq_iff mode "Warn")

  on_decision_admits :
      (mode : String) (ref : ModelRef) (report : ModelSecurityReport) (decision : Option Reason)
      (why : Reason) (warnings : List Reason)
      → mode ≢ "Audit"
      → mode ≢ "Warn"
      → (on_decision mode ref report decision).response ≡ admit why warnings
      → decision ≡ none
  unfolding on_decision
  on_decision_admits mode ref report none why warnings a w h = refl
  on_decision_admits mode ref report (some reason) why warnings a w h =
      cc (enforce_denies mode ref reason a w)

  judge_admits :
      (ref : ModelRef) (report : ModelSecurityReport) (why : Reason) (warnings : List Reason)
      → enforcement_for g c req.namespace obj.annotations ≢ "Audit"
      → enforcement_for g c req.namespace obj.annotations ≢ "Warn"
      → (judge g c req obj ref report).response ≡ admit why warnings
      → evaluate g report ref (promotion_mode_for g c req.namespace obj.annotations) ≡ none
  unfolding judge
  judge_admits ref report why warnings a w h =
      on_decision_admits _ ref report
        (evaluate g report ref (promotion_mode_for g c req.namespace obj.annotations)) why warnings
        a w h

  gate_ref_admits :
      (ref : ModelRef) (why : Reason) (warnings : List Reason)
      → g.require_report ≡ true
      → enforcement_for g c req.namespace obj.annotations ≢ "Audit"
      → enforcement_for g c req.namespace obj.annotations ≢ "Warn"
      → (gate_ref g c req obj ref).response ≡ admit why warnings
      → HasClearedReport g c req obj ref
  unfolding gate_ref
  gate_ref_admits ref why warnings strict a w h = go (find_report g c req.namespace ref) refl h
    where
      go :
          (answer : Reply ModelSecurityReport)
          → find_report g c req.namespace ref ≡ answer
          → (on_reply g c req obj ref answer).response ≡ admit why warnings
          → HasClearedReport g c req obj ref
      go failed e h = cc
      go not_found e h = ground arith
      go (found report) e h = record {
        report = report;
        is_found = e;
        cleared =
            (evaluate-iff-IsCleared g report ref _).0 (judge_admits ref report why warnings a w h);
      }

  gate_evidence_admits :
      (declared : ModelRef) (why : Reason) (warnings : List Reason)
      → g.require_report ≡ true
      → enforcement_for g c req.namespace obj.annotations ≢ "Audit"
      → enforcement_for g c req.namespace obj.annotations ≢ "Warn"
      → (evidence : List Evidence)
      → (gate_evidence g c req obj declared evidence).response ≡ admit why warnings
      → (evidence ≡ []) ⊎ HasClearedReport g c req obj (ref_from_evidence evidence)
  unfolding gate_evidence
  gate_evidence_admits declared why warnings strict a w [] h = inl refl
  gate_evidence_admits declared why warnings strict a w (e ∷ es) h =
      elim (Bool-cases (str_eq (ref_from_evidence (e ∷ es)).model "")) [
        | inl unnamed ↦ cc (rw (unnamed, strict) at h)
        | inr named ↦
            inr
              (gate_ref_admits (ref_from_evidence (e ∷ es)) why warnings strict a w (rw named at h))
      ]

  gate_object_admits :
      (why : Reason) (warnings : List Reason)
      → g.require_report ≡ true
      → skips obj ≡ false
      → enforcement_for g c req.namespace obj.annotations ≢ "Audit"
      → enforcement_for g c req.namespace obj.annotations ≢ "Warn"
      → (gate_object g c req obj).response ≡ admit why warnings
      → (((extract_model_ref obj).model ≡ "") × (obj.evidence ≡ []))
        ⊎ HasClearedReport g c req obj (settled_ref obj)
  unfolding gate_object
  gate_object_admits why warnings strict plain a w h =
      elim (Bool-cases (str_eq (extract_model_ref obj).model "")) [
        | inl unnamed ↦
            elim (gate_evidence_admits (extract_model_ref obj) why warnings strict a w obj.evidence
              (rw (plain, unnamed) at h)) [
                | inl nothing ↦ inl ((eq_iff _ "").0 unnamed, nothing)
                | inr good ↦ inr (rw unnamed good)
              ]
        | inr named ↦ inr (
            rw named (
              gate_ref_admits (extract_model_ref obj) why warnings strict a w
                (rw (plain, named) at h)))
      ]

-- A gate that requires reports, under a policy that is neither Audit nor Warn, admits a workload
-- that is not being deleted and does not carry the skip annotation only if the workload declares
-- no model and shows no evidence of one, or a report is found for its model that clears it.
pub admits_only_cleared :
    (g : ModelGate) (c : Cluster) (req : Request) (obj : Workload) (why : Reason)
    (warnings : List Reason)
    → req.operation ≢ delete
    → req.object ≡ some obj
    → skips obj ≡ false
    → g.require_report ≡ true
    → enforcement_for g c req.namespace obj.annotations ≢ "Audit"
    → enforcement_for g c req.namespace obj.annotations ≢ "Warn"
    → (handle g c req).response ≡ admit why warnings
    → (((extract_model_ref obj).model ≡ "") × (obj.evidence ≡ []))
      ⊎ HasClearedReport g c req obj (settled_ref obj)
admits_only_cleared g c req obj why warnings stays decoded plain strict a w h =
    gate_object_admits g c req obj why warnings strict plain a w
      (ap (λ (t : Handled). t.response) (sym (handle_object g c req obj stays decoded)) ∙ h)
