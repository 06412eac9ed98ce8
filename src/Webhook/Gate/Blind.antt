-- ===== src/Webhook/Gate/Blind.antt =====
-- What internal/webhook/gate.go does when it cannot read a report, and what it leaves unread for a
-- workload that it identifies by evidence.
use cupel.Base.{
  ◌≡◌, ◌≢◌, refl, sym, ap, ◌∙◌, false, some, List, [], ◌∷◌, String, arith, eq_iff, str_eq,
  Bool-cases, inl, inr, value_of,
}
use cupel.Webhook.ModelRef.{
  ModelRef, Evidence, Workload, annotation_environment, extract_model_ref, ref_from_evidence,
}
use cupel.Webhook.Reads.{
  failed, Cluster, ModelGate, lookup_namespaces, find_report, enforcement_for, promotion_mode_for,
}
use cupel.Webhook.Reads.Failing.{FailsFirst, find_report-FailsFirst}
use cupel.Webhook.Gate.{
  Request, Handled, errored, delete, judge, on_reply, gate_ref, gate_evidence, gate_object, skips,
  handle,
}
use cupel.Webhook.Gate.Admission.{settled_ref, handle_object}

module _ (g : ModelGate) (c : Cluster) (req : Request) (obj : Workload) where
  gate_ref_failed :
      (ref : ModelRef)
      → find_report g c req.namespace ref ≡ failed
      → (gate_ref g c req obj ref).response ≡ errored 500
  unfolding gate_ref
  gate_ref_failed ref h = ap (λ answer. (on_reply g c req obj ref answer).response) h

  gate_object_failed :
      skips obj ≡ false
      → (settled_ref obj).model ≢ ""
      → find_report g c req.namespace (settled_ref obj) ≡ failed
      → (gate_object g c req obj).response ≡ errored 500
  unfolding gate_object gate_evidence ref_from_evidence
  gate_object_failed plain named h = elim (Bool-cases (str_eq (extract_model_ref obj).model "")) [
    | inr declared ↦
        rw (plain, declared) (gate_ref_failed (extract_model_ref obj) (rw declared at h))
    | inl undeclared ↦
        rw (plain, undeclared)
          (by_evidence obj.evidence (rw undeclared at named) (rw undeclared at h))
  ]
    where
      by_evidence :
          (evidence : List Evidence)
          → (ref_from_evidence evidence).model ≢ ""
          → find_report g c req.namespace (ref_from_evidence evidence) ≡ failed
          → (gate_evidence g c req obj (extract_model_ref obj) evidence).response ≡ errored 500
      by_evidence [] n e = absurd (n refl)
      by_evidence (v ∷ vs) n e = elim (Bool-cases (str_eq (ref_from_evidence (v ∷ vs)).model "")) [
        | inl unnamed ↦ absurd (n ((eq_iff _ "").0 unnamed))
        | inr found ↦ rw found (gate_ref_failed (ref_from_evidence (v ∷ vs)) e)
      ]

-- Where one of the reads of the report of the workload's model fails, in the order of the namespaces
-- and names, before a report about that model is read, the request is answered with an error, and
-- is not admitted in any enforcement mode. The request is no deletion and decodes, the workload does
-- not carry the skip annotation, and a model is identified.
pub failed_read_never_admits :
    (g : ModelGate) (c : Cluster) (req : Request) (obj : Workload)
    → req.operation ≢ delete
    → req.object ≡ some obj
    → skips obj ≡ false
    → (settled_ref obj).model ≢ ""
    → FailsFirst c
        (settled_ref obj)
        (lookup_namespaces g req.namespace)
        (g.report_names (settled_ref obj).model (settled_ref obj).version)
    → (handle g c req).response ≡ errored 500
failed_read_never_admits g c req obj stays decoded plain named h =
    ap (λ (t : Handled). t.response) (handle_object g c req obj stays decoded)
    ∙ gate_object_failed g c req obj plain named
        (find_report-FailsFirst g c req.namespace (settled_ref obj) h)

-- The workload with an environment annotation in front of those that it has.
abbrev pub in_environment : String → Workload → Workload
in_environment environment obj = record obj {
  annotations = (annotation_environment, environment) ∷ obj.annotations;
}

gate_ref-in_environment :
    (g : ModelGate) (c : Cluster) (req : Request) (obj : Workload) (environment : String)
    (ref : ModelRef)
    → gate_ref g c req (in_environment environment obj) ref ≡ gate_ref g c req obj ref
unfolding gate_ref on_reply judge enforcement_for promotion_mode_for value_of
gate_ref-in_environment g c req obj environment ref = refl

gate_evidence-in_environment :
    (g : ModelGate) (c : Cluster) (req : Request) (obj : Workload) (environment : String)
    (r s : ModelRef) (evidence : List Evidence)
    → evidence ≢ []
    → gate_evidence g c req (in_environment environment obj) r evidence
      ≡ gate_evidence g c req obj s evidence
unfolding gate_evidence
gate_evidence-in_environment g c req obj environment r s [] n = absurd (n refl)
gate_evidence-in_environment g c req obj environment r s (e ∷ es) n =
    rw (gate_ref-in_environment g c req obj environment (ref_from_evidence (e ∷ es)))

extract_in_environment :
    (obj : Workload) (environment : String)
    → (extract_model_ref (in_environment environment obj)).model ≡ (extract_model_ref obj).model
unfolding extract_model_ref value_of
extract_in_environment obj environment = ground arith

skips-in_environment :
    (obj : Workload) (environment : String) → skips (in_environment environment obj) ≡ skips obj
unfolding skips value_of
skips-in_environment obj environment = refl

gate_object-in_environment :
    (g : ModelGate) (c : Cluster) (req : Request) (obj : Workload) (environment : String)
    → skips obj ≡ false
    → (extract_model_ref obj).model ≡ ""
    → obj.evidence ≢ []
    → gate_object g c req (in_environment environment obj) ≡ gate_object g c req obj
unfolding gate_object
gate_object-in_environment g c req obj environment plain undeclared n =
    rw
      (
        skips-in_environment obj environment,
        plain,
        extract_in_environment obj environment,
        undeclared,
      )
      (gate_evidence-in_environment g c req obj environment _ _ obj.evidence n)

-- A workload that is identified only by evidence is gated alike whatever environment it declares:
-- a declared environment is not asked for. The request is no deletion, the workload does not carry
-- the skip annotation, declares no model, and shows evidence of one.
pub evidence_ignores_environment :
    (g : ModelGate) (c : Cluster) (req : Request) (obj : Workload) (environment : String)
    → req.operation ≢ delete
    → skips obj ≡ false
    → (extract_model_ref obj).model ≡ ""
    → obj.evidence ≢ []
    → handle g c (record req { object = some (in_environment environment obj) })
      ≡ handle g c (record req { object = some obj })
evidence_ignores_environment g c req obj environment stays plain undeclared n =
    handle_object g c (record req { object = some (in_environment environment obj) })
      (in_environment environment obj) stays refl
    ∙ gate_object-in_environment g c _ obj environment plain undeclared n
    ∙ same_request
    ∙ sym (handle_object g c (record req { object = some obj }) obj stays refl)
  where
    same_request :
        gate_object g c (record req { object = some (in_environment environment obj) }) obj
        ≡ gate_object g c (record req { object = some obj }) obj
    same_request = unfold gate_object gate_evidence gate_ref on_reply judge in refl
