-- ===== src/Controller/Promotion/Tests.antt =====
-- The reconciler of promotion requests run: the theorems applied, and tests by evaluation.
use cupel.Base.{
  ◌≡◌, ◌⊎◌, refl, true, false, none, some, [], ◌∷◌, MemOf, is_member, sort_strings, String_discrete,
  ℕ_discrete, codes_before,
}
use cupel.Api.{ModelSecurityReport, PromotionSpec}
use cupel.Webhook.Reads.{found}
use cupel.Controller.Promotion.{
  empty, PromotionStatus, World, Faults, done, failed_with, after, is_terminal, security_report,
  reconcile, on_report, act, publish, next_status, decide, promotes, with_environment,
  writes_environment, promoted_environments, is_unchanged, Status-discrete, Message-discrete,
}
use cupel.Controller.Promotion.Environments.{
  IsPromotable, IsExtension, environments_grow_only_by_approval,
}
use cupel.Controller.Promotion.Retry.{no_faults}
use cupel.Controller.Promotion.Decisions.{approved_only_on_verdict}
use cupel.Controller.Promotion.Unrecorded.{lost_reply_loses_record}

abbrev approved_report : ModelSecurityReport
approved_report = record {
  namespace = "ml";
  name = "fraud";
  model_name = "fraud";
  model_version = "3";
  artifact = record {
    uri = "s3://fraud";
    digest = "sha256:ab";
    media_type = "";
    format = "";
    size_bytes = none;
  };
  scan_ref = "scan";
  verdict = "Approved";
  risk_score = 0;
  malware = "Clean";
  unexamined = record { critical = 0; high = 0; medium = 0; low = 0; unknown = 0 };
  last_scan_time = some 50;
  approved_environments = "stage" ∷ [];
}

abbrev request : PromotionSpec
request = record {
  model_name = "fraud";
  model_version = "3";
  target_environment = "prod";
  requestor = "dana";
  justification = "";
  decision = "Approve";
  decision_reason = "";
  decided_by = "alice";
  decided_by_groups = [];
  decided_at = some 100;
}

abbrev opened_status : PromotionStatus
opened_status = record {
  phase = "";
  verdict = "";
  observed_verdict_time = none;
  reviewed_by = "";
  review_time = none;
  message = empty;
}

abbrev start : World
start = record { status = opened_status; environments = "stage" ∷ []; trail = [] }

-- The report is written, and the update of the status is refused.
abbrev status_refused : Faults
status_refused = record no_faults { status_update_fails = true }

half_done :
    reconcile status_refused request (found approved_report) start
    ≡ failed_with (record start { environments = "prod" ∷ "stage" ∷ [] })
unfolding reconcile on_report act publish next_status decide promotes with_environment
    writes_environment promoted_environments is_unchanged Status-discrete Message-discrete
    String_discrete ℕ_discrete is_member sort_strings codes_before is_terminal
half_done = refl

-- A report of another model that is stored under the name is passed over.
skips_other_model :
    security_report request
      (found (record approved_report { model_name = "triage" }) ∷ found approved_report ∷ [])
    ≡ found approved_report
unfolding security_report
skips_other_model = refl

-- The update of the status takes effect, and its reply is lost.
abbrev reply_lost : Faults
reply_lost = record no_faults { status_reply_lost = true }

lost_reply_loses_record_example :
    ((after (reconcile reply_lost request (found approved_report) start)).status.phase ≡ "Approved")
    × MemOf "prod" (after (reconcile reply_lost request (found approved_report) start)).environments
    × ((after (reconcile reply_lost request (found approved_report) start)).trail ≡ [])
    × (reconcile no_faults request
          (found approved_report)
          (after (reconcile reply_lost request (found approved_report) start))
        ≡ done (after (reconcile reply_lost request (found approved_report) start)))
unfolding is_terminal
lost_reply_loses_record_example =
    lost_reply_loses_record reply_lost no_faults request request approved_report
      (found approved_report) start refl refl refl refl refl refl refl

approved_only_on_verdict_example :
    (approved_report.verdict ≡ "Approved")
    × (request.decision ≡ "Approve")
    × ((after (reconcile no_faults request (found approved_report) start)).status.reviewed_by
        ≡ "alice")
    × MemOf "prod" (after (reconcile no_faults request (found approved_report) start)).environments
unfolding reconcile on_report act publish next_status decide promotes with_environment
    writes_environment promoted_environments is_unchanged Status-discrete Message-discrete
    String_discrete ℕ_discrete is_member sort_strings codes_before is_terminal
approved_only_on_verdict_example =
    approved_only_on_verdict no_faults request approved_report start refl refl

environments_grow_only_by_approval_example :
    ((after (reconcile no_faults request (found approved_report) start)).environments
      ≡ "stage" ∷ [])
    ⊎ (IsPromotable request (found approved_report)
        × (is_terminal "" ≡ false)
        × IsExtension
            ("stage" ∷ [])
            "prod"
            (after (reconcile no_faults request (found approved_report) start)).environments)
environments_grow_only_by_approval_example =
    environments_grow_only_by_approval no_faults request (found approved_report) start
