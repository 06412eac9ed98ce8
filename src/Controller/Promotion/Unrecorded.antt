-- ===== src/Controller/Promotion/Unrecorded.antt =====
-- A decision that internal/controller/promotion_controller.go publishes and never records.
use cupel.Base.{◌≡◌, refl, ap, ◌∙◌, true, false, some, arith, eq_iff, Bool-cases, inl, inr, MemOf}
use cupel.Api.{ModelSecurityReport, PromotionSpec}
use cupel.Webhook.Reads.{Reply, found}
use cupel.Controller.Promotion.{
  PromotionStatus, World, Faults, done, failed_with, after, is_terminal, promotes,
  writes_environment, is_unchanged, promoted_environments, next_status, decide, publish, act,
  on_report, reconcile,
}
use cupel.Controller.Promotion.Environments.{with_environment-IsExtension}
use cupel.Controller.Promotion.Retry.{is_unchanged-Path, promoted_world}

next_status-Approved :
    (pr : PromotionSpec) (status : PromotionStatus) (report : ModelSecurityReport)
    → report.verdict ≡ "Approved"
    → pr.decision ≡ "Approve"
    → (next_status pr status (some report)).phase ≡ "Approved"
unfolding next_status decide
next_status-Approved pr status report verdict decision = ground (
  arith,
  eq_iff report.verdict "Approved",
  eq_iff pr.decision "Approve",
  eq_iff pr.decision "Reject",
  eq_iff "Approve" "Reject",
)

promotes-approved :
    (pr : PromotionSpec) (report : ModelSecurityReport)
    → report.verdict ≡ "Approved"
    → pr.decision ≡ "Approve"
    → promotes pr (some report) ≡ true
unfolding promotes
promotes-approved pr report verdict decision = ground (
  arith,
  eq_iff report.verdict "Approved",
  eq_iff pr.decision "Approve",
  eq_iff pr.decision "Reject",
  eq_iff "Approve" "Reject",
)

closes :
    (status next : PromotionStatus)
    → is_terminal status.phase ≡ false
    → next.phase ≡ "Approved"
    → is_unchanged status next ≡ false
unfolding is_terminal
closes status next opened approved = elim (Bool-cases (is_unchanged status next)) [
  | inr new ↦ new
  | inl same ↦
      let e : status.phase ≡ "Approved" =
        ap PromotionStatus.phase (is_unchanged-Path status next same) ∙ approved in
      ground (arith, e, opened, eq_iff status.phase "Approved")
]

publish_lost :
    (f : Faults) (next : PromotionStatus) (w : World)
    → is_terminal w.status.phase ≡ false
    → next.phase ≡ "Approved"
    → f.status_update_fails ≡ false
    → f.status_reply_lost ≡ true
    → publish f next w ≡ failed_with (record w { status = next })
unfolding publish
publish_lost f next w opened approved taken lost =
    simp (closes w.status next opened approved, taken, lost) refl

act_lost :
    (f : Faults) (pr : PromotionSpec) (report : ModelSecurityReport) (w : World)
    → is_terminal w.status.phase ≡ false
    → report.verdict ≡ "Approved"
    → pr.decision ≡ "Approve"
    → f.report_update_fails ≡ false
    → f.report_reply_lost ≡ false
    → f.status_update_fails ≡ false
    → f.status_reply_lost ≡ true
    → act f pr (some report) w
      ≡ failed_with (record (promoted_world pr (some report) w) {
        status = next_status pr w.status (some report);
      })
unfolding act
act_lost f pr report w opened verdict decision written answered taken lost =
    elim (Bool-cases (writes_environment pr (some report) w.environments)) [
      | inl writes ↦ simp (writes, written, answered) published
      | inr keeps ↦ simp keeps published
    ]
  where
    published :
        publish f (next_status pr w.status (some report)) (promoted_world pr (some report) w)
        ≡ failed_with (record (promoted_world pr (some report) w) {
          status = next_status pr w.status (some report);
        })
    published =
        publish_lost f (next_status pr w.status (some report)) (promoted_world pr (some report) w)
          opened (next_status-Approved pr w.status report verdict decision) taken lost

-- If the update of the status of an open request that is approved takes effect while its reply is
-- lost, the request is Approved, the target environment is listed in the report, and the chain has no
-- new entry; and a later call of `Reconcile`, with any answer and any faults, leaves it all so. The
-- verdict of the report is Approved, the decision is to approve, and the update of the report, where
-- there is one, succeeds.
pub lost_reply_loses_record :
    (f g : Faults) (pr later : PromotionSpec) (report : ModelSecurityReport)
    (answer : Reply ModelSecurityReport) (w : World)
    → is_terminal w.status.phase ≡ false
    → report.verdict ≡ "Approved"
    → pr.decision ≡ "Approve"
    → f.report_update_fails ≡ false
    → f.report_reply_lost ≡ false
    → f.status_update_fails ≡ false
    → f.status_reply_lost ≡ true
    → ((after (reconcile f pr (found report) w)).status.phase ≡ "Approved")
      × MemOf pr.target_environment (after (reconcile f pr (found report) w)).environments
      × ((after (reconcile f pr (found report) w)).trail ≡ w.trail)
      × (reconcile g later answer (after (reconcile f pr (found report) w))
          ≡ done (after (reconcile f pr (found report) w)))
unfolding reconcile on_report
lost_reply_loses_record f g pr later report answer w opened verdict decision written answered taken
      lost =
    let phase = next_status-Approved pr w.status report verdict decision in
    rw (opened, act_lost f pr report w opened verdict decision written answered taken lost)
      (
        phase,
        unfold promoted_environments in
            rw (promotes-approved pr report verdict decision)
              (with_environment-IsExtension w.environments pr.target_environment).added,
        refl,
        unfold is_terminal in rw phase refl,
      )
