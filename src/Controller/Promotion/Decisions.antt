-- ===== src/Controller/Promotion/Decisions.antt =====
-- How requests become final in internal/controller/promotion_controller.go.
use cupel.Base.{
  ◌≡◌, ◌≢◌, ◌⊎◌, inl, inr, refl, sym, ap, ◌∙◌, true, false, ◌&&◌, some, String, arith, eq_iff,
  str_eq, Bool-cases, MemOf,
}
use cupel.Api.{ModelSecurityReport, PromotionSpec}
use cupel.Webhook.Reads.{found}
use cupel.Controller.Promotion.{
  PromotionStatus, World, Faults, after, is_terminal, promotes, writes_environment,
  promoted_environments, decide, next_status, publish, act, on_report, reconcile,
}
use cupel.Controller.Promotion.Environments.{
  promotes_needs, publish-environments, with_environment-IsExtension,
}
use cupel.Controller.Promotion.Retry.{promoted_world}

-- What a run publishes, if it publishes.
publish-phase :
    (faults : Faults) (next : PromotionStatus) (w : World)
    → ((after (publish faults next w)).status ≡ w.status)
      ⊎ ((after (publish faults next w)).status ≡ next)
unfolding publish
publish-phase faults next w = ground arith

str_eq-differ : (a b : String) → str_eq a b ≡ false → a ≢ b
str_eq-differ a b h e = ground (arith, eq_iff a b)

-- A decision that ends in Approved.
decide-Approved :
    (pr : PromotionSpec) (status : PromotionStatus) (report : ModelSecurityReport)
    → ((next_status pr status (some report)).phase ≡ "Approved")
    → (promotes pr (some report) ≡ true)
      × ((next_status pr status (some report)).reviewed_by ≡ pr.decided_by)
unfolding next_status decide promotes
decide-Approved pr status report = elim (Bool-cases (str_eq report.verdict "Approved")) [
  | inr other ↦ rw other (λ h. absurd (str_eq-differ "Blocked" "Approved" refl h))
  | inl approved ↦ elim (Bool-cases (str_eq pr.decision "Reject")) [
    | inl reject ↦ rw (approved, reject) (λ h. absurd (str_eq-differ "Rejected" "Approved" refl h))
    | inr keep ↦ elim (Bool-cases (str_eq pr.decision "Approve")) [
      | inl approve ↦ rw (approved, keep, approve) (λ h. (refl, refl))
      | inr wait ↦
          rw (approved, keep, wait) (λ h. absurd (str_eq-differ "Pending" "Approved" refl h))
    ]
  ]
]

Approved-is_terminal : (phase : String) → is_terminal phase ≡ false → phase ≢ "Approved"
unfolding is_terminal
Approved-is_terminal phase opened e = ground (arith, eq_iff phase "Approved")

publish-next :
    (faults : Faults) (next : PromotionStatus) (w : World)
    → is_terminal w.status.phase ≡ false
    → (after (publish faults next w)).status.phase ≡ "Approved"
    → (after (publish faults next w)).status ≡ next
publish-next faults next w opened approved = elim (publish-phase faults next w) [
  | inr published ↦ published
  | inl kept ↦
      absurd (Approved-is_terminal w.status.phase opened (sym (ap (λ s. s.phase) kept) ∙ approved))
]

act-Approved :
    (faults : Faults) (pr : PromotionSpec) (report : ModelSecurityReport) (w : World)
    → is_terminal w.status.phase ≡ false
    → (after (act faults pr (some report) w)).status.phase ≡ "Approved"
    → (promotes pr (some report) ≡ true)
      × ((after (act faults pr (some report) w)).status.reviewed_by ≡ pr.decided_by)
      × MemOf pr.target_environment (after (act faults pr (some report) w)).environments
unfolding act
act-Approved faults pr report w opened =
    elim (Bool-cases
      (writes_environment pr (some report) w.environments && faults.report_update_fails)) [
        | inl stopped ↦ rw stopped (λ h. absurd (Approved-is_terminal w.status.phase opened h))
        | inr going ↦
            elim (Bool-cases
              (writes_environment pr (some report) w.environments && faults.report_reply_lost)) [
                | inl lost ↦
                    rw (going, lost) (λ h. absurd (Approved-is_terminal w.status.phase opened h))
                | inr answered ↦ rw (going, answered) published
              ]
      ]
  where
    next : PromotionStatus
    next = next_status pr w.status (some report)

    published :
        (after (publish faults next (promoted_world pr (some report) w))).status.phase ≡ "Approved"
        → (promotes pr (some report) ≡ true)
          × ((after (publish faults next (promoted_world pr (some report) w))).status.reviewed_by
              ≡ pr.decided_by)
          × MemOf pr.target_environment
              (after (publish faults next (promoted_world pr (some report) w))).environments
    published h =
        let status = publish-next faults next (promoted_world pr (some report) w) opened h in
        let (promoting, reviewer) =
          decide-Approved pr w.status report (sym (ap (λ s. s.phase) status) ∙ h) in
        (
          promoting,
          ap (λ s. s.reviewed_by) status ∙ reviewer,
          rw publish-environments (
              unfold promoted_environments in
              rw promoting
                (with_environment-IsExtension w.environments pr.target_environment).added),
        )

-- An open request becomes Approved only if the verdict of the report that was found is Approved and
-- the decision is to approve; then the target environment is listed in the report, and the reviewer
-- on record is the one who decided.
pub approved_only_on_verdict :
    (faults : Faults) (pr : PromotionSpec) (report : ModelSecurityReport) (w : World)
    → is_terminal w.status.phase ≡ false
    → (after (reconcile faults pr (found report) w)).status.phase ≡ "Approved"
    → (report.verdict ≡ "Approved")
      × (pr.decision ≡ "Approve")
      × ((after (reconcile faults pr (found report) w)).status.reviewed_by ≡ pr.decided_by)
      × MemOf pr.target_environment (after (reconcile faults pr (found report) w)).environments
unfolding reconcile on_report
approved_only_on_verdict faults pr report w opened = rw opened (λ h.
    let (promoting, reviewer, listed) = act-Approved faults pr report w opened h in
    let (verdict, decision) = promotes_needs pr report promoting in
    (verdict, decision, reviewer, listed))
