-- ===== src/Controller/Promotion/Environments.antt =====
-- What internal/controller/promotion_controller.go does to the environments of a report.
use cupel.Base.{
  ◌≡◌, ◌≢◌, ◌⊎◌, inl, inr, refl, Bool, true, false, ◌&&◌, Option, none, some, List, [], ◌∷◌, ◌++◌,
  String, arith, eq_iff, Bool-cases, MemOf, is_member, is_member-MemOf, MemOf-sort_strings,
  MemOf-of_sort_strings,
}
use cupel.Api.{ModelSecurityReport, PromotionSpec}
use cupel.Webhook.Reads.{Reply, found, not_found, failed}
use cupel.Controller.Promotion.{
  PromotionStatus, World, Faults, after, is_terminal, promotes, with_environment,
  promoted_environments, publish, act, on_report, reconcile, writes_environment,
}

MemOf-append_left : (x : String) (xs ys : List String) → MemOf x xs → MemOf x (xs ++ ys)
MemOf-append_left x [] ys m = absurd m
MemOf-append_left x (y ∷ xs) ys (inl e) = inl e
MemOf-append_left x (y ∷ xs) ys (inr m) = inr (MemOf-append_left x xs ys m)

MemOf-append_one : (x y : String) (xs : List String) → MemOf x (xs ++ y ∷ []) → MemOf x xs ⊎ (x ≡ y)
MemOf-append_one x y [] (inl e) = inr e
MemOf-append_one x y [] (inr m) = absurd m
MemOf-append_one x y (z ∷ xs) (inl e) = inl (inl e)
MemOf-append_one x y (z ∷ xs) (inr m) = elim (MemOf-append_one x y xs m) [
  | inl n ↦ inl (inr n)
  | inr e ↦ inr e
]

MemOf-last : (x : String) (xs : List String) → MemOf x (xs ++ x ∷ [])
MemOf-last x [] = inl refl
MemOf-last x (y ∷ xs) = inr (MemOf-last x xs)

-- The environments after a promotion: all that were there, and the promoted one.
pub record IsExtension (before : List String) (environment : String) (after : List String)
    : Type 0 where
  pub added : MemOf environment after
  pub kept : (x : String) → MemOf x before → MemOf x after
  pub only : (x : String) → MemOf x after → MemOf x before ⊎ (x ≡ environment)

pub with_environment-IsExtension :
    (before : List String) (environment : String)
    → IsExtension before environment (with_environment before environment)
unfolding with_environment
with_environment-IsExtension before environment = elim (Bool-cases (is_member environment before)) [
  | inl there ↦ rw there (record {
    added = is_member-MemOf environment before there;
    kept = λ x m. m;
    only = λ x m. inl m;
  })
  | inr new ↦ rw new (record {
    added = MemOf-sort_strings environment _ (MemOf-last environment before);
    kept = λ x m. MemOf-sort_strings x _ (MemOf-append_left x before _ m);
    only = λ x m. MemOf-append_one x environment before (MemOf-of_sort_strings x _ m);
  })
]

pub publish-environments :
    (faults : Faults) (next : PromotionStatus) (w : World)
    → (after (publish faults next w)).environments ≡ w.environments
unfolding publish
publish-environments faults next w = ground arith

pub promotes_needs :
    (pr : PromotionSpec) (report : ModelSecurityReport)
    → promotes pr (some report) ≡ true
    → (report.verdict ≡ "Approved") × (pr.decision ≡ "Approve")
unfolding promotes
promotes_needs pr report h = ground (
  arith,
  eq_iff report.verdict "Approved",
  eq_iff pr.decision "Approve",
  eq_iff pr.decision "Reject",
)

promotes-none : (pr : PromotionSpec) → promotes pr none ≢ true
unfolding promotes
promotes-none pr = cc

-- The report lets the request promote.
pub record IsPromotable (pr : PromotionSpec) (answer : Reply ModelSecurityReport) : Type 0 where
  pub report : ModelSecurityReport
  pub is_found : answer ≡ found report
  pub approved : report.verdict ≡ "Approved"
  pub decided : pr.decision ≡ "Approve"

promoted_environments-IsExtension :
    (pr : PromotionSpec) (report : Option ModelSecurityReport) (w : World)
    → (promoted_environments pr report w.environments ≡ w.environments)
      ⊎ ((promotes pr report ≡ true)
          × IsExtension w.environments pr.target_environment
              (promoted_environments pr report w.environments))
unfolding promoted_environments
promoted_environments-IsExtension pr report w = elim (Bool-cases (promotes pr report)) [
  | inl promoting ↦
      inr (
        promoting,
        rw promoting (with_environment-IsExtension w.environments pr.target_environment),
      )
  | inr idle ↦ inl (rw idle refl)
]

act-environments :
    (faults : Faults) (pr : PromotionSpec) (report : Option ModelSecurityReport) (w : World)
    → ((after (act faults pr report w)).environments ≡ w.environments)
      ⊎ ((promotes pr report ≡ true)
          × IsExtension w.environments pr.target_environment
              (after (act faults pr report w)).environments)
unfolding act
act-environments faults pr report w =
    elim (Bool-cases (writes_environment pr report w.environments && faults.report_update_fails)) [
      | inl stopped ↦ rw stopped (inl refl)
      | inr going ↦
          elim (Bool-cases
            (writes_environment pr report w.environments && faults.report_reply_lost)) [
              | inl lost ↦ rw (going, lost) (promoted_environments-IsExtension pr report w)
              | inr answered ↦
                  rw (going, answered, publish-environments)
                    (promoted_environments-IsExtension pr report w)
            ]
    ]

-- Reconciling a request leaves the environments of the report as they are, or it adds the target
-- environment and keeps all others; it adds it only if the request was open, a report was found
-- whose verdict is Approved now, and the decision is to approve.
pub environments_grow_only_by_approval :
    (faults : Faults) (pr : PromotionSpec) (answer : Reply ModelSecurityReport) (w : World)
    → ((after (reconcile faults pr answer w)).environments ≡ w.environments)
      ⊎ (IsPromotable pr answer
          × (is_terminal w.status.phase ≡ false)
          × IsExtension w.environments pr.target_environment
              (after (reconcile faults pr answer w)).environments)
unfolding reconcile on_report
environments_grow_only_by_approval faults pr answer w =
    elim (Bool-cases (is_terminal w.status.phase)) [
      | inl closed ↦ rw closed (inl refl)
      | inr opened ↦ rw opened (go answer)
    ]
  where
    go :
        (reply : Reply ModelSecurityReport)
        → ((after (on_report faults pr reply w)).environments ≡ w.environments)
          ⊎ (IsPromotable pr reply
              × Path Bool false false
              × IsExtension w.environments pr.target_environment
                  (after (on_report faults pr reply w)).environments)
    go failed = inl refl
    go not_found = elim (act-environments faults pr none w) [
      | inl same ↦ inl same
      | inr (p, more) ↦ absurd (promotes-none pr p)
    ]
    go (found report) = elim (act-environments faults pr (some report) w) [
      | inl same ↦ inl same
      | inr (p, more) ↦
          let (verdict, decision) = promotes_needs pr report p in
          inr (
            record { report = report; is_found = refl; approved = verdict; decided = decision },
            refl,
            more,
          )
    ]
