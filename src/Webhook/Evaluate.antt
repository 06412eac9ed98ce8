-- ===== src/Webhook/Evaluate.antt =====
-- `evaluate` of internal/webhook/gate.go: whether a report lets a workload in. A reason is a value
-- with the facts that its text is formatted from.
pub mod Cleared
use cupel.Base.{
  ℕ, ◌+◌, ◌-◌, ◌^◌, Bool, not, ◌&&◌, Option, none, some, List, [], ◌∷◌, String, if◌then◌else◌, ltb,
  str_eq, any, equal_fold,
}
use cupel.Api.{
  SeverityCounts, ModelSecurityReport, i32, verdict_approved, verdict_quarantined,
  verdict_review_required,
}
use cupel.Webhook.ModelRef.{ModelRef, Evidence}
use cupel.Webhook.Reads.{ModelGate}

pub data Reason : Type 0 where
  no_reason : Reason
  skipped : Reason
  unidentified : List Evidence → Reason
  no_report : ModelRef → Reason
  quarantined : (ref : ModelRef) (risk : ℕ) (malware : String) → Reason
  review_required : (ref : ModelRef) (risk : ℕ) → Reason
  no_verdict : ModelRef → Reason
  no_scan_time : (ref : ModelRef) (limit : ℕ) → Reason
  stale : (ref : ModelRef) (age limit : ℕ) → Reason
  digest_mismatch : (pinned scanned : String) → Reason
  promoted_nowhere : ModelRef → Reason
  not_promoted : (ref : ModelRef) (environments : List String) → Reason
  unexamined : ℕ → Reason

unfoldable pub contains : List String → String → Bool
contains list value = any (λ item. equal_fold item value) list

-- The freshness limit of `evaluate`; a limit of 0 or less is none.
check_age : ModelGate → ModelSecurityReport → ModelRef → Option Reason
check_age g report ref =
    if ltb 0 g.max_report_age
    then (elim report.last_scan_time [
      | none ↦ some (no_scan_time ref g.max_report_age)
      | some scanned ↦
          if ltb g.max_report_age (g.now - scanned)
          then some (stale ref (g.now - scanned) g.max_report_age)
          else none
    ])
    else none

check_digest : ModelSecurityReport → ModelRef → Option Reason
check_digest report ref =
    if not (str_eq ref.digest "")
      && not (str_eq report.artifact.digest "")
      && not (str_eq ref.digest report.artifact.digest)
    then some (digest_mismatch ref.digest report.artifact.digest)
    else none

check_promotion : ModelRef → String → List String → Option Reason
check_promotion ref promotion [] =
    if str_eq promotion "Ignore" then none else some (promoted_nowhere ref)
check_promotion ref promotion (e ∷ es) =
    if contains (e ∷ es) ref.environment then none else some (not_promoted ref (e ∷ es))

check_environment : ModelSecurityReport → ModelRef → String → Option Reason
check_environment report ref promotion =
    if str_eq ref.environment ""
    then none
    else check_promotion ref promotion report.approved_environments

-- The checks of an approved report, in order; the first that refuses is the decision.
check_approved : ModelGate → ModelSecurityReport → ModelRef → String → Option Reason
unfolding check_age check_digest check_promotion check_environment contains
check_approved g report ref promotion = elim (check_age g report ref) [
  | some why ↦ some why
  | none ↦ elim (check_digest report ref) [
    | some why ↦ some why
    | none ↦ check_environment report ref promotion
  ]
]

-- `evaluate`: a reason to deny, or none.
unfoldable pub evaluate : ModelGate → ModelSecurityReport → ModelRef → String → Option Reason
unfolding check_approved
evaluate g report ref promotion =
    if str_eq report.verdict verdict_approved
    then check_approved g report ref promotion
    else if str_eq report.verdict verdict_quarantined
    then some (quarantined ref report.risk_score report.malware)
    else if str_eq report.verdict verdict_review_required
    then some (review_required ref report.risk_score)
    else some (no_verdict ref)

-- `totalCounts`, in 32 bits; a sum of 2 ^ 31 or more is negative.
unfoldable pub total_counts : SeverityCounts → ℕ
total_counts c = i32 (c.critical + c.high + c.medium + c.low + c.unknown)

unfoldable pub is_positive : ℕ → Bool
is_positive n = ltb 0 n && ltb n (2 ^ 31)
