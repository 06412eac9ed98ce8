-- ===== src/Webhook/Evaluate/Cleared.antt =====
-- What `evaluate` of internal/webhook/gate.go asks of a report, stated without its order of checks.
use cupel.Base.{
  lt→ltb, Bool-cases, if◌then◌else◌, str_eq, ℕ, ◌+◌, ◌-◌, ◌<◌, ◌≤◌, ◌≡◌, ◌≢◌, ◌↔◌, inl, inr, true,
  Option, none, some, List, [], ◌∷◌, String, arith, eq_iff, ltb,
}
use cupel.Api.{ModelSecurityReport}
use cupel.Webhook.ModelRef.{ModelRef}
use cupel.Webhook.Reads.{ModelGate}
use cupel.Webhook.Evaluate.{
  Reason, no_scan_time, stale, contains, check_age, check_digest, check_promotion,
  check_environment, check_approved, evaluate,
}

-- A scan time is known, and lies no further back than the limit.
abbrev ScannedWithin : ℕ → ℕ → Option ℕ → Type 0
ScannedWithin limit now none = ⊥
ScannedWithin limit now (some scanned) = now ≤ scanned + limit

-- No version was ever promoted and the policy ignores that, or the environment is a promoted one.
abbrev PromotedTo : List String → String → String → Type 0
PromotedTo [] environment promotion = promotion ≡ "Ignore"
PromotedTo (e ∷ es) environment promotion = contains (e ∷ es) environment ≡ true

pub record IsCleared (g : ModelGate) (report : ModelSecurityReport) (ref : ModelRef)
    (promotion : String) : Type 0 where
  pub approved : report.verdict ≡ "Approved"
  pub fresh : 0 < g.max_report_age → ScannedWithin g.max_report_age g.now report.last_scan_time
  pub same_digest :
      ref.digest ≢ "" → report.artifact.digest ≢ "" → ref.digest ≡ report.artifact.digest
  pub promoted :
      ref.environment ≢ "" → PromotedTo report.approved_environments ref.environment promotion

check_digest_iff :
    (report : ModelSecurityReport) (ref : ModelRef)
    → (check_digest report ref ≡ none)
      ↔ (ref.digest ≢ "" → report.artifact.digest ≢ "" → ref.digest ≡ report.artifact.digest)
unfolding check_digest
check_digest_iff report ref = (
  λ h a b. ground (
    arith,
    eq_iff ref.digest "",
    eq_iff report.artifact.digest "",
    eq_iff ref.digest report.artifact.digest,
  ),
  λ h. ground (
    arith,
    eq_iff ref.digest "",
    eq_iff report.artifact.digest "",
    eq_iff ref.digest report.artifact.digest,
  ),
)

check_age_iff :
    (g : ModelGate) (report : ModelSecurityReport) (ref : ModelRef)
    → (check_age g report ref ≡ none)
      ↔ (0 < g.max_report_age → ScannedWithin g.max_report_age g.now report.last_scan_time)
unfolding check_age
check_age_iff g report ref = (sound report.last_scan_time, complete report.last_scan_time)
  where
    limited : Option ℕ → Option Reason
    limited none = some (no_scan_time ref g.max_report_age)
    limited (some scanned) =
        if ltb g.max_report_age (g.now - scanned)
        then some (stale ref (g.now - scanned) g.max_report_age)
        else none

    sound :
        (t : Option ℕ)
        → (if ltb 0 g.max_report_age then limited t else none) ≡ none
        → 0 < g.max_report_age
        → ScannedWithin g.max_report_age g.now t
    sound none h p = cc (rw (lt→ltb 0 g.max_report_age p) at h)
    sound (some scanned) h p = ground arith

    complete :
        (t : Option ℕ)
        → (0 < g.max_report_age → ScannedWithin g.max_report_age g.now t)
        → (if ltb 0 g.max_report_age then limited t else none) ≡ none
    complete none h = ground arith
    complete (some scanned) h = ground arith

check_promotion_iff :
    (ref : ModelRef) (promotion : String) (environments : List String)
    → (check_promotion ref promotion environments ≡ none)
      ↔ PromotedTo environments ref.environment promotion
unfolding check_promotion
check_promotion_iff ref promotion [] =
    (λ h. ground (arith, eq_iff promotion "Ignore"), λ h. ground (arith, eq_iff promotion "Ignore"))
check_promotion_iff ref promotion (e ∷ es) = (λ h. ground arith, λ h. ground arith)

check_environment_iff :
    (report : ModelSecurityReport) (ref : ModelRef) (promotion : String)
    → (check_environment report ref promotion ≡ none)
      ↔ (ref.environment ≢ "" → PromotedTo report.approved_environments ref.environment promotion)
unfolding check_environment
check_environment_iff report ref promotion =
    let asked = check_promotion_iff ref promotion report.approved_environments in
    (
      λ h named. asked.0 (ground (arith, eq_iff ref.environment "")),
      λ h. elim (Bool-cases (str_eq ref.environment "")) [
        | inl unnamed ↦ rw unnamed
        | inr named ↦ rw named (asked.1 (h (λ e. cc ((eq_iff ref.environment "").1 e))))
      ],
    )

check_approved_iff :
    (g : ModelGate) (report : ModelSecurityReport) (ref : ModelRef) (promotion : String)
    → (check_approved g report ref promotion ≡ none) ↔ (
        (check_age g report ref ≡ none)
        × (check_digest report ref ≡ none)
        × (check_environment report ref promotion ≡ none))
unfolding check_approved
check_approved_iff g report ref promotion = (λ h. ground arith, λ h. ground arith)

evaluate_approved :
    (g : ModelGate) (report : ModelSecurityReport) (ref : ModelRef) (promotion : String)
    → (evaluate g report ref promotion ≡ none)
      ↔ ((report.verdict ≡ "Approved") × (check_approved g report ref promotion ≡ none))
unfolding evaluate
evaluate_approved g report ref promotion = (
  λ h. ground (arith, eq_iff report.verdict "Approved"),
  λ h. ground (arith, eq_iff report.verdict "Approved"),
)

-- A report lets a workload in exactly when its verdict is Approved, its scan is within the
-- freshness limit if there is one, the pinned and the scanned digest agree if both are known, and
-- the declared environment, if any, is one that the version was promoted to (or no version was
-- promoted anywhere and the policy ignores that).
pub evaluate-iff-IsCleared :
    (g : ModelGate) (report : ModelSecurityReport) (ref : ModelRef) (promotion : String)
    → (evaluate g report ref promotion ≡ none) ↔ IsCleared g report ref promotion
evaluate-iff-IsCleared g report ref promotion = (
  λ h.
      let (verdict, checks) = (evaluate_approved g report ref promotion).0 h in
      let (age, digest, environment) = (check_approved_iff g report ref promotion).0 checks in
      record {
        approved = verdict;
        fresh = (check_age_iff g report ref).0 age;
        same_digest = (check_digest_iff report ref).0 digest;
        promoted = (check_environment_iff report ref promotion).0 environment;
      },
  λ c. (evaluate_approved g report ref promotion).1 (
    c.approved,
    (check_approved_iff g report ref promotion).1 (
      (check_age_iff g report ref).1 c.fresh,
      (check_digest_iff report ref).1 c.same_digest,
      (check_environment_iff report ref promotion).1 c.promoted,
    ),
  ),
)
