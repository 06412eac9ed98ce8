-- ===== src/Controller/Promotion.antt =====
-- internal/controller/promotion_controller.go: the reconciler of promotion requests. The world holds
-- what the reconciler writes; how an update of a status fails is an argument. A message is a
-- value with the facts that its text is formatted from.
pub mod Environments
pub mod Retry
pub mod Decisions
pub mod Unrecorded
mod Tests
use cupel.Base.{
  ℕ, Bool, true, false, not, ◌||◌, ◌&&◌, Option, none, some, List, [], ◌∷◌, ◌++◌, String,
  if◌then◌else◌, ◌==◌, str_eq, is_member, sort_strings, String_discrete, ℕ_discrete,
}
use cupel.Api.{
  ModelSecurityReport, PromotionSpec, verdict_approved, decision_approve, decision_reject,
}
use cupel.Webhook.Reads.{Reply, found, not_found, failed}

pub data Message : Type 0 where
  empty : Message
  no_report : (model version : String) → Message
  not_approved : (model version verdict : String) → Message
  declined : (by why : String) → Message
  promoted : (environment by : String) → Message
  waiting : (version environment : String) → Message

pub record PromotionStatus : Type 0 where
  pub phase : String
  pub verdict : String
  pub observed_verdict_time : Option ℕ
  pub reviewed_by : String
  pub review_time : Option ℕ
  pub message : Message

-- The status of the request, the environments of the found report, and the audit chain's entries
-- for this request.
pub record World : Type 0 where
  pub status : PromotionStatus
  pub environments : List String
  pub trail : List PromotionStatus

-- The updates that the API server refuses, those that take effect while their reply is lost, which is
-- an error for the caller, and whether nothing can be appended to the chain.
pub record Faults : Type 0 where
  pub chain_fails : Bool
  pub report_update_fails : Bool
  pub report_reply_lost : Bool
  pub status_update_fails : Bool
  pub status_reply_lost : Bool

pub data Result : Type 0 where
  done : World → Result
  failed_with : World → Result

-- The world after a call, failed or not.
abbrev pub after : Result → World
after (done w) = w
after (failed_with w) = w

unfoldable pub is_terminal : String → Bool
is_terminal phase = str_eq phase "Approved" || str_eq phase "Rejected"

-- A report that is found under one of the names is taken if it is about the requested model.
is_about : PromotionSpec → ModelSecurityReport → Bool
is_about pr report =
    (str_eq report.model_name "" || str_eq report.model_name pr.model_name)
    && (str_eq report.model_version ""
        || str_eq pr.model_version ""
        || str_eq report.model_version pr.model_version)

settle :
    PromotionSpec
    → Reply ModelSecurityReport
    → Reply ModelSecurityReport
    → Reply ModelSecurityReport
unfolding is_about
settle pr (found report) rest = if is_about pr report then found report else rest
settle pr not_found rest = rest
settle pr failed rest = failed

-- `securityReport`, over the answers to the reads of the names in order.
pub security_report : PromotionSpec → List (Reply ModelSecurityReport) → Reply ModelSecurityReport
unfolding settle
security_report pr [] = not_found
security_report pr (answer ∷ answers) = settle pr answer (security_report pr answers)

-- The new environments of `applyEnvironment`.
pub with_environment : List String → String → List String
with_environment existing environment =
    if is_member environment existing then existing else sort_strings (existing ++ environment ∷ [])

-- The phases of `Reconcile`, for a report that was found.
pub decide : PromotionSpec → PromotionStatus → ModelSecurityReport → PromotionStatus
decide pr next report =
    if not (str_eq report.verdict verdict_approved)
    then record next {
      phase = "Blocked";
      message = not_approved pr.model_name pr.model_version report.verdict;
    }
    else if str_eq pr.decision decision_reject
    then record next {
      phase = "Rejected";
      reviewed_by = pr.decided_by;
      review_time = pr.decided_at;
      message = declined pr.decided_by pr.decision_reason;
    }
    else if str_eq pr.decision decision_approve
    then record next {
      phase = "Approved";
      reviewed_by = pr.decided_by;
      review_time = pr.decided_at;
      message = promoted pr.target_environment pr.decided_by;
    }
    else record next { phase = "Pending"; message = waiting pr.model_version pr.target_environment }

pub next_status : PromotionSpec → PromotionStatus → Option ModelSecurityReport → PromotionStatus
next_status pr status none = record status {
  verdict = "";
  observed_verdict_time = none;
  phase = "Blocked";
  message = no_report pr.model_name pr.model_version;
}
next_status pr status (some report) =
    decide pr
      (record status { verdict = report.verdict; observed_verdict_time = report.last_scan_time })
      report

-- Whether `Reconcile` promotes: the case that calls `applyEnvironment`.
pub promotes : PromotionSpec → Option ModelSecurityReport → Bool
promotes pr none = false
promotes pr (some report) =
    str_eq report.verdict verdict_approved
    && not (str_eq pr.decision decision_reject)
    && str_eq pr.decision decision_approve

pub Message-discrete : Discrete Message
Message-discrete = hlevel String_discrete

-- `statusUnchanged` compares every field of the status.
pub Status-discrete : Discrete PromotionStatus
Status-discrete = hlevel (String_discrete, ℕ_discrete, Message-discrete)

pub is_unchanged : PromotionStatus → PromotionStatus → Bool
is_unchanged a b = elim (Status-discrete a b) [ yes e ↦ true | no n ↦ false ]

-- Whether `applyEnvironment` writes: the environment is to be promoted to and is not yet listed.
pub writes_environment : PromotionSpec → Option ModelSecurityReport → List String → Bool
writes_environment pr report environments =
    promotes pr report && not (is_member pr.target_environment environments)

pub promoted_environments : PromotionSpec → Option ModelSecurityReport → List String → List String
promoted_environments pr report environments =
    if promotes pr report then with_environment environments pr.target_environment else environments

-- The status update, and the record of a decision that became final.
pub publish : Faults → PromotionStatus → World → Result
publish faults next w =
    if is_unchanged w.status next
    then done w
    else if faults.status_update_fails
    then failed_with w
    else if faults.status_reply_lost
    then failed_with (record w { status = next })
    else done (record w {
      status = next;
      trail =
          if is_terminal next.phase && not (is_terminal w.status.phase) && not faults.chain_fails
          then w.trail ++ next ∷ []
          else w.trail;
    })

-- The part of `Reconcile` after the report was looked up.
pub act : Faults → PromotionSpec → Option ModelSecurityReport → World → Result
act faults pr report w =
    if writes_environment pr report w.environments && faults.report_update_fails
    then failed_with w
    else if writes_environment pr report w.environments && faults.report_reply_lost
    then failed_with (record w { environments = promoted_environments pr report w.environments })
    else publish faults (next_status pr w.status report)
        (record w { environments = promoted_environments pr report w.environments })

pub on_report : Faults → PromotionSpec → Reply ModelSecurityReport → World → Result
on_report faults pr failed w = failed_with w
on_report faults pr not_found w = act faults pr none w
on_report faults pr (found report) w = act faults pr (some report) w

-- `Reconcile`, given the answer of `securityReport`.
pub reconcile : Faults → PromotionSpec → Reply ModelSecurityReport → World → Result
reconcile faults pr answer w =
    if is_terminal w.status.phase then done w else on_report faults pr answer w
