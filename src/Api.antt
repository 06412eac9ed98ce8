-- ===== src/Api.antt =====
-- api/v1alpha1: the fields of the resources that the components read and write. Times count
-- nanoseconds since the Unix epoch, and a nil time is `none`.
use cupel.Base.{ℕ, ◌%◌, ◌^◌, Option, List, String}

pub record SeverityCounts : Type 0 where
  pub critical : ℕ
  pub high : ℕ
  pub medium : ℕ
  pub low : ℕ
  pub unknown : ℕ

-- `int32` addition; a result of 2 ^ 31 or more stands for a negative number.
abbrev pub i32 : ℕ → ℕ
i32 n = n % 2 ^ 32

pub record ArtifactRef : Type 0 where
  pub uri : String
  pub digest : String
  pub media_type : String
  pub format : String
  pub size_bytes : Option ℕ

pub record ModelSecurityReport : Type 0 where
  pub namespace : String
  pub name : String
  pub model_name : String
  pub model_version : String
  pub artifact : ArtifactRef
  pub scan_ref : String
  pub verdict : String
  pub risk_score : ℕ
  pub malware : String
  pub unexamined : SeverityCounts
  pub last_scan_time : Option ℕ
  pub approved_environments : List String

abbrev pub verdict_approved : String
verdict_approved = "Approved"

abbrev pub verdict_quarantined : String
verdict_quarantined = "Quarantined"

abbrev pub verdict_review_required : String
verdict_review_required = "ReviewRequired"

pub record ExceptionSpec : Type 0 where
  pub model_name : String
  pub model_version : String
  pub finding_ids : List String
  pub rules : List String
  pub reason : String
  pub scanned_digest : String
  pub approved_by : String
  pub approved_by_groups : List String
  pub approved_at : Option ℕ
  pub expires_at : Option ℕ

pub record PromotionSpec : Type 0 where
  pub model_name : String
  pub model_version : String
  pub target_environment : String
  pub requestor : String
  pub justification : String
  pub decision : String
  pub decision_reason : String
  pub decided_by : String
  pub decided_by_groups : List String
  pub decided_at : Option ℕ

abbrev pub decision_approve : String
decision_approve = "Approve"

abbrev pub decision_reject : String
decision_reject = "Reject"
