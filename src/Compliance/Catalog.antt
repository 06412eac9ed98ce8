-- ===== src/Compliance/Catalog.antt =====
-- internal/compliance/framework.go and catalog.go: controls, and how many of them a scan can evidence.
-- The texts of the published frameworks are data, and are not here.
use cupel.Base.{ℕ, suc, List, [], ◌∷◌, String, Bool, true, false, if◌then◌else◌}

pub data Automation : Type 0 where
  automation_full : Automation
  automation_partial : Automation
  automation_none : Automation

pub data EvidenceKind : Type 0 where
  inventory : EvidenceKind
  security_scan : EvidenceKind
  sbom : EvidenceKind
  aibom : EvidenceKind
  provenance : EvidenceKind
  secrets : EvidenceKind
  policy : EvidenceKind
  verdict : EvidenceKind
  risk_score : EvidenceKind
  residual_risk : EvidenceKind
  scan_history : EvidenceKind
  revocation : EvidenceKind
  coverage_gap : EvidenceKind
  bias_eval : EvidenceKind

pub record Control : Type 0 where
  pub id : String
  pub function : String
  pub category : String
  pub text : String
  pub automation : Automation
  pub evidence : List EvidenceKind
  pub rationale : String

pub record Coverage : Type 0 where
  pub total : ℕ
  pub full : ℕ
  pub partial : ℕ
  pub organizational : ℕ

count_control : Automation → Coverage → Coverage
count_control automation_full c = record c { total = suc c.total; full = suc c.full }
count_control automation_partial c = record c { total = suc c.total; partial = suc c.partial }
count_control automation_none c = record c {
  total = suc c.total;
  organizational = suc c.organizational;
}

-- The coverage of a catalog.
pub coverage : List Control → Coverage
unfolding count_control
coverage [] = record { total = 0; full = 0; partial = 0; organizational = 0 }
coverage (c ∷ controls) = count_control c.automation (coverage controls)

is_automatable : Automation → Bool
is_automatable automation_full = true
is_automatable automation_partial = true
is_automatable automation_none = false

pub automatable : List Control → List Control
unfolding is_automatable
automatable [] = []
automatable (c ∷ controls) =
    let rest = automatable controls in if is_automatable c.automation then c ∷ rest else rest
