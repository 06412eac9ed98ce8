-- ===== src/Compliance/Observed.antt =====
-- internal/compliance/evaluate.go: the evidence of a scan, the attestations, and what both amount to.
-- Times count nanoseconds, and the zero time is `none`. A reason and a warning hold the facts that
-- their text is formatted from.
use cupel.Base.{
  ℕ, ◌≡◌, ◌≢◌, Bool, true, false, not, ◌&&◌, ◌||◌, Option, none, some, List, [], ◌∷◌, ◌++◌, String,
  str_eq, if◌then◌else◌, ltb, is_blank,
}
use cupel.Compliance.Catalog.{
  EvidenceKind, inventory, security_scan, sbom, aibom, provenance, secrets, policy, verdict,
  risk_score, residual_risk, scan_history, revocation, coverage_gap, bias_eval, Control,
}

pub data Status : Type 0 where
  satisfied : Status
  partially_satisfied : Status
  not_satisfied : Status
  attested : Status
  attestation_required : Status
  not_applicable : Status

unfoldable pub is_open : Status → Bool
is_open satisfied = false
is_open attested = false
is_open not_applicable = false
is_open partially_satisfied = true
is_open not_satisfied = true
is_open attestation_required = true

pub data TrustCharacteristic : Type 0 where
  valid_reliable : TrustCharacteristic
  safe : TrustCharacteristic
  secure_resilient : TrustCharacteristic
  accountable : TrustCharacteristic
  explainable : TrustCharacteristic
  privacy : TrustCharacteristic
  fair : TrustCharacteristic

pub record Evidence : Type 0 where
  pub scan_complete : Bool
  pub verdict_given : String
  pub risk_scored : Bool
  pub security_scanned : Bool
  pub secrets_scanned : Bool
  pub sbom_generated : Bool
  pub aibom_generated : Bool
  pub signature_verified : Bool
  pub policy_ref : String
  pub inventoried : Bool
  pub continuous_monitoring : Bool
  pub admission_enforcing : Bool
  pub residual_risks_documented : Bool
  pub bias_evaluated : Bool

pub record Attestation : Type 0 where
  pub control_id : String
  pub statement : String
  pub attested_by : String
  pub expires_at : Option ℕ

pub data Warning : Type 0 where
  no_warning : Warning
  no_attester : Warning
  no_statement : Warning
  expired : ℕ → Warning
  no_expiry : Warning

pub data Reason : Type 0 where
  unjustified : Reason
  scoped_out : String → Reason
  attested_with : (by statement : String) → Reason
  because : String → Reason
  not_produced : List EvidenceKind → Reason
  evidence_plus : (seen : List EvidenceKind) (by : String) → Reason
  remainder_of : (seen : List EvidenceKind) (rationale : String) → Reason

pub record Result : Type 0 where
  pub control : Control
  pub status : Status
  pub reason : Reason
  pub evidence_seen : List EvidenceKind
  pub evidence_missing : List EvidenceKind
  pub attested_by : String
  pub warning : Warning

-- `Valid`: what keeps an attestation from closing a control, if anything does.
unfoldable pub flaw : ℕ → Attestation → Option Warning
unfolding is_blank
flaw now a =
    if is_blank a.attested_by
    then some no_attester
    else if is_blank a.statement
    then some no_statement
    else elim a.expires_at [ none ↦ none | some t ↦ (if ltb t now then some (expired t) else none) ]

-- `observedEvidence`, as the value of the map at each kind.
unfoldable pub observed : Evidence → EvidenceKind → Bool
observed ev kind = ev.scan_complete && of_kind kind
  where
    of_kind : EvidenceKind → Bool
    of_kind inventory = ev.inventoried
    of_kind security_scan = ev.security_scanned
    of_kind sbom = ev.sbom_generated
    of_kind aibom = ev.aibom_generated
    of_kind provenance = ev.signature_verified
    of_kind secrets = ev.secrets_scanned
    of_kind policy = not (str_eq ev.policy_ref "")
    of_kind verdict = not (str_eq ev.verdict_given "") && not (str_eq ev.verdict_given "Unknown")
    of_kind risk_score = ev.risk_scored
    of_kind residual_risk = ev.residual_risks_documented
    of_kind scan_history = ev.continuous_monitoring
    of_kind revocation = ev.admission_enforcing
    of_kind coverage_gap = true
    of_kind bias_eval = ev.bias_evaluated

pub incomplete_scan_shows_nothing :
    (ev : Evidence) → ev.scan_complete ≡ false → (kind : EvidenceKind) → observed ev kind ≢ true
unfolding observed
incomplete_scan_shows_nothing ev incomplete kind h = cc (rw incomplete at h)

list_if : Bool → TrustCharacteristic → List TrustCharacteristic
list_if true t = t ∷ []
list_if false t = []

pub unmeasured : Evidence → List TrustCharacteristic
unfolding list_if
unmeasured ev =
    (valid_reliable ∷ safe ∷ explainable ∷ [])
    ++ list_if (not ev.bias_evaluated) fair
    ++ list_if (not ev.scan_complete || not ev.security_scanned) secure_resilient
    ++ list_if (not ev.scan_complete || not ev.secrets_scanned) privacy
    ++ list_if (not ev.scan_complete || not ev.signature_verified) accountable

-- The entry of the map of attestations: the last one for the control.
unfoldable pub attestation_for : List Attestation → String → Option Attestation
attestation_for [] id = none
attestation_for (a ∷ more) id = elim (attestation_for more id) [
  | some b ↦ some b
  | none ↦ if str_eq a.control_id id then some a else none
]

unfoldable pub justification : List (String × String) → String → Option String
justification [] id = none
justification ((j, v) ∷ scope) id = if str_eq j id then some v else justification scope id
