-- ===== src/Webhook/Reads.antt =====
-- internal/webhook/gate.go: what the gate reads from the cluster, and which report and policy it
-- settles on. The cluster is what the API server answers to the reads.
pub mod Lookup
pub mod Failing
use cupel.Base.{
  ℕ, Bool, true, false, not, ◌||◌, ◌&&◌, Option, none, some, List, [], ◌∷◌, String, if◌then◌else◌,
  str_eq, value_of,
}
use cupel.Api.{ModelSecurityReport}
use cupel.Webhook.ModelRef.{ModelRef}

-- What a read of one object answers.
pub data Reply {ℓ} (A : Type ℓ) : Type ℓ where
  found : A → Reply A
  not_found : Reply A
  failed : Reply A

pub record ScanPolicy : Type 0 where
  pub enforcement : String
  pub environment_promotion : String

-- `Client.Get` for reports and policies, by namespace and name.
pub record Cluster : Type 0 where
  pub report_at : String → String → Reply ModelSecurityReport
  pub policy_at : String → String → Reply ScanPolicy

pub record ModelGate : Type 0 where
  pub default_policy : String
  pub max_report_age : ℕ
  pub now : ℕ
  pub require_report : Bool
  pub records : Bool
  pub report_namespace : String
  -- `controller.ModelReportNames`
  pub report_names : String → String → List String

unfoldable pub lookup_namespaces : ModelGate → String → List String
lookup_namespaces g namespace =
    if str_eq g.report_namespace "" || str_eq g.report_namespace namespace
    then namespace ∷ []
    else namespace ∷ g.report_namespace ∷ []

-- `reportDescribes`
unfoldable pub describes : ModelSecurityReport → ModelRef → Bool
describes report ref =
    if str_eq report.model_name ""
    then true
    else if not (str_eq report.model_name ref.model)
    then false
    else if not (str_eq report.model_version "") && not (str_eq ref.version "")
    then str_eq report.model_version ref.version
    else true

-- What one read decides, given what the rest of the loop would answer.
pub settle :
    ModelRef → Reply ModelSecurityReport → Reply ModelSecurityReport → Reply ModelSecurityReport
settle ref (found report) rest = if describes report ref then found report else rest
settle ref not_found rest = rest
settle ref failed rest = failed

-- The loops of `findReport`: the namespaces in order, in each the names in order.
pub find_in :
    Cluster
    → ModelRef
    → String
    → List String
    → Reply ModelSecurityReport
    → Reply ModelSecurityReport
find_in c ref ns [] rest = rest
find_in c ref ns (name ∷ names) rest =
    settle ref (c.report_at ns name) (find_in c ref ns names rest)

pub find_among : Cluster → ModelRef → List String → List String → Reply ModelSecurityReport
find_among c ref [] names = not_found
find_among c ref (ns ∷ nss) names = find_in c ref ns names (find_among c ref nss names)

unfoldable pub find_report : ModelGate → Cluster → String → ModelRef → Reply ModelSecurityReport
unfolding find_among find_in settle describes lookup_namespaces
find_report g c namespace ref =
    find_among c ref (lookup_namespaces g namespace) (g.report_names ref.model ref.version)

-- A policy that can be read is taken; a missing one and an error are passed over alike.
pub next_policy : Reply ScanPolicy → Option ScanPolicy → Option ScanPolicy
next_policy (found pol) rest = some pol
next_policy not_found rest = rest
next_policy failed rest = rest

pub find_policy : Cluster → String → List String → Option ScanPolicy
find_policy c name [] = none
find_policy c name (ns ∷ nss) = next_policy (c.policy_at ns name) (find_policy c name nss)

pub policy_name : ModelGate → List (String × String) → String
policy_name g annotations =
    let named = value_of annotations "security.davano.io/policy" in
    if str_eq named "" then g.default_policy else named

pub chosen_policy : ModelGate → Cluster → String → List (String × String) → Option ScanPolicy
chosen_policy g c namespace annotations =
    let name = policy_name g annotations in
    if str_eq name "" then none else find_policy c name (lookup_namespaces g namespace)

enforcement_of : Option ScanPolicy → String
enforcement_of none = "Enforce"
enforcement_of (some pol) = if str_eq pol.enforcement "" then "Enforce" else pol.enforcement

promotion_of : Option ScanPolicy → String
promotion_of none = "Require"
promotion_of (some pol) = if str_eq pol.environment_promotion "Ignore" then "Ignore" else "Require"

unfoldable pub enforcement_for : ModelGate → Cluster → String → List (String × String) → String
unfolding chosen_policy policy_name find_policy enforcement_of
enforcement_for g c namespace annotations = enforcement_of (chosen_policy g c namespace annotations)

unfoldable pub promotion_mode_for : ModelGate → Cluster → String → List (String × String) → String
unfolding chosen_policy policy_name find_policy promotion_of
promotion_mode_for g c namespace annotations =
    promotion_of (chosen_policy g c namespace annotations)
