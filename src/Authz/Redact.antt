-- ===== src/Authz/Redact.antt =====
-- internal/authz/redact.go: the findings and the models that a subject is shown. Of a model's view
-- only the tenant matters here; the rest is the parameter `Details`.
pub mod Shown
mod Tests
use cupel.Base.{
  ℕ, zero, suc, Bool, true, false, not, ◌&&◌, List, [], ◌∷◌, String, if◌then◌else◌, length, map,
  ltb,
}
use cupel.Authz.Roles.{
  Subject, can, can_see_namespace, view_inventory, view_findings, view_finding_path,
}

pub record Redaction : Type 0 where
  pub hidden_findings : ℕ
  pub detail_withheld : Bool
  pub reason : String

abbrev pub no_redaction : Redaction
no_redaction = record { hidden_findings = 0; detail_withheld = false; reason = "" }

pub record Finding : Type 0 where
  pub id : String
  pub title : String
  pub severity : String
  pub category : String
  pub location : String
  pub description : String

pub record FindingView : Type 0 where
  pub id : String
  pub title : String
  pub severity : String
  pub category : String
  pub scanner : String
  pub location : String
  pub description : String
  pub redacted : Bool

-- The body of the loop over the findings.
pub view_of : Bool → String → Finding → FindingView
view_of full scanner f = record {
  id = f.id;
  title = f.title;
  severity = f.severity;
  category = f.category;
  scanner = scanner;
  location = if full then f.location else "";
  description = if full then f.description else "";
  redacted = not full;
}

pub redact_findings : Subject → String → List Finding → String → List FindingView × Redaction
redact_findings s namespace findings scanner =
    if not (can_see_namespace s namespace)
    then (
      [],
      record {
        hidden_findings = length findings;
        detail_withheld = true;
        reason = "outside your assigned tenants";
      },
    )
    else if not (can s view_findings)
    then (
      [],
      record {
        hidden_findings = length findings;
        detail_withheld = true;
        reason = "your role does not include finding detail";
      },
    )
    else let full = can s view_finding_path in
      (
        map (view_of full scanner) findings,
        if not full && ltb 0 (length findings)
            then record no_redaction {
              detail_withheld = true;
              reason = "location and description are limited to security and model-owner roles";
            }
            else no_redaction,
      )

pub record ModelView {ℓ} (Details : Type ℓ) : Type ℓ where
  pub namespace : String
  pub details : Details

module _ {ℓ} {Details : Type ℓ} where
  -- The loop of `FilterModels`: the visible models, and how many are withheld.
  pub split_models : Subject → List (ModelView Details) → List (ModelView Details) × ℕ
  split_models s [] = ([], 0)
  split_models s (m ∷ models) =
      let rest = split_models s models in
      if can_see_namespace s m.namespace then (m ∷ rest.0, rest.1) else (rest.0, suc rest.1)

  pub filter_models : Subject → List (ModelView Details) → List (ModelView Details) × Redaction
  filter_models s models =
      if not (can s view_inventory)
      then (
        [],
        record no_redaction {
          hidden_findings = length models;
          reason = "your role does not include the model inventory";
        },
      )
      else let rest = split_models s models in
        (
          rest.0,
          if ltb 0 rest.1
              then record no_redaction {
                hidden_findings = rest.1;
                reason = "models outside your assigned tenants are not shown";
              }
              else no_redaction,
        )
