-- ===== src/Authz/Redact/Tests.antt =====
-- Findings and models as an auditor is shown them: the theorems applied.
use cupel.Base.{refl, false, List, [], ◌∷◌, String, All, is_member}
use cupel.Authz.Roles.{Subject, can, can_see_namespace, role_capabilities}
use cupel.Authz.Redact.{Finding, ModelView, redact_findings}
use cupel.Authz.Redact.Shown.{IsWithheld, paths_need_the_right}

abbrev auditor : Subject
auditor = record {
  username = "eve";
  groups = [];
  roles = "auditor" ∷ [];
  scope = record { namespaces = "fraud" ∷ []; all_namespaces = false };
}

abbrev findings : List Finding
findings =
    record {
      id = "1";
      title = "pickle";
      severity = "Critical";
      category = "malware";
      location = "a.pkl";
      description = "os.system";
    }
    ∷ []

paths_need_the_right_example :
    All IsWithheld (redact_findings auditor "fraud" findings "modelscan").0
unfolding can can_see_namespace role_capabilities is_member
paths_need_the_right_example = paths_need_the_right auditor "fraud" findings "modelscan" refl

abbrev models : List (ModelView String)
models =
    record { namespace = "fraud"; details = "a" }
    ∷ record { namespace = "triage"; details = "b" }
    ∷ []
