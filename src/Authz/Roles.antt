-- ===== src/Authz/Roles.antt =====
-- internal/authz/authz.go: the roles, what each may do, and the subject that a request is served for.
-- A role and a capability are texts, as in the source; a role that is not known may do nothing.
use cupel.Base.{Bool, false, ◌||◌, List, [], ◌∷◌, String, str_eq, if◌then◌else◌, any, is_member}

abbrev pub view_inventory : String
view_inventory = "view:inventory"

abbrev pub view_findings : String
view_findings = "view:findings"

abbrev pub view_finding_path : String
view_finding_path = "view:finding-path"

abbrev pub view_compliance : String
view_compliance = "view:compliance"

abbrev pub run_scan : String
run_scan = "scan:create"

abbrev pub waive : String
waive = "finding:waive"

abbrev pub manage : String
manage = "admin:manage"

abbrev pub view_audit : String
view_audit = "view:audit"

unfoldable pub role_capabilities : String → List String
role_capabilities role =
    if str_eq role "admin"
    then view_inventory ∷ view_findings ∷ view_finding_path ∷ view_compliance ∷ run_scan ∷ waive
      ∷ manage ∷ view_audit ∷ []
    else if str_eq role "security"
    then view_inventory ∷ view_findings ∷ view_finding_path ∷ view_compliance ∷ run_scan ∷ waive
      ∷ view_audit ∷ []
    else if str_eq role "owner"
    then view_inventory ∷ view_findings ∷ view_finding_path ∷ view_compliance ∷ run_scan ∷ []
    else if str_eq role "auditor"
    then view_inventory ∷ view_findings ∷ view_compliance ∷ view_audit ∷ []
    else if str_eq role "viewer"
    then view_inventory ∷ []
    else []

pub record Scope : Type 0 where
  pub namespaces : List String
  pub all_namespaces : Bool

pub record Subject : Type 0 where
  pub username : String
  pub groups : List String
  pub roles : List String
  pub scope : Scope

unfoldable pub can : Subject → String → Bool
can s capability = any (λ role. is_member capability (role_capabilities role)) s.roles

unfoldable pub can_see_namespace : Subject → String → Bool
can_see_namespace s namespace = s.scope.all_namespaces || is_member namespace s.scope.namespaces

-- The subject of a request that was not authenticated.
abbrev pub anonymous : Subject
anonymous = record {
  username = "anonymous";
  groups = [];
  roles = [];
  scope = record { namespaces = []; all_namespaces = false };
}
