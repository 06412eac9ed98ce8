-- ===== src/Authz/Bindings/Tests.antt =====
-- Bindings and subjects at concrete values: the theorems applied, and tests by evaluation.
use cupel.Base.{
  ◌≡◌, ◌↔◌, inl, inr, refl, true, false, none, some, List, [], ◌∷◌, is_blank, is_member, trim_space,
  is_space, codes_eq, to_lower,
}
use cupel.Authz.Roles.{can, can_see_namespace, role_capabilities, view_finding_path}
use cupel.Authz.Bindings.{Binding, Claims, inner_wildcard, matches, validate, applies, subject_for}
use cupel.Authz.Bindings.Grants.{
  SomeBinding, IsGranting, IsCovering, can-iff-granted, roles_cross_tenants,
}

-- Auditors everywhere, and the fraud teams own the models of one tenant.
abbrev bindings : List Binding
bindings =
    record { group = "audit"; role = "auditor"; namespaces = []; all_namespaces = true }
    ∷ record {
      group = "ml-fraud-*";
      role = "owner";
      namespaces = "fraud" ∷ [];
      all_namespaces = false;
    }
    ∷ []

-- Someone in both.
abbrev claims : Claims
claims = record { username = "dana"; groups = "ml-fraud-eu" ∷ "audit" ∷ [] }

audits :
    IsCovering claims.groups "triage"
      (record { group = "audit"; role = "auditor"; namespaces = []; all_namespaces = true })
unfolding applies matches
audits = record { is_member_of = refl; covers = inl refl }

owns : IsGranting claims.groups view_finding_path (record {
  group = "ml-fraud-*";
  role = "owner";
  namespaces = "fraud" ∷ [];
  all_namespaces = false;
})
unfolding applies matches role_capabilities is_member
owns = record { is_member_of = refl; may = refl }

can-iff-granted_example :
    (can (subject_for bindings claims) view_finding_path ≡ true)
    ↔ SomeBinding (IsGranting claims.groups view_finding_path) bindings
can-iff-granted_example = can-iff-granted bindings claims view_finding_path

roles_cross_tenants_example :
    (can (subject_for bindings claims) view_finding_path ≡ true)
    × (can_see_namespace (subject_for bindings claims) "triage" ≡ true)
roles_cross_tenants_example =
    roles_cross_tenants bindings claims view_finding_path "triage" (inr (inl owns)) (inl audits)

-- The role is accepted in any case, and grants nothing unless it is in lower case.
accepts_capital :
    validate (record { group = "admins"; role = "Admin"; namespaces = []; all_namespaces = true })
    ≡ none
unfolding validate is_blank trim_space is_space codes_eq to_lower
accepts_capital = refl

capital_grants_nothing : role_capabilities "Admin" ≡ []
unfolding role_capabilities
capital_grants_nothing = refl

refuses_inner :
    validate
      (record { group = "ml-*-eu"; role = "owner"; namespaces = "a" ∷ []; all_namespaces = false })
    ≡ some inner_wildcard
unfolding validate is_blank trim_space is_space
refuses_inner = refl
