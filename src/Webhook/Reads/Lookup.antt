-- ===== src/Webhook/Reads/Lookup.antt =====
-- Which report and which policy internal/webhook/gate.go settles on.
use cupel.Base.{
  ◌≡◌, ◌≢◌, ◌⊎◌, inl, inr, refl, ap, true, none, List, [], ◌∷◌, String, arith, eq_iff, All, MemOf,
  Bool-cases,
}
use cupel.Api.{ModelSecurityReport}
use cupel.Webhook.ModelRef.{ModelRef}
use cupel.Webhook.Reads.{
  Reply, found, not_found, failed, Cluster, ModelGate, ScanPolicy, lookup_namespaces, describes,
  enforcement_of, promotion_of, settle, next_policy, policy_name, find_in, find_among, find_report,
  find_policy, chosen_policy, enforcement_for, promotion_mode_for,
}

-- A report is about a model: what it names of model and version agrees with the reference.
pub record IsAbout (report : ModelSecurityReport) (ref : ModelRef) : Type 0 where
  pub same_model : report.model_name ≢ "" → report.model_name ≡ ref.model
  pub same_version :
      report.model_name ≢ ""
      → report.model_version ≢ ""
      → ref.version ≢ ""
      → report.model_version ≡ ref.version

pub describes-IsAbout :
    (report : ModelSecurityReport) (ref : ModelRef)
    → describes report ref ≡ true
    → IsAbout report ref
unfolding describes
describes-IsAbout report ref h = record {
  same_model =
      λ named. ground (arith, eq_iff report.model_name "", eq_iff report.model_name ref.model);
  same_version = λ named v w. ground (
    arith,
    eq_iff report.model_name "",
    eq_iff report.model_name ref.model,
    eq_iff report.model_version "",
    eq_iff ref.version "",
    eq_iff report.model_version ref.version,
  );
}

-- The report is stored in one of the namespaces, under one of the names.
abbrev pub StoredIn : Cluster → ModelSecurityReport → List String → List String → Type 0
StoredIn c report namespaces names =
    (ns : String) × (name : String) × (MemOf ns namespaces)
    × (MemOf name names)
    × (c.report_at ns name ≡ found report)

settle_sound :
    (ref : ModelRef) (answer rest : Reply ModelSecurityReport) (report : ModelSecurityReport)
    → settle ref answer rest ≡ found report
    → ((answer ≡ found report) × (describes report ref ≡ true)) ⊎ (rest ≡ found report)
unfolding settle
settle_sound ref (found r) rest report h = elim (Bool-cases (describes r ref)) [
  | inl about ↦ let same : r ≡ report = cc (rw about at h) in inl (ap found same, rw (← same) about)
  | inr other ↦ inr (rw other at h)
]
settle_sound ref not_found rest report h = inr h
settle_sound ref failed rest report h = cc

find_in_sound :
    (c : Cluster) (ref : ModelRef) (ns : String) (names : List String)
    (rest : Reply ModelSecurityReport) (report : ModelSecurityReport)
    → find_in c ref ns names rest ≡ found report
    → ((name : String) × (MemOf name names)
        × (c.report_at ns name ≡ found report)
        × (describes report ref ≡ true))
      ⊎ (rest ≡ found report)
unfolding find_in
find_in_sound c ref ns [] rest report h = inr h
find_in_sound c ref ns (name ∷ names) rest report h =
    elim (settle_sound ref (c.report_at ns name) (find_in c ref ns names rest) report h) [
      | inl (e, about) ↦ inl (name, inl refl, e, about)
      | inr more ↦ elim (find_in_sound c ref ns names rest report more) [
        | inl (other, m, e, about) ↦ inl (other, inr m, e, about)
        | inr out ↦ inr out
      ]
    ]

find_among_sound :
    (c : Cluster) (ref : ModelRef) (namespaces names : List String) (report : ModelSecurityReport)
    → find_among c ref namespaces names ≡ found report
    → StoredIn c report namespaces names × (describes report ref ≡ true)
unfolding find_among
find_among_sound c ref [] names report h = cc
find_among_sound c ref (ns ∷ nss) names report h =
    elim (find_in_sound c ref ns names (find_among c ref nss names) report h) [
      | inl (name, m, e, about) ↦ ((ns, name, inl refl, m, e), about)
      | inr more ↦
          let (stored, about) = find_among_sound c ref nss names report more in
          let (place, name, m, n, e) = stored in ((place, name, inr m, n, e), about)
    ]

-- A report that is found is stored under one of the model's names in one of the namespaces that
-- are searched, and is about the model that the workload names.
pub find_report_sound :
    (g : ModelGate) (c : Cluster) (namespace : String) (ref : ModelRef)
    (report : ModelSecurityReport)
    → find_report g c namespace ref ≡ found report
    → StoredIn c report (lookup_namespaces g namespace) (g.report_names ref.model ref.version)
      × IsAbout report ref
unfolding find_report
find_report_sound g c namespace ref report h =
    let (stored, about) =
      find_among_sound c ref (lookup_namespaces g namespace) (g.report_names ref.model ref.version)
        report h in
    (stored, describes-IsAbout report ref about)

-- No policy in any namespace that is searched can be read under the name.
abbrev pub Unreadable : Cluster → String → List String → Type 0
Unreadable c name = All (λ ns. (pol : ScanPolicy) → c.policy_at ns name ≢ found pol)

find_policy-Unreadable :
    (c : Cluster) (name : String) (nss : List String)
    → Unreadable c name nss
    → find_policy c name nss ≡ none
unfolding find_policy next_policy
find_policy-Unreadable c name [] h = refl
find_policy-Unreadable c name (ns ∷ nss) h =
    pass (c.policy_at ns name) h.0 (find_policy-Unreadable c name nss h.1)
  where
    pass :
        (answer : Reply ScanPolicy)
        → ((pol : ScanPolicy) → answer ≢ found pol)
        → find_policy c name nss ≡ none
        → next_policy answer (find_policy c name nss) ≡ none
    pass (found pol) n e = absurd (n pol refl)
    pass not_found n e = e
    pass failed n e = e

chosen_policy-Unreadable :
    (g : ModelGate) (c : Cluster) (namespace : String) (annotations : List (String × String))
    → Unreadable c (policy_name g annotations) (lookup_namespaces g namespace)
    → chosen_policy g c namespace annotations ≡ none
unfolding chosen_policy
chosen_policy-Unreadable g c namespace annotations h =
    let gone =
      find_policy-Unreadable c (policy_name g annotations) (lookup_namespaces g namespace) h in
    ground arith

-- Where the policy cannot be read in any namespace that is searched, because it is missing or the
-- read fails, the gate enforces and asks for a promotion.
pub Unreadable-enforces :
    (g : ModelGate) (c : Cluster) (namespace : String) (annotations : List (String × String))
    → Unreadable c (policy_name g annotations) (lookup_namespaces g namespace)
    → (enforcement_for g c namespace annotations ≡ "Enforce")
      × (promotion_mode_for g c namespace annotations ≡ "Require")
unfolding enforcement_for promotion_mode_for
Unreadable-enforces g c namespace annotations h =
    let gone = chosen_policy-Unreadable g c namespace annotations h in
    (ap enforcement_of gone, ap promotion_of gone)
