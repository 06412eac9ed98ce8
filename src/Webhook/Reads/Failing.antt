-- ===== src/Webhook/Reads/Failing.antt =====
-- What `findReport` of internal/webhook/gate.go answers where a read fails.
use cupel.Base.{◌≡◌, ◌⊎◌, inl, inr, refl, ap, List, [], ◌∷◌, String, MemOf, Bool-cases}
use cupel.Api.{ModelSecurityReport}
use cupel.Webhook.ModelRef.{ModelRef}
use cupel.Webhook.Reads.{
  Reply, found, not_found, failed, Cluster, ModelGate, lookup_namespaces, describes, settle,
  find_in, find_among, find_report,
}
use cupel.Webhook.Reads.Lookup.{IsAbout, describes-IsAbout}

-- Of the reads of the names in one namespace, in order, one fails before one answers with a report
-- about the model.
unfoldable pub FailsIn : Cluster → ModelRef → String → List String → Type 0
FailsIn c ref ns [] = ⊥
FailsIn c ref ns (name ∷ names) =
    (c.report_at ns name ≡ failed)
    ⊎ (((report : ModelSecurityReport) → c.report_at ns name ≡ found report → ¬ IsAbout report ref)
        × FailsIn c ref ns names)

-- No read of the names in one namespace answers with a report about the model.
abbrev pub HasNone : Cluster → ModelRef → String → List String → Type 0
HasNone c ref ns names =
    (name : String)
    → (report : ModelSecurityReport) → MemOf name names
    → c.report_at ns name ≡ found report
    → ¬ IsAbout report ref

-- The same over the namespaces, in order.
unfoldable pub FailsFirst : Cluster → ModelRef → List String → List String → Type 0
FailsFirst c ref [] names = ⊥
FailsFirst c ref (ns ∷ nss) names =
    FailsIn c ref ns names ⊎ (HasNone c ref ns names × FailsFirst c ref nss names)

settle_passed :
    (ref : ModelRef) (answer rest : Reply ModelSecurityReport)
    → ((report : ModelSecurityReport) → answer ≡ found report → ¬ IsAbout report ref)
    → rest ≡ failed
    → settle ref answer rest ≡ failed
unfolding settle
settle_passed ref (found r) rest other e = elim (Bool-cases (describes r ref)) [
  | inl about ↦ absurd (other r refl (describes-IsAbout r ref about))
  | inr passed ↦ rw passed e
]
settle_passed ref not_found rest other e = e
settle_passed ref failed rest other e = refl

find_in-FailsIn :
    (c : Cluster) (ref : ModelRef) (ns : String) (names : List String)
    (rest : Reply ModelSecurityReport)
    → FailsIn c ref ns names
    → find_in c ref ns names rest ≡ failed
unfolding find_in FailsIn
find_in-FailsIn c ref ns [] rest h = absurd h
find_in-FailsIn c ref ns (name ∷ names) rest (inl fails) =
    unfold settle in ap (λ answer. settle ref answer (find_in c ref ns names rest)) fails
find_in-FailsIn c ref ns (name ∷ names) rest (inr (other, later)) =
    settle_passed ref (c.report_at ns name) (find_in c ref ns names rest) other
      (find_in-FailsIn c ref ns names rest later)

find_in-HasNone :
    (c : Cluster) (ref : ModelRef) (ns : String) (names : List String)
    (rest : Reply ModelSecurityReport)
    → HasNone c ref ns names
    → rest ≡ failed
    → find_in c ref ns names rest ≡ failed
unfolding find_in
find_in-HasNone c ref ns [] rest h e = e
find_in-HasNone c ref ns (name ∷ names) rest h e =
    settle_passed ref (c.report_at ns name) (find_in c ref ns names rest)
      (λ report. h name report (inl refl))
      (find_in-HasNone c ref ns names rest (λ other report m. h other report (inr m)) e)

find_among-FailsFirst :
    (c : Cluster) (ref : ModelRef) (namespaces names : List String)
    → FailsFirst c ref namespaces names
    → find_among c ref namespaces names ≡ failed
unfolding find_among FailsFirst
find_among-FailsFirst c ref [] names h = absurd h
find_among-FailsFirst c ref (ns ∷ nss) names (inl here) =
    find_in-FailsIn c ref ns names (find_among c ref nss names) here
find_among-FailsFirst c ref (ns ∷ nss) names (inr (nothing, later)) =
    find_in-HasNone c ref ns names (find_among c ref nss names) nothing
      (find_among-FailsFirst c ref nss names later)

-- A failed read is the answer, unless a report about the model was read before it.
pub find_report-FailsFirst :
    (g : ModelGate) (c : Cluster) (namespace : String) (ref : ModelRef)
    → FailsFirst c ref (lookup_namespaces g namespace) (g.report_names ref.model ref.version)
    → find_report g c namespace ref ≡ failed
unfolding find_report
find_report-FailsFirst g c namespace ref h =
    find_among-FailsFirst c ref (lookup_namespaces g namespace)
      (g.report_names ref.model ref.version) h
