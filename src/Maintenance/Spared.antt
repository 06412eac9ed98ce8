-- ===== src/Maintenance/Spared.antt =====
-- What internal/maintenance/prune.go deletes, and what it never deletes.
use cupel.Base.{
  ℕ, inl, inr, ◌+◌, ◌<◌, ◌≡◌, ◌≢◌, refl, Bool, true, false, not, Option, none, some, List, [], ◌∷◌,
  ltb→lt, eq_iff, any, select, All, arith, Bool-cases, &&_split,
}
use cupel.Api.{ModelSecurityReport}
use cupel.Maintenance.{
  Pruner, ArtifactScan, Deletion, deleted, gone, refused, Run, max_age_of, in_scope, points_at,
  is_in_use, is_expired, is_due, on_deletion, prune, prune_listed, run,
}

-- The scan finished before the age in force, and no report of the cluster points at it.
pub record IsPrunable (p : Pruner) (reports : List ModelSecurityReport) (s : ArtifactScan)
    : Type 0 where
  pub age : ℕ
  pub finished : ℕ
  pub in_force : max_age_of p.max_age ≡ some age
  pub is_finished : s.completion_time ≡ some finished
  pub is_old : finished + age < p.now
  pub unreferenced : any (points_at s) reports ≡ false

module _ (P : ArtifactScan → Type 0) (due : ArtifactScan → Bool)
    (answer : ArtifactScan → Deletion) where
  answered :
      (s : ArtifactScan) (rest : Run) (reply : Deletion)
      → P s
      → All P rest.removed
      → All P (on_deletion reply s rest).removed
  unfolding on_deletion
  answered s rest deleted h all = (h, all)
  answered s rest gone h all = (h, all)
  answered s rest refused h all = tt

  prune-All :
      (scans : List ArtifactScan)
      → All (λ s. due s ≡ true → P s) scans
      → All P (prune due answer scans).removed
  unfolding prune
  prune-All [] all = tt
  prune-All (s ∷ scans) all = elim (Bool-cases (due s)) [
    | inr kept ↦ rw kept (prune-All scans all.1)
    | inl taken ↦
        rw taken
          (answered s (prune due answer scans) (answer s) (all.0 taken) (prune-All scans all.1))
  ]

points_at-namespace :
    (s : ArtifactScan) (r : ModelSecurityReport) → points_at s r ≡ true → r.namespace ≡ s.namespace
points_at-namespace s r h = ground (arith, eq_iff r.namespace s.namespace)

-- A report that points at a scan in scope is in scope.
unreferenced-in_scope :
    (p : Pruner) (s : ArtifactScan) (reports : List ModelSecurityReport)
    → in_scope p s.namespace ≡ true
    → is_in_use p reports s ≡ false
    → any (points_at s) reports ≡ false
unfolding is_in_use
unreferenced-in_scope p s [] inside unused = refl
unreferenced-in_scope p s (r ∷ reports) inside unused = elim (Bool-cases (in_scope p r.namespace)) [
  | inr outside ↦ elim (Bool-cases (points_at s r)) [
    | inl points ↦ cc (rw (points_at-namespace s r points) at outside)
    | inr other ↦ rw other (unreferenced-in_scope p s reports inside (rw outside at unused))
  ]
  | inl listed ↦ elim (Bool-cases (points_at s r)) [
    | inl points ↦ cc (rw (listed, points) at unused)
    | inr other ↦ rw other (unreferenced-in_scope p s reports inside (rw (listed, other) at unused))
  ]
]

is_expired-lt :
    (age now : ℕ) (completion : Option ℕ)
    → is_expired age now completion ≡ true
    → (t : ℕ) × (completion ≡ some t) × (t + age < now)
unfolding is_expired
is_expired-lt age now none h = cc
is_expired-lt age now (some t) h = (t, refl, ltb→lt (t + age) now h)

not-true : (b : Bool) → not b ≡ true → b ≡ false
not-true b h = ground arith

due-IsPrunable :
    (p : Pruner) (age : ℕ) (reports : List ModelSecurityReport) (s : ArtifactScan)
    → max_age_of p.max_age ≡ some age
    → in_scope p s.namespace ≡ true
    → is_due p age reports s ≡ true
    → IsPrunable p reports s
unfolding is_due
due-IsPrunable p age reports s in_force inside h =
    let (expired, free) = &&_split _ _ h in
    let (t, finished, old) = is_expired-lt age p.now s.completion_time expired in
    record {
      age = age;
      finished = t;
      in_force = in_force;
      is_finished = finished;
      is_old = old;
      unreferenced = unreferenced-in_scope p s reports inside (not-true _ free);
    }

listed-IsPrunable :
    (p : Pruner) (age : ℕ) (reports : List ModelSecurityReport) (scans : List ArtifactScan)
    → max_age_of p.max_age ≡ some age
    → All
        (λ s. is_due p age reports s ≡ true → IsPrunable p reports s)
        (select (λ s. in_scope p s.namespace) scans)
listed-IsPrunable p age reports [] in_force = tt
listed-IsPrunable p age reports (s ∷ scans) in_force = elim (Bool-cases (in_scope p s.namespace)) [
  | inl inside ↦ rw inside (
    due-IsPrunable p age reports s in_force inside,
    listed-IsPrunable p age reports scans in_force,
  )
  | inr outside ↦ rw outside (listed-IsPrunable p age reports scans in_force)
]

-- Whatever the API server answers, every scan that the pruner removes has finished, longer ago than
-- the age in force, and no report points at it: not among those it lists, and not among those of
-- other namespaces.
pub removed-IsPrunable :
    (p : Pruner) (reports : List ModelSecurityReport) (scans : Option (List ArtifactScan))
    (answer : ArtifactScan → Deletion)
    → All (IsPrunable p reports) (run p (some reports) scans answer).removed
unfolding run prune_listed
removed-IsPrunable p reports scans answer = go scans (max_age_of p.max_age) refl
  where
    go :
        (listing : Option (List ArtifactScan)) (limit : Option ℕ)
        → max_age_of p.max_age ≡ limit
        → All (IsPrunable p reports) (prune_listed p limit (some reports) listing answer).removed
    go none none e = tt
    go (some all) none e = tt
    go none (some age) e = tt
    go (some all) (some age) e =
        prune-All (IsPrunable p reports) (is_due p age reports) answer
          (select (λ s. in_scope p s.namespace) all) (listed-IsPrunable p age reports all e)

-- Unless a deletion is refused, the loop removes exactly the scans that are due, in their order, and
-- does not fail.
pub prune-select :
    (due : ArtifactScan → Bool) (answer : ArtifactScan → Deletion) (scans : List ArtifactScan)
    → All (λ s. answer s ≢ refused) scans
    → prune due answer scans ≡ record { removed = select due scans; failed = false }
unfolding prune on_deletion
prune-select due answer [] accepted = refl
prune-select due answer (s ∷ scans) accepted = elim (Bool-cases (due s)) [
  | inr kept ↦ rw kept (prune-select due answer scans accepted.1)
  | inl taken ↦ rw (taken, prune-select due answer scans accepted.1) (reply (answer s) accepted.0)
]
  where
    reply :
        (d : Deletion)
        → d ≢ refused
        → on_deletion d s (record { removed = select due scans; failed = false })
          ≡ record { removed = s ∷ select due scans; failed = false }
    reply deleted h = refl
    reply gone h = refl
    reply refused h = absurd (h refl)
