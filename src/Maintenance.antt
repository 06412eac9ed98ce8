-- ===== src/Maintenance.antt =====
-- internal/maintenance/prune.go: the pruner of finished scans. What the API server answers to the two
-- lists and to each deletion is an argument. The number that `Run` returns is that of the removed
-- scans.
pub mod Spared
mod Tests
use cupel.Base.{
  ℕ, ◌+◌, ◌*◌, Bool, true, false, not, ◌&&◌, ◌||◌, Option, none, some, List, [], ◌∷◌, String,
  if◌then◌else◌, ltb, str_eq, any, select,
}
use cupel.Api.{ModelSecurityReport}

-- `MaxAge`: zero, negative, or positive.
pub data MaxAge : Type 0 where
  unset : MaxAge
  disabled : MaxAge
  limited : ℕ → MaxAge

pub record Pruner : Type 0 where
  pub namespace : String
  pub max_age : MaxAge
  pub now : ℕ

pub record ArtifactScan : Type 0 where
  pub namespace : String
  pub name : String
  pub completion_time : Option ℕ

-- What a deletion answers.
pub data Deletion : Type 0 where
  deleted : Deletion
  gone : Deletion
  refused : Deletion

pub record Run : Type 0 where
  pub removed : List ArtifactScan
  pub failed : Bool

-- 90 days
abbrev pub default_max_age : ℕ
default_max_age = 90 * 24 * 3600 * 1000000000

-- The age in force; none, if nothing is to be pruned.
pub max_age_of : MaxAge → Option ℕ
max_age_of unset = some default_max_age
max_age_of disabled = none
max_age_of (limited age) = some age

-- A list is restricted to the namespace of the pruner, if it has one.
pub in_scope : Pruner → String → Bool
in_scope p namespace = str_eq p.namespace "" || str_eq namespace p.namespace

abbrev pub points_at : ArtifactScan → ModelSecurityReport → Bool
points_at s r =
    not (str_eq r.scan_ref "") && (str_eq r.namespace s.namespace && str_eq r.scan_ref s.name)

-- Whether the scan is among `scansInUse`, of the reports that are listed.
pub is_in_use : Pruner → List ModelSecurityReport → ArtifactScan → Bool
is_in_use p reports s = any (points_at s) (select (λ r. in_scope p r.namespace) reports)

is_expired : ℕ → ℕ → Option ℕ → Bool
is_expired age now none = false
is_expired age now (some t) = ltb (t + age) now

-- Whether the body of the loop reaches the deletion.
pub is_due : Pruner → ℕ → List ModelSecurityReport → ArtifactScan → Bool
unfolding is_expired
is_due p age reports s = is_expired age p.now s.completion_time && not (is_in_use p reports s)

on_deletion : Deletion → ArtifactScan → Run → Run
on_deletion deleted s rest = record rest { removed = s ∷ rest.removed }
on_deletion gone s rest = record rest { removed = s ∷ rest.removed }
on_deletion refused s rest = record { removed = []; failed = true }

-- The loop over the listed scans.
pub prune : (ArtifactScan → Bool) → (ArtifactScan → Deletion) → List ArtifactScan → Run
unfolding on_deletion
prune due answer [] = record { removed = []; failed = false }
prune due answer (s ∷ scans) =
    let rest = prune due answer scans in if due s then on_deletion (answer s) s rest else rest

prune_listed :
    Pruner
    → Option ℕ
    → Option (List ModelSecurityReport)
    → Option (List ArtifactScan)
    → (ArtifactScan → Deletion)
    → Run
prune_listed p none reports scans answer = record { removed = []; failed = false }
prune_listed p (some age) none scans answer = record { removed = []; failed = true }
prune_listed p (some age) (some reports) none answer = record { removed = []; failed = true }
prune_listed p (some age) (some reports) (some scans) answer =
    prune (is_due p age reports) answer (select (λ s. in_scope p s.namespace) scans)

-- `Run`, over the reports and the scans of the cluster, where they can be listed.
pub run :
    Pruner
    → Option (List ModelSecurityReport)
    → Option (List ArtifactScan)
    → (ArtifactScan → Deletion)
    → Run
unfolding prune_listed
run p reports scans answer = prune_listed p (max_age_of p.max_age) reports scans answer
