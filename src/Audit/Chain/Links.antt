-- ===== src/Audit/Chain/Links.antt =====
-- What the loop of `VerifyFrom` in internal/audit/chain.go establishes, stated without the loop.
use native.Mathlib.Nat.{add-suc}
use cupel.Base.{
  ℕ, suc, ◌+◌, ◌≡◌, ◌≢◌, refl, Bool, true, false, not, Option, none, some, List, [], ◌∷◌, ◌++◌,
  arith, String, eq_iff, str_eq, ltb, ◌==◌, ◌&&◌, Bool-cases, inl, inr,
}
use cupel.Audit.Record.{Record, Encoding, u64, compute_hash}
use cupel.Audit.Chain.{
  Verification, Problem, Checkpoint, rewritten, short, report_if, check_record, check_checkpoint,
  walk, head_hash,
}

-- Every record has its number, names its predecessor and carries its own hash.
abbrev pub Linked : Encoding → ℕ → String → List Record → Type 0
Linked enc k prev [] = Unit {0}
Linked enc k prev (r ∷ rs) =
    (r.seq ≡ u64 (suc k))
    × (r.prev_hash ≡ prev)
    × (compute_hash enc r ≡ r.hash)
    × Linked enc (suc k) r.hash rs

-- A verification is valid exactly when it has no problem.
pub record IsConsistent (v : Verification) : Type 0 where
  pub clean : v.valid ≡ true → v.problems ≡ []
  pub dirty : v.valid ≡ false → v.problems ≢ []

append_one-ne-nil : (ps : List Problem) (p : Problem) → ps ++ p ∷ [] ≢ []
append_one-ne-nil [] p h = cc
append_one-ne-nil (q ∷ ps) p h = cc

report_if-IsConsistent :
    (test : Bool) (p : Problem) (v : Verification)
    → IsConsistent v
    → IsConsistent (report_if test p v)
unfolding report_if
report_if-IsConsistent true p v h = record {
  clean = λ e. cc;
  dirty = λ _. append_one-ne-nil v.problems p;
}
report_if-IsConsistent false p v h = h

pub check_checkpoint-IsConsistent :
    (cp : Option Checkpoint) (v : Verification)
    → IsConsistent v
    → IsConsistent (check_checkpoint cp v)
unfolding check_checkpoint report_if
check_checkpoint-IsConsistent none v h = h
check_checkpoint-IsConsistent (some cp) v h = elim (Bool-cases (ltb v.length cp.length)) [
  | inl less ↦ rw less (record { clean = λ e. cc; dirty = λ _. append_one-ne-nil v.problems _ })
  | inr enough ↦ rw enough (
      report_if-IsConsistent (v.length == cp.length && not (str_eq v.head cp.head))
        (rewritten (short v.head) (short cp.head)) v h)
]

module _ (enc : Encoding) where
  pub check_record_sound :
      (want : ℕ) (prev : String) (r : Record) (v : Verification)
      → (check_record enc want prev r v).valid ≡ true
      → (v.valid ≡ true) × (r.seq ≡ want) × (r.prev_hash ≡ prev) × (compute_hash enc r ≡ r.hash)
  unfolding check_record report_if
  check_record_sound want prev r v h =
      ground (arith, eq_iff (compute_hash enc r) r.hash, eq_iff r.prev_hash prev)

  pub check_record_complete :
      (want : ℕ) (prev : String) (r : Record) (v : Verification)
      → (v.valid ≡ true)
      → (r.seq ≡ want)
      → (r.prev_hash ≡ prev)
      → (compute_hash enc r ≡ r.hash)
      → (check_record enc want prev r v).valid ≡ true
  unfolding check_record report_if
  check_record_complete want prev r v a b c d =
      ground (arith, eq_iff (compute_hash enc r) r.hash, eq_iff r.prev_hash prev)

  check_record-IsConsistent :
      (want : ℕ) (prev : String) (r : Record) (v : Verification)
      → IsConsistent v
      → IsConsistent (check_record enc want prev r v)
  unfolding check_record
  check_record-IsConsistent want prev r v h =
      report_if-IsConsistent _ _ _ (report_if-IsConsistent _ _ _ (report_if-IsConsistent _ _ v h))

  pub walk_sound :
      (offset i : ℕ) (prev : String) (v : Verification) (rs : List Record)
      → (walk enc offset i prev v rs).0.valid ≡ true
      → (v.valid ≡ true) × Linked enc (offset + i) prev rs
  unfolding walk
  walk_sound offset i prev v [] h = (h, tt)
  walk_sound offset i prev v (r ∷ rs) h =
      let (ok, rest) =
        walk_sound offset (suc i) r.hash (check_record enc (u64 (offset + suc i)) prev r v) rs h in
      let now = check_record_sound (u64 (offset + suc i)) prev r v ok in
      (now.0, rw (← add-suc offset i) (now.1, now.2, now.3, rest))

  pub walk_complete :
      (offset i : ℕ) (prev : String) (v : Verification) (rs : List Record)
      → v.valid ≡ true
      → Linked enc (offset + i) prev rs
      → (walk enc offset i prev v rs).0.valid ≡ true
  unfolding walk
  walk_complete offset i prev v [] h l = h
  walk_complete offset i prev v (r ∷ rs) h l =
      walk_complete offset (suc i) r.hash _ rs
        (check_record_complete _ prev r v h (rw add-suc l.0) l.1 l.2) (rw add-suc l.3)

  pub walk-head_hash :
      (offset i : ℕ) (prev : String) (v : Verification) (rs : List Record)
      → (walk enc offset i prev v rs).1 ≡ head_hash prev rs
  unfolding walk
  walk-head_hash offset i prev v [] = refl
  walk-head_hash offset i prev v (r ∷ rs) = walk-head_hash offset (suc i) r.hash _ rs

  pub walk-IsConsistent :
      (offset i : ℕ) (prev : String) (v : Verification) (rs : List Record)
      → IsConsistent v
      → IsConsistent (walk enc offset i prev v rs).0
  unfolding walk
  walk-IsConsistent offset i prev v [] h = h
  walk-IsConsistent offset i prev v (r ∷ rs) h =
      walk-IsConsistent offset (suc i) r.hash _ rs (check_record-IsConsistent _ prev r v h)
