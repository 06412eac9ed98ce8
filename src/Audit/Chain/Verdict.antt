-- ===== src/Audit/Chain/Verdict.antt =====
-- When `VerifyFrom` of internal/audit/chain.go calls a chain valid.
use native.Mathlib.Nat.{add-zero}
use cupel.Base.{
  ℕ, ◌+◌, ◌≤◌, ◌≡◌, ◌↔◌, refl, true, Option, none, some, List, [], arith, String, eq_iff, length,
  Bool-cases, inl, inr,
}
use cupel.Audit.Record.{Record, Encoding, u64}
use cupel.Audit.Chain.{
  Verification, Anchor, Checkpoint, offset_of, start_of, head_hash, check_checkpoint, begin,
  verify_from,
}
use cupel.Audit.Chain.Links.{
  Linked, IsConsistent, walk_sound, walk_complete, walk-head_hash, walk-IsConsistent,
  check_checkpoint-IsConsistent,
}

-- The chain has not got shorter than its checkpoint, and at the same length has its head.
abbrev pub Meets : Option Checkpoint → ℕ → String → Type 0
Meets none n head = Unit {0}
Meets (some cp) n head = (cp.length ≤ n) × (n ≡ cp.length → head ≡ cp.head)

abbrev pub total : Option Anchor → List Record → ℕ
total anchor rs = u64 (offset_of anchor + u64 (length rs))

check_checkpoint_sound :
    (cp : Option Checkpoint) (v : Verification)
    → (check_checkpoint cp v).valid ≡ true
    → (v.valid ≡ true) × Meets cp v.length v.head
unfolding check_checkpoint
check_checkpoint_sound none v h = (h, tt)
check_checkpoint_sound (some cp) v h = ground (arith, eq_iff v.head cp.head)

check_checkpoint_complete :
    (cp : Option Checkpoint) (v : Verification)
    → v.valid ≡ true
    → Meets cp v.length v.head
    → (check_checkpoint cp v).valid ≡ true
unfolding check_checkpoint
check_checkpoint_complete none v h m = h
check_checkpoint_complete (some cp) v h m = ground (arith, eq_iff v.head cp.head)

-- A chain is valid exactly when every record has its number, names the hash before it and carries
-- its own hash, and the checkpoint, if there is one, is met by the length and the last hash.
pub valid-iff-Linked :
    (enc : Encoding) (rs : List Record) (anchor : Option Anchor) (cp : Option Checkpoint)
    → ((verify_from enc rs anchor cp).valid ≡ true) ↔ (
        Linked enc (offset_of anchor) (start_of anchor) rs
        × Meets cp (total anchor rs) (head_hash (start_of anchor) rs))
unfolding check_checkpoint verify_from
valid-iff-Linked enc rs anchor cp = (sound, complete)
  where
    sound :
        (verify_from enc rs anchor cp).valid ≡ true
        → Linked enc (offset_of anchor) (start_of anchor) rs
          × Meets cp (total anchor rs) (head_hash (start_of anchor) rs)
    sound h =
        let checked = check_checkpoint_sound cp _ h in
        (
          rw add-zero at
              (walk_sound enc (offset_of anchor) 0 (start_of anchor) (begin anchor) rs checked.0).1,
          rw (walk-head_hash enc (offset_of anchor) 0 (start_of anchor) (begin anchor) rs) at
              checked.1,
        )

    complete :
        Linked enc (offset_of anchor) (start_of anchor) rs
          × Meets cp (total anchor rs) (head_hash (start_of anchor) rs)
        → (verify_from enc rs anchor cp).valid ≡ true
    complete (l, m) =
        check_checkpoint_complete cp _
          (walk_complete enc (offset_of anchor) 0 (start_of anchor) (begin anchor) rs refl
            (rw add-zero l))
          (rw (walk-head_hash enc (offset_of anchor) 0 (start_of anchor) (begin anchor) rs) m)

clean_iff : (v : Verification) → IsConsistent v → (v.valid ≡ true) ↔ (v.problems ≡ [])
clean_iff v h = (
  h.clean,
  λ none_left. elim (Bool-cases v.valid) [
    | inl good ↦ good
    | inr bad ↦ absurd (h.dirty bad none_left)
  ],
)

-- A verification reports a problem exactly when it is not valid.
pub valid-iff-no_problem :
    (enc : Encoding) (rs : List Record) (anchor : Option Anchor) (cp : Option Checkpoint)
    → ((verify_from enc rs anchor cp).valid ≡ true) ↔ ((verify_from enc rs anchor cp).problems ≡ [])
unfolding verify_from
valid-iff-no_problem enc rs anchor cp = clean_iff _ (
    check_checkpoint-IsConsistent cp _ (
      let walked =
        walk-IsConsistent enc (offset_of anchor) 0 (start_of anchor) (begin anchor) rs
          (record { clean = λ _. refl; dirty = λ h. cc }) in
      record { clean = walked.clean; dirty = walked.dirty }))
