-- ===== src/Audit/Chain/Segments.antt =====
-- Chains of internal/audit/chain.go in parts: an archived front and the records that follow it.
use cupel.Base.{
  ℕ, suc, ◌+◌, ◌<◌, ◌^◌, ◌≡◌, ◌↔◌, refl, true, Option, none, some, List, [], ◌∷◌, ◌++◌, arith,
  String, length, length-append,
}
use cupel.Audit.Record.{Record, Encoding}
use cupel.Audit.Chain.{Anchor, Checkpoint, offset_of, start_of, head_hash, verify_from}
use cupel.Audit.Chain.Links.{Linked}
use cupel.Audit.Chain.Verdict.{valid-iff-Linked, total}

pub head_hash-append :
    (p : String) (xs ys : List Record) → head_hash p (xs ++ ys) ≡ head_hash (head_hash p xs) ys
head_hash-append p [] ys = refl
head_hash-append p (x ∷ xs) ys = head_hash-append x.hash xs ys

pub Linked-append :
    (enc : Encoding) (k n : ℕ) (p : String) (xs ys : List Record)
    → n ≡ k + length xs
    → Linked enc k p (xs ++ ys) ↔ (Linked enc k p xs × Linked enc n (head_hash p xs) ys)
Linked-append enc k n p [] ys e =
    let same : n ≡ k = omega arith in (λ l. (tt, rw same l), λ l. rw (← same) l.1)
Linked-append enc k n p (x ∷ xs) ys e =
    let rest = Linked-append enc (suc k) n x.hash xs ys (omega arith) in
    (
      λ l. ((l.0, l.1, l.2, (rest.0 l.3).0), (rest.0 l.3).1),
      λ l. (l.0.0, l.0.1, l.0.2, rest.1 (l.0.3, l.1)),
    )

-- The anchor that an archive of `xs` leaves behind.
abbrev pub anchor_after : Option Anchor → List Record → String → Anchor
anchor_after anchor xs place = record {
  length = offset_of anchor + length xs;
  head = head_hash (start_of anchor) xs;
  location = place;
}

-- A chain is valid exactly when its front is valid and the rest is valid from the anchor that the
-- front leaves, provided that the number of records fits 64 bits.
pub verify-append :
    (enc : Encoding) (xs ys : List Record) (anchor : Option Anchor) (cp : Option Checkpoint)
    (place : String)
    → offset_of anchor + length (xs ++ ys) < 2 ^ 64
    → ((verify_from enc (xs ++ ys) anchor cp).valid ≡ true) ↔ (
        ((verify_from enc xs anchor none).valid ≡ true)
        × ((verify_from enc ys (some (anchor_after anchor xs place)) cp).valid ≡ true))
verify-append enc xs ys anchor cp place fits = (split, join)
  where
    same_total : total anchor (xs ++ ys) ≡ total (some (anchor_after anchor xs place)) ys
    same_total = omega (arith, length-append {0} xs ys)

    parts : Linked enc (offset_of anchor) (start_of anchor) (xs ++ ys) ↔ (
        Linked enc (offset_of anchor) (start_of anchor) xs
        × Linked enc (offset_of anchor + length xs) (head_hash (start_of anchor) xs) ys)
    parts = Linked-append enc _ _ _ xs ys refl

    split :
        (verify_from enc (xs ++ ys) anchor cp).valid ≡ true
        → ((verify_from enc xs anchor none).valid ≡ true)
          × ((verify_from enc ys (some (anchor_after anchor xs place)) cp).valid ≡ true)
    split h =
        let whole = (valid-iff-Linked enc (xs ++ ys) anchor cp).0 h in
        (
          (valid-iff-Linked enc xs anchor none).1 ((parts.0 whole.0).0, tt),
          (valid-iff-Linked enc ys (some (anchor_after anchor xs place)) cp).1 (
            (parts.0 whole.0).1,
            rw (← same_total, ← head_hash-append (start_of anchor) xs ys) whole.1,
          ),
        )

    join :
        ((verify_from enc xs anchor none).valid ≡ true)
          × ((verify_from enc ys (some (anchor_after anchor xs place)) cp).valid ≡ true)
        → (verify_from enc (xs ++ ys) anchor cp).valid ≡ true
    join h =
        let front = (valid-iff-Linked enc xs anchor none).0 h.0 in
        let rest = (valid-iff-Linked enc ys (some (anchor_after anchor xs place)) cp).0 h.1 in
        (valid-iff-Linked enc (xs ++ ys) anchor cp).1 (
          parts.1 (front.0, rest.0),
          rw (same_total, head_hash-append (start_of anchor) xs ys) rest.1,
        )
