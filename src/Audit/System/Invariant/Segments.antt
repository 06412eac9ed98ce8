-- ===== src/Audit/System/Invariant/Segments.antt =====
-- What the archiver of internal/audit/archive.go computes of records with consecutive numbers.
use cupel.Base.{
  ℕ, zero, suc, ◌+◌, ◌<◌, ◌≡◌, inl, inr, refl, Option, none, some, List, [], ◌∷◌, ◌++◌, String,
  length, arith, ltb, Bool-cases, take, drop, codes_eq, codes_eq_sound,
}
use cupel.Audit.Record.{Record, Encoding, genesis_hash}
use cupel.Audit.Chain.{Anchor, head_hash, anchor_of, verify_from}
use cupel.Audit.Store.{AuditCheckpoint, checkpoint_from_api, published_anchor, published_checkpoint}
use cupel.Audit.Archive.{
  Codec, Archiver, retain_of, numbers, first_seq, last_seq, verified, restored_of,
}
use cupel.Audit.System.Positions.{Ascends}
use cupel.Audit.System.Invariant.{PublishedOk}

-- A segment that is encoded decodes to itself.
abbrev pub RoundTrips : Codec → Type 0
RoundTrips codec =
    (rs : List Record) (written : List ℕ)
    → codec.encode rs ≡ some written
    → codec.decode written ≡ some rs

-- The boundary that is read is that of the archive.
pub data ReadOk (archived : List Record) (anchor : Option Anchor) : Type 0 where
  unarchived : anchor ≡ none → length archived ≡ 0 → ReadOk archived anchor
  archived_to :
      (a : Anchor)
      → anchor ≡ some a
      → a.length ≡ length archived
      → 0 < a.length
      → a.head ≡ head_hash genesis_hash archived
      → ReadOk archived anchor

pub published_anchor-ReadOk :
    (archived log : List Record) (published : Option AuditCheckpoint)
    → PublishedOk archived log published
    → ReadOk archived (published_anchor published)
unfolding published_anchor checkpoint_from_api
published_anchor-ReadOk archived log none c = unarchived refl c
published_anchor-ReadOk archived log (some p) c = elim (Bool-cases (ltb 0 p.spec.archived_length)) [
  | inl test ↦ rw test (
      let pos : 0 < p.spec.archived_length = ground arith in
      archived_to _ refl c.boundary pos (c.anchored (omega (arith, pos, c.boundary))))
  | inr test ↦ rw test (unarchived refl (ground (arith, c.boundary)))
]

pub numbers-nil : (n : ℕ) (xs : List Record) → [] ≡ numbers n (length xs) → xs ≡ []
unfolding numbers
numbers-nil n [] h = refl
numbers-nil n (x ∷ xs) h = cc

-- A list of numbers that is not empty begins with that of the first record.
pub record IsNumbered (n : ℕ) (todo : List ℕ) (first : ℕ) (xs : List Record) : Type 0 where
  pub r : Record
  pub rest : List Record
  pub split : xs ≡ r ∷ rest
  pub here : n ≡ first
  pub later : todo ≡ numbers (suc first) (length rest)

pub numbers-IsNumbered :
    (n first : ℕ) (todo : List ℕ) (xs : List Record)
    → n ∷ todo ≡ numbers first (length xs)
    → IsNumbered n todo first xs
unfolding numbers
numbers-IsNumbered n first todo [] h = cc
numbers-IsNumbered n first todo (x ∷ xs) h = record {
  r = x;
  rest = xs;
  split = refl;
  here = cc;
  later = cc;
}

pub Ascends-front : (k : ℕ) (xs ys : List Record) → Ascends k (xs ++ ys) → Ascends k xs
Ascends-front k [] ys a = tt
Ascends-front k (x ∷ xs) ys a = (a.0, Ascends-front (suc k) xs ys a.1)

pub length-drop-pos : (n : ℕ) (xs : List Record) → n < length xs → 0 < length (drop n xs)
length-drop-pos zero xs h = h
length-drop-pos (suc n) [] h = absurd (omega arith)
length-drop-pos (suc n) (x ∷ xs) h = length-drop-pos n xs (omega arith)

pub length-take-pos : (n : ℕ) (xs : List Record) → 0 < n → 0 < length xs → 0 < length (take n xs)
length-take-pos zero xs h g = absurd (omega arith)
length-take-pos (suc n) [] h g = absurd (omega arith)
length-take-pos (suc n) (x ∷ xs) h g = omega arith

pub last_seq-Ascends :
    (k m : ℕ) (xs : List Record) → Ascends k xs → 0 < length xs → last_seq m xs ≡ k + length xs
unfolding last_seq
last_seq-Ascends k m [] a h = absurd (omega arith)
last_seq-Ascends k m (x ∷ []) a h = omega (arith, a.0)
last_seq-Ascends k m (x ∷ y ∷ xs) a h =
    omega (arith, last_seq-Ascends (suc k) x.seq (y ∷ xs) a.1 (omega arith))

pub first_seq-Ascends :
    (k : ℕ) (xs : List Record) → Ascends k xs → 0 < length xs → first_seq xs ≡ suc k
unfolding first_seq
first_seq-Ascends k [] a h = absurd (omega arith)
first_seq-Ascends k (x ∷ xs) a h = a.0

pub head_hash-nonempty :
    (p q : String) (xs : List Record) → 0 < length xs → head_hash p xs ≡ head_hash q xs
head_hash-nonempty p q [] h = absurd (omega arith)
head_hash-nonempty p q (x ∷ xs) h = refl

pub verified-Same :
    (enc : Encoding) (anchor : Option Anchor) (restored segment : List Record)
    (decoded : Option (List Record))
    → decoded ≡ some segment
    → verified enc anchor decoded ≡ some restored
    → restored ≡ segment
unfolding verified
verified-Same enc anchor restored segment none e h = cc
verified-Same enc anchor restored segment (some rs) e h =
    elim (Bool-cases (verify_from enc rs anchor none).valid) [
      | inl sound ↦ cc (rw sound at h)
      | inr bad ↦ cc (rw bad at h)
    ]

pub restored_of-Same :
    (enc : Encoding) (anchor : Option Anchor) (codec : Codec) (segment restored : List Record)
    (read : Option (List ℕ)) (written : List ℕ)
    → RoundTrips codec
    → codec.encode segment ≡ some written
    → restored_of enc anchor codec read written ≡ some restored
    → restored ≡ segment
unfolding restored_of
restored_of-Same enc anchor codec segment restored none written trips e h = cc
restored_of-Same enc anchor codec segment restored (some read) written trips e h =
    elim (Bool-cases (codes_eq read written)) [
      | inl same ↦
          let read_is : read ≡ written = codes_eq_sound read written same in
          verified-Same enc anchor restored segment (codec.decode read)
            (rw read_is (trips segment written e)) (rw same at h)
      | inr other ↦ cc (rw other at h)
    ]

pub retain_of-pos : (a : Archiver) → 0 < retain_of a
unfolding retain_of
retain_of-pos a = ground arith

pub anchor_of-published :
    (published : Option AuditCheckpoint)
    → anchor_of (published_checkpoint published) ≡ published_anchor published
unfolding anchor_of published_checkpoint published_anchor
anchor_of-published none = refl
anchor_of-published (some p) = refl
