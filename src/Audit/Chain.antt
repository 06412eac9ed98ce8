-- ===== src/Audit/Chain.antt =====
-- `Checkpoint`, `Anchor`, `Verification`, `Verify`, `VerifyFrom` and `Head` of
-- internal/audit/chain.go. A problem is a value with the facts that its message is formatted from.
pub mod Links
pub mod Verdict
pub mod Tamper
pub mod Segments
pub mod Growth
mod Tests
use Prim.Native.String.{len, slice}
use cupel.Base.{
  ℕ, zero, suc, ◌+◌, ◌*◌, ◌/◌, ◌^◌, Bool, true, false, not, ◌&&◌, Option, none, some, List, [], ◌∷◌,
  ◌++◌, ltb, leb, ◌==◌, String, if◌then◌else◌, length, str_eq,
}
use cupel.Audit.Record.{Record, Encoding, u64, genesis_hash, compute_hash}

pub record Anchor : Type 0 where
  pub length : ℕ
  pub head : String
  pub location : String

pub record Checkpoint : Type 0 where
  pub length : ℕ
  pub head : String
  pub time : ℕ
  pub archived : Option Anchor

-- `(*Checkpoint).Anchor`, whose receiver may be nil.
unfoldable pub anchor_of : Option Checkpoint → Option Anchor
anchor_of none = none
anchor_of (some cp) = cp.archived

pub data Problem : Type 0 where
  wrong_seq : (want got : ℕ) → Problem
  wrong_predecessor : (seq : ℕ) (expected found : String) → Problem
  modified : (seq : ℕ) (computed carried : String) → Problem
  shorter : (length checkpoint : ℕ) → Problem
  rewritten : (head checkpoint : String) → Problem

pub record Verification : Type 0 where
  pub valid : Bool
  pub length : ℕ
  pub anchored : ℕ
  pub head : String
  pub problems : List Problem

-- The first 12 bytes of a hash.
short : String → String
short h = if leb (len h) 12 then h else slice h 0 12

report : Verification → Problem → Verification
report v p = record v { valid = false; problems = v.problems ++ p ∷ [] }

pub report_if : Bool → Problem → Verification → Verification
unfolding report
report_if test p v = if test then report v p else v

-- One round of the loop: the sequence number, the link, and the hash of a record.
pub check_record : Encoding → ℕ → String → Record → Verification → Verification
check_record enc want prev r v =
    let got = compute_hash enc r in
    report_if (not (str_eq got r.hash)) (modified r.seq (short got) (short r.hash)) (
      report_if (not (str_eq r.prev_hash prev))
        (wrong_predecessor r.seq (short prev) (short r.prev_hash))
        (report_if (not (r.seq == want)) (wrong_seq want r.seq) v))

-- The loop over the records, with `i` of them done; it ends with the last hash.
pub walk : Encoding → ℕ → ℕ → String → Verification → List Record → Verification × String
walk enc offset i prev v [] = (v, prev)
walk enc offset i prev v (r ∷ rs) =
    walk enc offset (suc i) r.hash (check_record enc (u64 (offset + suc i)) prev r v) rs

abbrev pub offset_of : Option Anchor → ℕ
offset_of none = 0
offset_of (some a) = a.length

abbrev pub start_of : Option Anchor → String
start_of none = genesis_hash
start_of (some a) = a.head

pub check_checkpoint : Option Checkpoint → Verification → Verification
unfolding report
check_checkpoint none v = v
check_checkpoint (some cp) v =
    if ltb v.length cp.length
    then report v (shorter v.length cp.length)
    else if v.length == cp.length && not (str_eq v.head cp.head)
    then report v (rewritten (short v.head) (short cp.head))
    else v

-- The verification before the first record is read.
pub begin : Option Anchor → Verification
begin anchor = record {
  valid = true;
  length = 0;
  anchored = offset_of anchor;
  head = start_of anchor;
  problems = [];
}

unfoldable pub verify_from :
    Encoding → List Record → Option Anchor → Option Checkpoint → Verification
unfolding walk check_record report_if check_checkpoint begin short
verify_from enc records anchor checkpoint =
    let (v, last) = walk enc (offset_of anchor) 0 (start_of anchor) (begin anchor) records in
    check_checkpoint checkpoint
      (record v { length = u64 (offset_of anchor + u64 (length records)); head = last })

unfoldable pub verify : Encoding → List Record → Option Checkpoint → Verification
unfolding verify_from
verify enc records checkpoint = verify_from enc records none checkpoint

-- The hash of the last record, or the start of the chain.
abbrev pub head_hash : String → List Record → String
head_hash start [] = start
head_hash start (r ∷ rs) = head_hash r.hash rs

-- `Head`; the time is the caller's clock, truncated to the second.
unfoldable pub head : List Record → ℕ → Checkpoint
head records now = record {
  length = u64 (length records);
  head = head_hash genesis_hash records;
  time = now / 10 ^ 9 * 10 ^ 9;
  archived = none;
}
