-- ===== src/Audit/Store.antt =====
-- What internal/audit/recorder.go keeps in the cluster: the AuditRecord objects of a namespace and the
-- checkpoint object. A record is addressed by its number, of which its name is a function. Numbers and
-- lengths stay below 2 ^ 63, where the conversions between `int64` and `uint64` change nothing.
use cupel.Base.{
  ℕ, ◌+◌, ◌-◌, ◌^◌, ◌&&◌, Option, none, some, List, [], ◌∷◌, String, if◌then◌else◌, ltb, ◌==◌,
  length, select,
}
use cupel.Audit.Record.{Record, Encoding, u64}
use cupel.Audit.Chain.{Anchor, Checkpoint, Verification, verify}

pub record AuditCheckpointSpec : Type 0 where
  pub length : ℕ
  pub head : String
  pub time : ℕ
  pub archived_length : ℕ
  pub archived_head : String
  pub archive_location : String

-- The stored object, with the version that an update must name.
pub record AuditCheckpoint : Type 0 where
  pub version : ℕ
  pub spec : AuditCheckpointSpec

pub record Store : Type 0 where
  pub records : List Record
  pub published : Option AuditCheckpoint

unfoldable pub checkpoint_from_api : AuditCheckpointSpec → Checkpoint
checkpoint_from_api spec = record {
  length = spec.length;
  head = spec.head;
  time = spec.time;
  archived =
      if ltb 0 spec.archived_length
      then some (record {
        length = spec.archived_length;
        head = spec.archived_head;
        location = spec.archive_location;
      })
      else none;
}

unfoldable pub spec_of_archived : Checkpoint → Option Anchor → AuditCheckpointSpec
spec_of_archived cp none = record {
  length = cp.length;
  head = cp.head;
  time = cp.time;
  archived_length = 0;
  archived_head = "";
  archive_location = "";
}
spec_of_archived cp (some a) = record {
  length = cp.length;
  head = cp.head;
  time = cp.time;
  archived_length = a.length;
  archived_head = a.head;
  archive_location = a.location;
}

unfoldable pub spec_from_checkpoint : Checkpoint → AuditCheckpointSpec
unfolding spec_of_archived
spec_from_checkpoint cp = spec_of_archived cp cp.archived

-- `recordAt`: number 0 names no record.
unfoldable pub find_record : ℕ → List Record → Option Record
find_record n [] = none
find_record n (r ∷ rs) = let rest = find_record n rs in if r.seq == n then some r else rest

unfoldable pub record_at : ℕ → List Record → Option Record
unfolding find_record
record_at n rs = if n == 0 then none else find_record n rs

unfoldable pub insert_by_seq : Record → List Record → List Record
insert_by_seq r [] = r ∷ []
insert_by_seq r (s ∷ ss) =
    let later = insert_by_seq r ss in if ltb s.seq r.seq then s ∷ later else r ∷ s ∷ ss

-- `load`
unfoldable pub load : List Record → List Record
unfolding insert_by_seq
load [] = []
load (r ∷ rs) = insert_by_seq r (load rs)

-- The update of `putCheckpoint`, of a checkpoint that exists; none, if it is refused.
unfoldable pub merge_spec : AuditCheckpointSpec → AuditCheckpointSpec → Option AuditCheckpointSpec
merge_spec existing obj =
    if ltb obj.length existing.length
    then none
    else if ltb obj.archived_length existing.archived_length && ltb 0 obj.archived_length
    then none
    else if obj.archived_length == 0
    then some (record obj {
      archived_length = existing.archived_length;
      archived_head = existing.archived_head;
      archive_location = existing.archive_location;
    })
    else some obj

-- The update of `advanceBoundary`; none, if it is refused.
unfoldable pub advance_boundary : Anchor → AuditCheckpointSpec → Option AuditCheckpointSpec
advance_boundary a existing =
    if ltb a.length existing.archived_length
    then none
    else if ltb existing.length a.length
    then none
    else some (record existing {
      archived_length = a.length;
      archived_head = a.head;
      archive_location = a.location;
    })

unfoldable pub published_anchor : Option AuditCheckpoint → Option Anchor
published_anchor none = none
published_anchor (some p) = (checkpoint_from_api p.spec).archived

unfoldable pub published_checkpoint : Option AuditCheckpoint → Option Checkpoint
published_checkpoint none = none
published_checkpoint (some p) = some (checkpoint_from_api p.spec)

-- The records that the archive boundary does not cover.
unfoldable pub retained_after : Option Anchor → List Record → List Record
retained_after none rs = rs
retained_after (some a) rs = if ltb 0 a.length then select (λ r. ltb a.length r.seq) rs else rs

-- `Chain`, from the records as they are loaded and the checkpoint.
unfoldable pub chain : List Record → Option AuditCheckpoint → List Record × Option Checkpoint
unfolding published_checkpoint
chain listed published =
    (retained_after (published_anchor published) listed, published_checkpoint published)

size_of : List Record → Option AuditCheckpoint → ℕ × ℕ
size_of records none = (length records, length records)
size_of records (some p) = (p.spec.length, u64 (p.spec.length + 2 ^ 64 - p.spec.archived_length))

-- `Size`: the length, and how much of it is stored.
unfoldable pub size : Store → ℕ × ℕ
unfolding size_of
size s = size_of s.records s.published

-- `Verify` of the recorder.
unfoldable pub verify_store : Encoding → Store → Verification
verify_store enc s = let (records, cp) = chain (load s.records) s.published in verify enc records cp
