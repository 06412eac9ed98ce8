-- ===== src/Audit/System/Invariant.antt =====
-- What holds in every state of the store, its writers and its archiver.
pub mod Segments
pub mod Selecting
pub mod Archiving
pub mod Moving
pub mod Publishing
pub mod Stable
pub mod Writing
use cupel.Base.{
  ℕ, zero, suc, ◌+◌, ◌≤◌, ◌<◌, ◌^◌, ◌≡◌, ◌⊎◌, inl, inr, refl, Bool, Option, none, some, List, [],
  ◌∷◌, ◌++◌, String, length, arith,
}
use cupel.Audit.Record.{Record, Encoding, genesis_hash}
use cupel.Audit.Chain.{Anchor, head_hash}
use cupel.Audit.Chain.Links.{Linked}
use cupel.Audit.Store.{AuditCheckpointSpec, AuditCheckpoint, Store, merge_spec}
use cupel.Audit.Recorder.{
  Writer, idle, seeking, listing, at_checkpoint, catching_up, creating, recorded, publishing_first,
  publishing, appended, failed, spec_of_record,
}
use cupel.Audit.Archive.{
  Task, resting, starting, probing, listing_covered, sweeping, measuring, collecting, selecting,
  moving, dropping, numbers,
}
use cupel.Audit.System.{System}
use cupel.Audit.System.Positions.{Ascends, At, At-append}

-- The published checkpoint is that of a record of the log, and its boundary is the end of the archive.
pub record IsCheckpoint (archived log : List Record) (spec : AuditCheckpointSpec) : Type 0 where
  pub boundary : spec.archived_length ≡ length archived
  pub anchored : 0 < length archived → spec.archived_head ≡ head_hash genesis_hash archived
  pub within : spec.archived_length ≤ spec.length
  pub last : Record
  pub named : At 0 log spec.length last
  pub hashed : last.hash ≡ spec.head

abbrev pub PublishedOk : (archived log : List Record) → Option AuditCheckpoint → Type 0
PublishedOk archived log none = length archived ≡ 0
PublishedOk archived log (some p) = IsCheckpoint archived log p.spec

-- Neither the length nor the boundary of the published checkpoint goes back.
abbrev pub Forward : (before after : Option AuditCheckpoint) → Type 0
Forward none after = Unit
Forward (some p) none = ⊥
Forward (some p) (some q) =
    (p.spec.length ≤ q.spec.length) × (p.spec.archived_length ≤ q.spec.archived_length)

pub Forward-refl : (published : Option AuditCheckpoint) → Forward published published
Forward-refl none = tt
Forward-refl (some p) = (omega arith, omega arith)

-- An update that a writer is about to make is that of the checkpoint at the version it names, if the
-- checkpoint still has it.
abbrev pub IsCurrent : Option AuditCheckpoint → ℕ → AuditCheckpointSpec → Record → Type 0
IsCurrent none version spec r = ⊥
IsCurrent (some p) version spec r =
    (version ≤ p.version) × (p.version ≡ version → merge_spec p.spec (spec_of_record r) ≡ some spec)

-- The head that a writer holds, while `gone` records are deleted.
abbrev pub HeldOk : (gone : ℕ) → List Record → (place rounds : ℕ) → Option Record → Type 0
HeldOk gone log place rounds none = (place ≤ gone) × (rounds ≡ 0)
HeldOk gone log place rounds (some r) = At 0 log place r

abbrev pub WriterOk : (gone : ℕ) → List Record → Option AuditCheckpoint → Writer → Type 0
WriterOk gone log published (at_checkpoint e k from) = (gone ≤ from) × (from ≤ length log)
WriterOk gone log published (catching_up e k from rounds prev) =
    (gone ≤ from + rounds)
    × (from + rounds ≤ length log)
    × HeldOk gone log (from + rounds) rounds prev
WriterOk gone log published (creating e k none) = gone ≡ 0
WriterOk gone log published (creating e k (some r)) = (gone ≤ r.seq) × At 0 log r.seq r
WriterOk gone log published (recorded r) = At 0 log r.seq r
WriterOk gone log published (publishing_first r) = At 0 log r.seq r
WriterOk gone log published (publishing r version spec) =
    At 0 log r.seq r × IsCurrent published version spec r
WriterOk gone log published (appended r) = At 0 log r.seq r
WriterOk gone log published _ = Unit {0}

-- A list that the archiver holds is a part of the live records.
pub record IsFront (front whole : List Record) : Type 0 where
  pub more : List Record
  pub split : whole ≡ front ++ more

abbrev pub TaskOk : (gone : ℕ) (archived pending live : List Record) → Task → Type 0
TaskOk gone archived pending live (probing b) = b ≡ length archived
TaskOk gone archived pending live (listing_covered b) = b ≡ length archived
TaskOk gone archived pending live (sweeping todo) = todo ≡ numbers (suc gone) (length pending)
TaskOk gone archived pending live measuring = pending ≡ []
TaskOk gone archived pending live collecting = pending ≡ []
TaskOk gone archived pending live (selecting listed) = (pending ≡ []) × IsFront listed live
TaskOk gone archived pending live (moving anchor first restored) =
    (pending ≡ [])
    × ((more : List Record) × (live ≡ restored ++ more) × (0 < length more))
    × (anchor.length ≡ length archived + length restored)
    × (anchor.head ≡ head_hash genesis_hash (archived ++ restored))
    × (first ≡ suc (length archived))
TaskOk gone archived pending live (dropping todo) = todo ≡ numbers (suc gone) (length pending)
TaskOk gone archived pending live _ = Unit {0}

-- Some archived records are deleted from the store, and the others are about to be; the archive and
-- the live records together are the log, a chain from the beginning.
pub record Inv (enc : Encoding) (s : System) : Type 0 where
  pub gone : List Record
  pub pending : List Record
  pub live : List Record
  pub stored : s.store.records ≡ pending ++ live
  pub archive : s.archived ≡ gone ++ pending
  pub fits : length (s.archived ++ live) < 2 ^ 64
  pub linked : Linked enc 0 genesis_hash (s.archived ++ live)
  pub room : 0 < length s.archived → 0 < length live
  pub checkpoint : PublishedOk s.archived (s.archived ++ live) s.store.published
  pub writer : (i : ℕ) → WriterOk (length gone) (s.archived ++ live) s.store.published (s.writers i)
  pub task : TaskOk (length gone) s.archived pending live s.task
