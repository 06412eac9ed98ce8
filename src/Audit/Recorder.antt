-- ===== src/Audit/Recorder.antt =====
-- `Append` of internal/audit/recorder.go as a machine that makes one request to the API server in each
-- step, so that steps of several writers interleave. A request is refused where it fails for another
-- reason than the stored objects: the server is not reached, or the caller's deadline has passed.
use cupel.Base.{ℕ, suc, ◌+◌, Option, none, some, [], ◌∷◌, ◌++◌, if◌then◌else◌, ltb, ◌==◌}
use cupel.Audit.Record.{Record, Encoding, seal}
use cupel.Audit.Chain.Growth.{last?}
use cupel.Audit.Store.{
  AuditCheckpointSpec, AuditCheckpoint, Store, spec_from_checkpoint, find_record, record_at, load,
  merge_spec,
}

pub data Answer : Type 0 where
  ok : Answer
  refused : Answer

-- The constants of `Append` and `head`.
abbrev pub max_append_attempts : ℕ
max_append_attempts = 4096

abbrev pub max_catch_up : ℕ
max_catch_up = 1000

-- Where a call of `Append` stands, with the event and the attempts that were made.
pub data Writer : Type 0 where
  idle : Writer
  -- `head` is about to read the checkpoint, to list the records, to read the record that the
  -- checkpoint names, or to read the one that follows `from + rounds`
  seeking : (event : Record) (attempts : ℕ) → Writer
  listing : (event : Record) (attempts : ℕ) → Writer
  at_checkpoint : (event : Record) (attempts from : ℕ) → Writer
  catching_up : (event : Record) (attempts from rounds : ℕ) (prev : Option Record) → Writer
  -- about to create the record that follows `prev`
  creating : (event : Record) (attempts : ℕ) (prev : Option Record) → Writer
  -- the record is stored; the checkpoint is about to be read, created or updated
  recorded : (sealed : Record) → Writer
  publishing_first : (sealed : Record) → Writer
  publishing : (sealed : Record) (version : ℕ) (spec : AuditCheckpointSpec) → Writer
  -- `Append` has returned
  appended : (sealed : Record) → Writer
  failed : Writer

unfoldable pub on_checkpoint : Record → ℕ → Option AuditCheckpoint → Writer
on_checkpoint e k none = listing e k
on_checkpoint e k (some p) = at_checkpoint e k p.spec.length

unfoldable pub on_next :
    Record → (attempts from rounds : ℕ) → Option Record → Option Record → Writer
on_next e k from rounds prev none = creating e k prev
on_next e k from rounds prev (some r) = catching_up e k from (suc rounds) (some r)

-- Another writer has taken the position.
unfoldable pub retry : Record → ℕ → Writer
retry e k = if k == max_append_attempts then failed else seeking e k

unfoldable pub on_create : Record → ℕ → Record → Store → Option Record → Store × Writer
unfolding retry
on_create e k sealed s (some taken) = (s, retry e (suc k))
on_create e k sealed s none = (record s { records = s.records ++ sealed ∷ [] }, recorded sealed)

-- The checkpoint that `writeCheckpoint` publishes.
unfoldable pub spec_of_record : Record → AuditCheckpointSpec
spec_of_record r =
    spec_from_checkpoint (record { length = r.seq; head = r.hash; time = r.time; archived = none })

unfoldable pub on_merge : Record → ℕ → Option AuditCheckpointSpec → Writer
on_merge r version none = appended r
on_merge r version (some spec) = publishing r version spec

unfoldable pub on_existing : Record → Option AuditCheckpoint → Writer
unfolding on_merge spec_of_record
on_existing r none = publishing_first r
on_existing r (some p) = on_merge r p.version (merge_spec p.spec (spec_of_record r))

unfoldable pub first_checkpoint :
    AuditCheckpointSpec → Option AuditCheckpoint → Option AuditCheckpoint
first_checkpoint spec none = some (record { version = 0; spec = spec })
first_checkpoint spec (some p) = some p

unfoldable pub create_checkpoint : AuditCheckpointSpec → Store → Store
unfolding first_checkpoint
create_checkpoint spec s = record s { published = first_checkpoint spec s.published }

-- An update names the version that it was read at.
unfoldable pub update_checkpoint :
    ℕ → AuditCheckpointSpec → Option AuditCheckpoint → Option AuditCheckpoint
update_checkpoint version spec none = none
update_checkpoint version spec (some p) =
    if p.version == version then some (record { version = suc p.version; spec = spec }) else some p

-- One request.
unfoldable pub writer_step : Encoding → Answer → Store → Writer → Store × Writer
unfolding on_checkpoint on_next on_create on_existing create_checkpoint update_checkpoint
    spec_of_record
writer_step enc ok s (seeking e k) = (s, on_checkpoint e k s.published)
writer_step enc ok s (listing e k) = (s, creating e k (last? (load s.records)))
writer_step enc ok s (at_checkpoint e k from) =
    (s, catching_up e k from 0 (record_at from s.records))
writer_step enc ok s (catching_up e k from rounds prev) = (
  s,
  if ltb rounds max_catch_up
      then on_next e k from rounds prev (record_at (suc (from + rounds)) s.records)
      else creating e k prev,
)
writer_step enc ok s (creating e k prev) =
    let sealed = seal enc e prev in on_create e k sealed s (find_record sealed.seq s.records)
writer_step enc ok s (recorded r) = (s, on_existing r s.published)
writer_step enc ok s (publishing_first r) = (create_checkpoint (spec_of_record r) s, appended r)
writer_step enc ok s (publishing r version spec) =
    (record s { published = update_checkpoint version spec s.published }, appended r)
writer_step enc refused s (seeking e k) = (s, failed)
writer_step enc refused s (listing e k) = (s, failed)
writer_step enc refused s (at_checkpoint e k from) = (s, failed)
writer_step enc refused s (catching_up e k from rounds prev) = (s, failed)
writer_step enc refused s (creating e k prev) = (s, failed)
writer_step enc refused s (recorded r) = (s, appended r)
writer_step enc refused s (publishing_first r) = (s, appended r)
writer_step enc refused s (publishing r version spec) = (s, appended r)
writer_step enc answer s idle = (s, idle)
writer_step enc answer s (appended r) = (s, appended r)
writer_step enc answer s failed = (s, failed)
