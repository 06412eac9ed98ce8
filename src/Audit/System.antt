-- ===== src/Audit/System.antt =====
-- Any number of writers of internal/audit/recorder.go and one archiver of internal/audit/archive.go over
-- one store, interleaved in any order; a request may fail, or take effect and be reported as failed.
-- One thing is assumed of their timing, and not enforced by the code: a record is deleted only while no
-- writer holds a head that is older. The archiver retains the newest records, and a writer whose
-- deadline passes gives up; Stalled runs a writer for which that was not enough.
pub mod Positions
pub mod Invariant
pub mod Written
pub mod Moved
pub mod Reachable
pub mod Acknowledged
mod Tests
mod Stalled
use cupel.Base.{
  ℕ, suc, ◌+◌, ◌≤◌, ◌<◌, ◌^◌, ◌≡◌, Bool, Option, none, some, List, [], ◌∷◌, ◌++◌, if◌then◌else◌,
  ◌==◌, length,
}
use cupel.Audit.Record.{Record, Encoding}
use cupel.Audit.Store.{Store}
use cupel.Audit.Recorder.{
  Answer, ok, refused, Writer, idle, seeking, listing, at_checkpoint, catching_up, creating,
  recorded, publishing_first, publishing, appended, failed, writer_step,
}
use cupel.Audit.Archive.{
  Codec, Sink, Archiver, Task, resting, starting, probing, listing_covered, sweeping, measuring,
  collecting, selecting, moving, dropping, archiver_step,
}

-- The archive is what the segments decode to whose boundary is published.
pub record System : Type 0 where
  pub store : Store
  pub writers : ℕ → Writer
  pub task : Task
  pub archived : List Record

abbrev pub update : (ℕ → Writer) → ℕ → Writer → ℕ → Writer
update writers i w j = if j == i then w else writers j

-- No call of `Append` is under way.
abbrev pub IsFree : Writer → Type 0
IsFree idle = Unit
IsFree (appended r) = Unit
IsFree failed = Unit
IsFree _ = ⊥

-- A head that the writer holds, or is about to read, has number `n` or a later one.
abbrev pub HoldsFrom : ℕ → Writer → Type 0
HoldsFrom n (at_checkpoint e k from) = n ≤ from
HoldsFrom n (catching_up e k from rounds prev) = n ≤ from + rounds
HoldsFrom n (creating e k none) = n ≤ 0
HoldsFrom n (creating e k (some r)) = n ≤ r.seq
HoldsFrom n _ = Unit

-- The deletion that the archiver is about to ask for.
abbrev pub deletes : Task → Option ℕ
deletes (sweeping (n ∷ todo)) = some n
deletes (dropping (n ∷ todo)) = some n
deletes _ = none

-- The records whose boundary a request has published.
abbrev pub published_by : Task → Task → List Record
published_by (moving anchor first restored) (dropping todo) = restored
published_by _ _ = []

module _ (enc : Encoding) (a : Archiver) (codec : Codec) where
  pub data Step (s : System) (t : System) : Type 0 where
    append :
        (i : ℕ) (e : Record)
        → IsFree (s.writers i)
        → t ≡ record s { writers = update s.writers i (seeking e 0) }
        → Step s t
    write :
        (i : ℕ) (answer : Answer)
        → length s.archived + length s.store.records + 1 < 2 ^ 64
        → t ≡ record s {
          store = (writer_step enc answer s.store (s.writers i)).0;
          writers = update s.writers i (writer_step enc answer s.store (s.writers i)).1;
        }
        → Step s t
    -- the request takes effect, and the reply is lost
    write_unseen :
        (i : ℕ)
        → length s.archived + length s.store.records + 1 < 2 ^ 64
        → t ≡ record s {
          store = (writer_step enc ok s.store (s.writers i)).0;
          writers = update s.writers i (writer_step enc refused s.store (s.writers i)).1;
        }
        → Step s t
    begin : t ≡ record s { task = starting } → s.task ≡ resting → Step s t
    run :
        (sink : Sink) (answer : Answer)
        → ((i n : ℕ) → deletes s.task ≡ some n → HoldsFrom n (s.writers i))
        → t ≡ record s {
          store = (archiver_step a enc codec sink answer s.store s.task).0;
          task = (archiver_step a enc codec sink answer s.store s.task).1;
          archived =
              s.archived
              ++ published_by s.task (archiver_step a enc codec sink answer s.store s.task).1;
        }
        → Step s t
    run_unseen :
        (sink : Sink)
        → ((i n : ℕ) → deletes s.task ≡ some n → HoldsFrom n (s.writers i))
        → t ≡ record s {
          store = (archiver_step a enc codec sink ok s.store s.task).0;
          task = resting;
          archived =
              s.archived
              ++ published_by s.task (archiver_step a enc codec sink ok s.store s.task).1;
        }
        → Step s t

  -- The system starts with nothing stored.
  abbrev pub start : System
  start = record {
    store = record { records = []; published = none };
    writers = λ _. idle;
    task = resting;
    archived = [];
  }

  pub data Reach : System → Type 0 where
    here : Reach start
    next : {s t : System} → Reach s → Step s t → Reach t
