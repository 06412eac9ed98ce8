-- ===== src/Audit/Archive.antt =====
-- `Archiver.Run` of internal/audit/archive.go as a machine that makes one request to the API server in
-- each step, beside the writers. The JSON encoding of segments is a parameter, and so is the sink: what
-- its `Put` and `Get` answer is an argument. That a rejected segment is removed again is left out.
use cupel.Base.{
  ℕ, zero, suc, ◌-◌, not, ◌||◌, Option, none, some, List, [], ◌∷◌, String, if◌then◌else◌, ltb, leb,
  ◌==◌, length, take, select, codes_eq,
}
use cupel.Audit.Record.{Record, Encoding, genesis_hash}
use cupel.Audit.Chain.{Anchor, Checkpoint, anchor_of, verify_from, head_hash}
use cupel.Audit.Store.{
  AuditCheckpointSpec, AuditCheckpoint, Store, find_record, load, advance_boundary, chain, size,
  published_anchor,
}
use cupel.Audit.Recorder.{Answer, ok, refused}

-- `encodeSegment` and `DecodeSegment`, over bytes.
pub record Codec : Type 0 where
  pub encode : List Record → Option (List ℕ)
  pub decode : List ℕ → Option (List Record)

-- The answers of the sink for one segment: where it was put, and what is read back.
pub record Sink : Type 0 where
  pub put : Option String
  pub get : Option (List ℕ)

-- `Threshold` and `Retain`; 0 and less are left at 0.
pub record Archiver : Type 0 where
  pub threshold : ℕ
  pub retain : ℕ

abbrev pub default_threshold : ℕ
default_threshold = 50_000

abbrev pub default_retain : ℕ
default_retain = 10_000

unfoldable pub threshold_of : Archiver → ℕ
threshold_of a = if ltb 0 a.threshold then a.threshold else default_threshold

unfoldable pub retain_of : Archiver → ℕ
retain_of a = if ltb 0 a.retain then a.retain else default_retain

-- Where a run stands.
pub data Task : Type 0 where
  resting : Task
  -- `sweep` is about to read the checkpoint, to look for the last covered record, to list the
  -- records, or to delete the first of those that are left
  starting : Task
  probing : (boundary : ℕ) → Task
  listing_covered : (boundary : ℕ) → Task
  sweeping : (todo : List ℕ) → Task
  -- about to measure the chain, to list it, or to read the checkpoint
  measuring : Task
  collecting : Task
  selecting : (listed : List Record) → Task
  -- the segment is in the sink; the boundary is about to be published, or records to be deleted
  moving : (anchor : Anchor) (first : ℕ) (restored : List Record) → Task
  dropping : (todo : List ℕ) → Task

unfoldable pub on_boundary : Option Anchor → Task
on_boundary none = measuring
on_boundary (some a) = if a.length == 0 then measuring else probing a.length

unfoldable pub on_last : ℕ → Option Record → Task
on_last boundary none = measuring
on_last boundary (some r) = listing_covered boundary

-- The numbers of the records that the boundary covers.
unfoldable pub covered : ℕ → List Record → List ℕ
covered boundary [] = []
covered boundary (r ∷ rs) =
    let rest = covered boundary rs in if leb r.seq boundary then r.seq ∷ rest else rest

-- The numbers from `first` on, as many as `count`.
unfoldable pub numbers : (first count : ℕ) → List ℕ
numbers first zero = []
numbers first (suc count) = first ∷ numbers (suc first) count

unfoldable pub first_seq : List Record → ℕ
first_seq [] = 0
first_seq (r ∷ rs) = r.seq

unfoldable pub last_seq : ℕ → List Record → ℕ
last_seq n [] = n
last_seq n (r ∷ rs) = last_seq r.seq rs

-- What is read back is compared, decoded and verified again.
unfoldable pub verified : Encoding → Option Anchor → Option (List Record) → Option (List Record)
verified enc anchor none = none
verified enc anchor (some rs) = if (verify_from enc rs anchor none).valid then some rs else none

unfoldable pub restored_of :
    Encoding → Option Anchor → Codec → Option (List ℕ) → List ℕ → Option (List Record)
unfolding verified
restored_of enc anchor codec none written = none
restored_of enc anchor codec (some read) written =
    if codes_eq read written then verified enc anchor (codec.decode read) else none

unfoldable pub moved : (segment : List Record) → String → Option (List Record) → Task
moved segment location none = resting
moved segment location (some restored) =
    moving
      (record {
        length = last_seq 0 segment;
        head = head_hash genesis_hash segment;
        location = location;
      })
      (first_seq segment) restored

unfoldable pub on_put :
    Encoding → Option Anchor → Codec → Sink → List Record → List ℕ → Option String → Task
unfolding moved restored_of first_seq last_seq
on_put enc anchor codec sink segment written none = resting
on_put enc anchor codec sink segment written (some location) =
    moved segment location (restored_of enc anchor codec sink.get written)

unfoldable pub on_encoded :
    Encoding → Option Anchor → Codec → Sink → List Record → Option (List ℕ) → Task
unfolding on_put
on_encoded enc anchor codec sink segment none = resting
on_encoded enc anchor codec sink segment (some written) =
    on_put enc anchor codec sink segment written sink.put

-- The part of `Run` between reading the chain and publishing the boundary.
unfoldable pub select_segment :
    Archiver → Encoding → Codec → Sink → List Record × Option Checkpoint → Task
unfolding on_encoded
select_segment a enc codec sink (records, cp) =
    let segment = take (length records - retain_of a) records in
    if leb (length records) (threshold_of a) || leb (length records) (retain_of a)
    then resting
    else if not (verify_from enc segment (anchor_of cp) none).valid
    then resting
    else on_encoded enc (anchor_of cp) codec sink segment (codec.encode segment)

unfoldable pub delete_record : ℕ → List Record → List Record
delete_record n rs = select (λ r. not (r.seq == n)) rs

unfoldable pub on_advance :
    AuditCheckpoint → List ℕ → Option AuditCheckpointSpec → Option AuditCheckpoint × Task
on_advance p todo none = (some p, resting)
on_advance p todo (some spec) =
    (some (record { version = suc p.version; spec = spec }), dropping todo)

-- `advanceBoundary`: a conflicting update is read again and repeated, so that it takes effect on the
-- object as it then is; without a checkpoint it fails.
unfoldable pub advance : Anchor → List ℕ → Option AuditCheckpoint → Option AuditCheckpoint × Task
unfolding on_advance
advance anchor todo none = (none, resting)
advance anchor todo (some p) = on_advance p todo (advance_boundary anchor p.spec)

-- One request. The answers of the sink are read where the segment is written.
unfoldable pub archiver_step :
    Archiver → Encoding → Codec → Sink → Answer → Store → Task → Store × Task
unfolding on_boundary on_last advance
archiver_step a enc codec sink refused s task = (s, resting)
archiver_step a enc codec sink ok s resting = (s, resting)
archiver_step a enc codec sink ok s starting = (s, on_boundary (published_anchor s.published))
archiver_step a enc codec sink ok s (probing b) = (s, on_last b (find_record b s.records))
archiver_step a enc codec sink ok s (listing_covered b) = (s, sweeping (covered b (load s.records)))
archiver_step a enc codec sink ok s (sweeping []) = (s, measuring)
archiver_step a enc codec sink ok s (sweeping (n ∷ todo)) =
    (record s { records = delete_record n s.records }, sweeping todo)
archiver_step a enc codec sink ok s measuring =
    (s, if leb (size s).1 (threshold_of a) then resting else collecting)
archiver_step a enc codec sink ok s collecting = (s, selecting (load s.records))
archiver_step a enc codec sink ok s (selecting listed) =
    (s, select_segment a enc codec sink (chain listed s.published))
archiver_step a enc codec sink ok s (moving anchor first restored) =
    let (published, task) =
      advance anchor (numbers first (suc anchor.length - first)) s.published in
    (record s { published = published }, task)
archiver_step a enc codec sink ok s (dropping []) = (s, resting)
archiver_step a enc codec sink ok s (dropping (n ∷ todo)) =
    (record s { records = delete_record n s.records }, dropping todo)
