-- ===== src/Audit/System/Invariant/Stable.antt =====
-- What holds of a writer keeps holding when the log grows, when a newer checkpoint is published, when a
-- record is deleted that is older than the head it holds, and when its request is refused.
use cupel.Base.{ℕ, suc, ◌+◌, ◌<◌, ◌≡◌, refl, ◌++◌, Option, none, some, List, length-append, arith}
use cupel.Audit.Record.{Record, Encoding}
use cupel.Audit.Store.{AuditCheckpoint, AuditCheckpointSpec, Store}
use cupel.Audit.Recorder.{
  refused, Writer, idle, seeking, listing, at_checkpoint, catching_up, creating, recorded,
  publishing_first, publishing, appended, failed, writer_step,
}
use cupel.Audit.System.{HoldsFrom}
use cupel.Audit.System.Positions.{At-append}
use cupel.Audit.System.Invariant.{IsCurrent, HeldOk, WriterOk}

HeldOk-append :
    (gone : ℕ) (log more : List Record) (place rounds : ℕ) (prev : Option Record)
    → HeldOk gone log place rounds prev
    → HeldOk gone (log ++ more) place rounds prev
HeldOk-append gone log more place rounds none h = h
HeldOk-append gone log more place rounds (some r) h = At-append more h

pub WriterOk-append :
    (gone : ℕ) (log more : List Record) (published : Option AuditCheckpoint) (w : Writer)
    → WriterOk gone log published w
    → WriterOk gone (log ++ more) published w
WriterOk-append gone log more published (at_checkpoint e k from) h =
    (h.0, omega (arith, h.1, length-append log more))
WriterOk-append gone log more published (catching_up e k from rounds prev) h = (
  h.0,
  omega (arith, h.1, length-append log more),
  HeldOk-append gone log more (from + rounds) rounds prev h.2,
)
WriterOk-append gone log more published (creating e k none) h = h
WriterOk-append gone log more published (creating e k (some r)) h = (h.0, At-append more h.1)
WriterOk-append gone log more published (recorded r) h = At-append more h
WriterOk-append gone log more published (publishing_first r) h = At-append more h
WriterOk-append gone log more published (publishing r version spec) h = (At-append more h.0, h.1)
WriterOk-append gone log more published (appended r) h = At-append more h
WriterOk-append gone log more published idle h = tt
WriterOk-append gone log more published (seeking e k) h = tt
WriterOk-append gone log more published (listing e k) h = tt
WriterOk-append gone log more published failed h = tt

IsCurrent-newer :
    (published : Option AuditCheckpoint) (p : AuditCheckpoint) (version : ℕ)
    (spec : AuditCheckpointSpec) (r : Record)
    → ((old : AuditCheckpoint) → published ≡ some old → old.version < p.version)
    → IsCurrent published version spec r
    → IsCurrent (some p) version spec r
IsCurrent-newer none p version spec r newer c = absurd c
IsCurrent-newer (some old) p version spec r newer c =
    let later = newer old refl in (omega (arith, c.0), λ same. absurd (omega (arith, c.0)))

pub WriterOk-newer :
    (gone : ℕ) (log : List Record) (published : Option AuditCheckpoint) (p : AuditCheckpoint)
    (w : Writer)
    → ((old : AuditCheckpoint) → published ≡ some old → old.version < p.version)
    → WriterOk gone log published w
    → WriterOk gone log (some p) w
WriterOk-newer gone log published p (at_checkpoint e k from) newer h = h
WriterOk-newer gone log published p (catching_up e k from rounds prev) newer h = h
WriterOk-newer gone log published p (creating e k none) newer h = h
WriterOk-newer gone log published p (creating e k (some r)) newer h = h
WriterOk-newer gone log published p (recorded r) newer h = h
WriterOk-newer gone log published p (publishing_first r) newer h = h
WriterOk-newer gone log published p (publishing r version spec) newer h =
    (h.0, IsCurrent-newer published p version spec r newer h.1)
WriterOk-newer gone log published p (appended r) newer h = h
WriterOk-newer gone log published p idle newer h = tt
WriterOk-newer gone log published p (seeking e k) newer h = tt
WriterOk-newer gone log published p (listing e k) newer h = tt
WriterOk-newer gone log published p failed newer h = tt

HeldOk-deleted :
    (gone : ℕ) (log : List Record) (place rounds : ℕ) (prev : Option Record)
    → HeldOk gone log place rounds prev
    → HeldOk (suc gone) log place rounds prev
HeldOk-deleted gone log place rounds none h = (omega (arith, h.0), h.1)
HeldOk-deleted gone log place rounds (some r) h = h

pub WriterOk-deleted :
    (gone : ℕ) (log : List Record) (published : Option AuditCheckpoint) (w : Writer)
    → HoldsFrom (suc gone) w
    → WriterOk gone log published w
    → WriterOk (suc gone) log published w
WriterOk-deleted gone log published (at_checkpoint e k from) holds h = (holds, h.1)
WriterOk-deleted gone log published (catching_up e k from rounds prev) holds h =
    (holds, h.1, HeldOk-deleted gone log (from + rounds) rounds prev h.2)
WriterOk-deleted gone log published (creating e k none) holds h = absurd (omega arith)
WriterOk-deleted gone log published (creating e k (some r)) holds h = (holds, h.1)
WriterOk-deleted gone log published (recorded r) holds h = h
WriterOk-deleted gone log published (publishing_first r) holds h = h
WriterOk-deleted gone log published (publishing r version spec) holds h = h
WriterOk-deleted gone log published (appended r) holds h = h
WriterOk-deleted gone log published idle holds h = tt
WriterOk-deleted gone log published (seeking e k) holds h = tt
WriterOk-deleted gone log published (listing e k) holds h = tt
WriterOk-deleted gone log published failed holds h = tt

pub WriterOk-refused :
    (enc : Encoding) (gone : ℕ) (log : List Record) (s : Store)
    (published later : Option AuditCheckpoint) (w : Writer)
    → WriterOk gone log published w
    → WriterOk gone log later (writer_step enc refused s w).1
unfolding writer_step
WriterOk-refused enc gone log s published later (at_checkpoint e k from) h = tt
WriterOk-refused enc gone log s published later (catching_up e k from rounds prev) h = tt
WriterOk-refused enc gone log s published later (creating e k prev) h = tt
WriterOk-refused enc gone log s published later (recorded r) h = h
WriterOk-refused enc gone log s published later (publishing_first r) h = h
WriterOk-refused enc gone log s published later (publishing r version spec) h = h.0
WriterOk-refused enc gone log s published later (appended r) h = h
WriterOk-refused enc gone log s published later idle h = tt
WriterOk-refused enc gone log s published later (seeking e k) h = tt
WriterOk-refused enc gone log s published later (listing e k) h = tt
WriterOk-refused enc gone log s published later failed h = tt
