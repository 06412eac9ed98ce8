-- ===== src/Audit/System/Moved.antt =====
-- Requests of the archiver keep the invariant, and the log as it is.
use cupel.Base.{
  ℕ, suc, ◌≡◌, refl, sym, ap, subst, ◌∙◌, some, List, [], ◌∷◌, ◌++◌, append_assoc, append-nil,
  length, length-append, arith,
}
use cupel.Audit.Record.{Record, Encoding}
use cupel.Audit.Store.{Store}
use cupel.Audit.Recorder.{Answer}
use cupel.Audit.Archive.{Codec, Sink, Archiver, Task, starting, dropping, numbers, archiver_step}
use cupel.Audit.System.{System, HoldsFrom, deletes, published_by}
use cupel.Audit.System.Invariant.{Forward-refl, IsCheckpoint, TaskOk, Inv}
use cupel.Audit.System.Invariant.Stable.{WriterOk-newer, WriterOk-deleted}
use cupel.Audit.System.Invariant.Segments.{RoundTrips}
use cupel.Audit.System.Invariant.Moving.{Ran, stayed, deleted, advanced}
use cupel.Audit.System.Invariant.Archiving.{archiver_step-Ran}
use cupel.Audit.System.Written.{Goes, stutters}

-- No writer holds a head that is older than the record that is about to be deleted.
abbrev pub IsTimely : System → Type 0
IsTimely s = (i n : ℕ) → deletes s.task ≡ some n → HoldsFrom n (s.writers i)

length-snoc : (xs : List Record) (r : Record) → length (xs ++ r ∷ []) ≡ suc (length xs)
length-snoc xs r = omega (arith, length-append xs (r ∷ []))

Goes-Ran :
    (enc : Encoding) (s : System) (inv : Inv enc s) (t : Store) (next : Task)
    → IsTimely s
    → Ran inv.gone s.archived inv.pending inv.live s.store s.task t next
    → Goes enc s inv
        (record s { store = t; task = next; archived = s.archived ++ published_by s.task next })
Goes-Ran enc s inv t next timely (stayed e unpublished h) =
    let same : s.archived ++ published_by s.task next ≡ s.archived =
      rw unpublished (append-nil s.archived) in
    subst (λ (x : List Record). Goes enc s inv (record s { store = t; task = next; archived = x }))
      (sym same)
      (subst (λ (x : Store). Goes enc s inv (record s { store = x; task = next })) (sym e)
        (record {
          after = record {
            gone = inv.gone;
            pending = inv.pending;
            live = inv.live;
            stored = inv.stored;
            archive = inv.archive;
            fits = inv.fits;
            linked = inv.linked;
            room = inv.room;
            checkpoint = inv.checkpoint;
            writer = inv.writer;
            task = h;
          };
          grows = stutters refl;
          forward = Forward-refl s.store.published;
        }))
Goes-Ran enc s inv t next timely (deleted r rest split e asked unpublished h) =
    let same : s.archived ++ published_by s.task next ≡ s.archived =
      rw unpublished (append-nil s.archived) in
    let one_more = length-snoc inv.gone r in
    subst (λ (x : List Record). Goes enc s inv (record s { store = t; task = next; archived = x }))
      (sym same)
      (subst (λ (x : Store). Goes enc s inv (record s { store = x; task = next })) (sym e)
        (record {
          after = record {
            gone = inv.gone ++ r ∷ [];
            pending = rest;
            live = inv.live;
            stored = refl;
            archive =
                inv.archive
                ∙ (ap (λ (xs : List Record). inv.gone ++ xs) split
                    ∙ sym (append_assoc inv.gone (r ∷ []) rest));
            fits = inv.fits;
            linked = inv.linked;
            room = inv.room;
            checkpoint = inv.checkpoint;
            writer = rw one_more (λ i.
                WriterOk-deleted (length inv.gone) (s.archived ++ inv.live) s.store.published
                  (s.writers i) (timely i (suc (length inv.gone)) asked) (inv.writer i));
            task = rw one_more h;
          };
          grows = stutters refl;
          forward = Forward-refl s.store.published;
        }))
Goes-Ran enc s inv t next timely
      (advanced restored more p clear split pos e publishes c newer on dropped) =
    let log : (s.archived ++ restored) ++ more ≡ s.archived ++ inv.live =
      rw split (append_assoc s.archived restored more) in
    let all_gone : s.archived ≡ inv.gone =
      inv.archive ∙ (ap (λ (xs : List Record). inv.gone ++ xs) clear ∙ append-nil inv.gone) in
    let all_live : s.store.records ≡ inv.live =
      inv.stored ∙ ap (λ (xs : List Record). xs ++ inv.live) clear in
    subst
      (λ (x : List Record).
        Goes enc s inv (record s { store = t; task = next; archived = s.archived ++ x }))
      (sym publishes)
      (subst
        (λ (x : Task).
          Goes enc s inv (record s { store = t; task = x; archived = s.archived ++ restored }))
        (sym dropped)
        (subst
          (λ (x : Store). Goes enc s inv (record s {
            store = x;
            task = dropping (numbers (suc (length inv.gone)) (length restored));
            archived = s.archived ++ restored;
          }))
          (sym e)
          (record {
            after = record {
              gone = inv.gone;
              pending = restored;
              live = more;
              stored = all_live ∙ split;
              archive = ap (λ (xs : List Record). xs ++ restored) all_gone;
              fits = rw log inv.fits;
              linked = rw log inv.linked;
              room = λ _. pos;
              checkpoint =
                  subst (λ (xs : List Record). IsCheckpoint (s.archived ++ restored) xs p.spec)
                    (sym log) c;
              writer = rw log (λ i.
                  WriterOk-newer (length inv.gone) (s.archived ++ inv.live) s.store.published p
                    (s.writers i) newer (inv.writer i));
              task = refl;
            };
            grows = stutters log;
            forward = on;
          })))

pub Goes-run :
    (enc : Encoding) (a : Archiver) (codec : Codec) (s : System) (sink : Sink) (answer : Answer)
    → RoundTrips codec
    → IsTimely s
    → (inv : Inv enc s)
    → Goes enc s inv (record s {
      store = (archiver_step a enc codec sink answer s.store s.task).0;
      task = (archiver_step a enc codec sink answer s.store s.task).1;
      archived =
          s.archived
          ++ published_by s.task (archiver_step a enc codec sink answer s.store s.task).1;
    })
Goes-run enc a codec s sink answer trips timely inv = Goes-Ran enc s inv _ _ timely (
    archiver_step-Ran enc inv.gone inv.pending s.archived inv.live s.store inv.stored inv.archive
      inv.linked inv.fits inv.checkpoint a codec sink answer s.task trips inv.task)

-- A run may end at any point, and begin anew.
pub Goes-task :
    (enc : Encoding) (s t : System) (task : Task) (inv : Inv enc s)
    → ((g : ℕ) (archived pending live : List Record) → TaskOk g archived pending live task)
    → Goes enc s inv t
    → Goes enc s inv (record t { task = task })
Goes-task enc s t task inv h goes = record {
  after = record {
    gone = goes.after.gone;
    pending = goes.after.pending;
    live = goes.after.live;
    stored = goes.after.stored;
    archive = goes.after.archive;
    fits = goes.after.fits;
    linked = goes.after.linked;
    room = goes.after.room;
    checkpoint = goes.after.checkpoint;
    writer = goes.after.writer;
    task = h (length goes.after.gone) t.archived goes.after.pending goes.after.live;
  };
  grows = goes.grows;
  forward = goes.forward;
}

pub Goes-begin :
    (enc : Encoding) (s : System) (inv : Inv enc s) → Goes enc s inv (record s { task = starting })
Goes-begin enc s inv = record {
  after = record {
    gone = inv.gone;
    pending = inv.pending;
    live = inv.live;
    stored = inv.stored;
    archive = inv.archive;
    fits = inv.fits;
    linked = inv.linked;
    room = inv.room;
    checkpoint = inv.checkpoint;
    writer = inv.writer;
    task = tt;
  };
  grows = stutters refl;
  forward = Forward-refl s.store.published;
}
