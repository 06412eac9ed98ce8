-- ===== src/Audit/System/Written.antt =====
-- Requests of the writers keep the invariant.
use cupel.Base.{
  ℕ, ◌+◌, ◌<◌, ◌^◌, ◌≡◌, inl, inr, refl, sym, ap, subst, Option, none, some, List, [], ◌∷◌, ◌++◌,
  append_assoc, length, length-append, arith, ◌==◌, Bool-cases,
}
use cupel.Audit.Record.{Record, Encoding, seal}
use cupel.Audit.Chain.Growth.{last?}
use cupel.Audit.Store.{AuditCheckpoint, Store}
use cupel.Audit.Recorder.{Answer, ok, refused, Writer, seeking, creating, writer_step}
use cupel.Audit.Archive.{
  Task, resting, starting, probing, listing_covered, sweeping, measuring, collecting, selecting,
  moving, dropping,
}
use cupel.Audit.System.{System, update}
use cupel.Audit.System.Positions.{At-append}
use cupel.Audit.System.Invariant.{Forward, Forward-refl, PublishedOk, WriterOk, TaskOk, Inv}
use cupel.Audit.System.Invariant.Stable.{WriterOk-append, WriterOk-newer, WriterOk-refused}
use cupel.Audit.System.Invariant.Publishing.{Wrote, kept, grown, republished}
use cupel.Audit.System.Invariant.Writing.{writer_step-Wrote}

TaskOk-append :
    (gone : ℕ) (archived pending live more : List Record) (t : Task)
    → TaskOk gone archived pending live t
    → TaskOk gone archived pending (live ++ more) t
TaskOk-append gone archived pending live more (selecting listed) h = (
  h.0,
  record { more = h.1.more ++ more; split = rw h.1.split (append_assoc listed h.1.more more) },
)
TaskOk-append gone archived pending live more (moving anchor first restored) h = (
  h.0,
  (
    h.1.0 ++ more,
    rw h.1.1 (append_assoc restored h.1.0 more),
    omega (arith, h.1.2, length-append h.1.0 more),
  ),
  h.2,
  h.3,
  h.4,
)
TaskOk-append gone archived pending live more (probing b) h = h
TaskOk-append gone archived pending live more (listing_covered b) h = h
TaskOk-append gone archived pending live more (sweeping todo) h = h
TaskOk-append gone archived pending live more measuring h = h
TaskOk-append gone archived pending live more collecting h = h
TaskOk-append gone archived pending live more (dropping todo) h = h
TaskOk-append gone archived pending live more resting h = tt
TaskOk-append gone archived pending live more starting h = tt

IsCheckpoint-append :
    (archived log more : List Record) (published : Option AuditCheckpoint)
    → PublishedOk archived log published
    → PublishedOk archived (log ++ more) published
IsCheckpoint-append archived log more none h = h
IsCheckpoint-append archived log more (some p) h = record {
  boundary = h.boundary;
  anchored = h.anchored;
  within = h.within;
  last = h.last;
  named = At-append more h.named;
  hashed = h.hashed;
}

updated-Ok :
    (gone : ℕ) (log : List Record) (published : Option AuditCheckpoint) (writers : ℕ → Writer)
    (i : ℕ) (w : Writer)
    → ((j : ℕ) → WriterOk gone log published (writers j))
    → WriterOk gone log published w
    → (j : ℕ) → WriterOk gone log published (update writers i w j)
updated-Ok gone log published writers i w others this j = elim (Bool-cases (j == i)) [
  | inl same ↦ rw same this
  | inr other ↦ rw other (others j)
]

-- What one step does to the log: nothing, or the event of a writer that is about to create a record
-- is appended, sealed behind the last record.
pub data Grows (enc : Encoding) (s : System) (log next : List Record) : Type 0 where
  stutters : next ≡ log → Grows enc s log next
  appends :
      (i k : ℕ) (e : Record) (prev : Option Record)
      → s.writers i ≡ creating e k prev
      → next ≡ log ++ seal enc e (last? log) ∷ []
      → Grows enc s log next

-- The invariant holds after a step, with the log that the step leaves.
pub record Goes (enc : Encoding) (s : System) (inv : Inv enc s) (t : System) : Type 0 where
  pub after : Inv enc t
  pub grows : Grows enc s (s.archived ++ inv.live) (t.archived ++ after.live)
  pub forward : Forward s.store.published t.store.published

pub Goes-Wrote :
    (enc : Encoding) (s : System) (inv : Inv enc s) (i : ℕ) (t : Store) (w : Writer)
    → length (s.archived ++ inv.live) + 1 < 2 ^ 64
    → Wrote enc inv.gone s.archived inv.live s.store (s.writers i) t w
    → Goes enc s inv (record s { store = t; writers = update s.writers i w })
Goes-Wrote enc s inv i t w fits (kept e h) = record {
  after = record {
    gone = inv.gone;
    pending = inv.pending;
    live = inv.live;
    stored = rw e inv.stored;
    archive = inv.archive;
    fits = inv.fits;
    linked = inv.linked;
    room = inv.room;
    checkpoint = rw e inv.checkpoint;
    writer = rw e (
        updated-Ok (length inv.gone) (s.archived ++ inv.live) s.store.published s.writers i w
          inv.writer h);
    task = inv.task;
  };
  grows = stutters refl;
  forward = rw e (Forward-refl s.store.published);
}
Goes-Wrote enc s inv i t w fits (grown r event k prev v sealed e linked h) =
    let step = append_assoc s.archived inv.live (r ∷ []) in
    subst (λ (x : Store). Goes enc s inv (record s { store = x; writers = update s.writers i w }))
      (sym e)
      (record {
        after = record {
          gone = inv.gone;
          pending = inv.pending;
          live = inv.live ++ r ∷ [];
          stored = rw inv.stored (append_assoc inv.pending inv.live (r ∷ []));
          archive = inv.archive;
          fits = omega (
            arith,
            fits,
            length-append s.archived inv.live,
            length-append s.archived (inv.live ++ r ∷ []),
            length-append inv.live (r ∷ []),
          );
          linked = rw (← step) linked;
          room = λ h. omega (arith, length-append inv.live (r ∷ []));
          checkpoint = rw (← step) (
              IsCheckpoint-append s.archived (s.archived ++ inv.live) (r ∷ []) s.store.published
                inv.checkpoint);
          writer = rw (← step) (
              updated-Ok (length inv.gone) ((s.archived ++ inv.live) ++ r ∷ []) s.store.published
                s.writers i w
                (λ j.
                  WriterOk-append (length inv.gone) (s.archived ++ inv.live) (r ∷ [])
                    s.store.published (s.writers j) (inv.writer j))
                h);
          task =
              TaskOk-append (length inv.gone) s.archived inv.pending inv.live (r ∷ []) s.task
                inv.task;
        };
        grows = appends i k event prev v (rw (← sealed) (sym step));
        forward = Forward-refl s.store.published;
      })
Goes-Wrote enc s inv i t w fits (republished p e c newer on h) =
    subst (λ (x : Store). Goes enc s inv (record s { store = x; writers = update s.writers i w }))
      (sym e)
      (record {
        after = record {
          gone = inv.gone;
          pending = inv.pending;
          live = inv.live;
          stored = inv.stored;
          archive = inv.archive;
          fits = inv.fits;
          linked = inv.linked;
          room = inv.room;
          checkpoint = c;
          writer =
              updated-Ok (length inv.gone) (s.archived ++ inv.live) (some p) s.writers i w
                (λ j.
                  WriterOk-newer (length inv.gone) (s.archived ++ inv.live) s.store.published p
                    (s.writers j) newer (inv.writer j))
                h;
          task = inv.task;
        };
        grows = stutters refl;
        forward = on;
      })

log_fits :
    (enc : Encoding) (s : System) (inv : Inv enc s)
    → length s.archived + length s.store.records + 1 < 2 ^ 64
    → length (s.archived ++ inv.live) + 1 < 2 ^ 64
log_fits enc s inv h = omega (
  arith,
  h,
  ap length inv.stored,
  length-append inv.pending inv.live,
  length-append s.archived inv.live,
)

system-Wrote :
    (enc : Encoding) (s : System) (inv : Inv enc s) (i : ℕ) (answer : Answer)
    → length (s.archived ++ inv.live) + 1 < 2 ^ 64
    → Wrote enc inv.gone s.archived inv.live s.store
        (s.writers i)
        (writer_step enc answer s.store (s.writers i)).0
        (writer_step enc answer s.store (s.writers i)).1
system-Wrote enc s inv i answer fits =
    writer_step-Wrote enc inv.gone inv.pending s.archived inv.live s.store inv.stored inv.archive
      inv.linked fits inv.room inv.checkpoint answer (s.writers i) (inv.writer i)

pub Goes-write :
    (enc : Encoding) (s : System) (i : ℕ) (answer : Answer)
    → length s.archived + length s.store.records + 1 < 2 ^ 64
    → (inv : Inv enc s)
    → Goes enc s inv (record s {
      store = (writer_step enc answer s.store (s.writers i)).0;
      writers = update s.writers i (writer_step enc answer s.store (s.writers i)).1;
    })
Goes-write enc s i answer fits inv =
    Goes-Wrote enc s inv i _ _ (log_fits enc s inv fits)
      (system-Wrote enc s inv i answer (log_fits enc s inv fits))

-- The effect of one request, with a writer that does not learn of it.
unseen-Wrote :
    (enc : Encoding) (gone archived live : List Record) (s t : Store) (v w next : Writer)
    → WriterOk (length gone) (archived ++ live) s.published next
    → ((later : Option AuditCheckpoint) → WriterOk (length gone) (archived ++ live) later next)
    → Wrote enc gone archived live s v t w
    → Wrote enc gone archived live s v t next
unseen-Wrote enc gone archived live s v t w next now always (kept e h) = kept e now
unseen-Wrote enc gone archived live s v t w next now always (grown r event k prev b q e l h) =
    grown r event k prev b q e l
      (WriterOk-append (length gone) (archived ++ live) (r ∷ []) s.published next now)
unseen-Wrote enc gone archived live s v t w next now always (republished p e c newer on h) =
    republished p e c newer on (always (some p))

pub Goes-write_unseen :
    (enc : Encoding) (s : System) (i : ℕ)
    → length s.archived + length s.store.records + 1 < 2 ^ 64
    → (inv : Inv enc s)
    → Goes enc s inv (record s {
      store = (writer_step enc ok s.store (s.writers i)).0;
      writers = update s.writers i (writer_step enc refused s.store (s.writers i)).1;
    })
Goes-write_unseen enc s i fits inv =
    let calm : (later : Option AuditCheckpoint)
        → WriterOk (length inv.gone) (s.archived ++ inv.live) later
            (writer_step enc refused s.store (s.writers i)).1 =
      λ later.
        WriterOk-refused enc (length inv.gone) (s.archived ++ inv.live) s.store s.store.published
          later (s.writers i) (inv.writer i) in
    let log_fits_in = log_fits enc s inv fits in
    Goes-Wrote enc s inv i _ _ log_fits_in (
      unseen-Wrote enc inv.gone s.archived inv.live s.store _ _ _ _ (calm s.store.published) calm
        (system-Wrote enc s inv i ok log_fits_in))

pub Goes-append :
    (enc : Encoding) (s : System) (i : ℕ) (e : Record)
    → (inv : Inv enc s) → Goes enc s inv (record s { writers = update s.writers i (seeking e 0) })
Goes-append enc s i e inv = record {
  after = record {
    gone = inv.gone;
    pending = inv.pending;
    live = inv.live;
    stored = inv.stored;
    archive = inv.archive;
    fits = inv.fits;
    linked = inv.linked;
    room = inv.room;
    checkpoint = inv.checkpoint;
    writer =
        updated-Ok (length inv.gone) (s.archived ++ inv.live) s.store.published s.writers i _
          inv.writer tt;
    task = inv.task;
  };
  grows = stutters refl;
  forward = Forward-refl s.store.published;
}
