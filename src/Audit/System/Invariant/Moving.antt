-- ===== src/Audit/System/Invariant/Moving.antt =====
-- The archive boundary moves on, and the archive takes the records that it covers.
use cupel.Base.{
  ℕ, suc, ◌+◌, ◌-◌, ◌≤◌, ◌<◌, ◌^◌, ◌≡◌, inl, inr, refl, sym, ap, subst, ◌∙◌, Option, none, some,
  List, [], ◌∷◌, ◌++◌, length, length-append, arith, ltb, Bool-cases,
}
use cupel.Audit.Record.{Record, Encoding, genesis_hash}
use cupel.Audit.Chain.{Anchor, head_hash}
use cupel.Audit.Chain.Links.{Linked}
use cupel.Audit.Store.{AuditCheckpointSpec, AuditCheckpoint, Store, advance_boundary}
use cupel.Audit.Archive.{Task, moving, dropping, numbers, on_advance, advance}
use cupel.Audit.System.{deletes, published_by}
use cupel.Audit.System.Invariant.{IsCheckpoint, Forward, PublishedOk, TaskOk}

-- What one request of the archiver does.
pub data Ran (gone archived pending live : List Record) (s : Store) (task : Task) (t : Store)
    (next : Task) : Type 0 where
  stayed :
      t ≡ s
      → published_by task next ≡ []
      → TaskOk (length gone) archived pending live next
      → Ran gone archived pending live s task t next
  deleted :
      (r : Record) (rest : List Record)
      → pending ≡ r ∷ rest
      → t ≡ record s { records = rest ++ live }
      → deletes task ≡ some (suc (length gone))
      → published_by task next ≡ []
      → TaskOk (suc (length gone)) archived rest live next
      → Ran gone archived pending live s task t next
  advanced :
      (restored more : List Record) (p : AuditCheckpoint)
      → pending ≡ []
      → live ≡ restored ++ more
      → 0 < length more
      → t ≡ record s { published = some p }
      → published_by task next ≡ restored
      → IsCheckpoint (archived ++ restored) (archived ++ live) p.spec
      → ((old : AuditCheckpoint) → s.published ≡ some old → old.version < p.version)
      → Forward s.published (some p)
      → next ≡ dropping (numbers (suc (length gone)) (length restored))
      → Ran gone archived pending live s task t next

module _ (enc : Encoding) (gone pending archived live : List Record) (s : Store)
    (stored : s.records ≡ pending ++ live) (archive : archived ≡ gone ++ pending)
    (linked : Linked enc 0 genesis_hash (archived ++ live))
    (fits : length (archived ++ live) < 2 ^ 64)
    (checkpoint : PublishedOk archived (archived ++ live) s.published) where
  archived-length : length archived ≡ length gone + length pending
  archived-length = ap length archive ∙ length-append gone pending

  advanced-IsCheckpoint :
      (anchor : Anchor) (restored : List Record) (spec next : AuditCheckpointSpec)
      → IsCheckpoint archived (archived ++ live) spec
      → anchor.length ≡ length archived + length restored
      → anchor.head ≡ head_hash genesis_hash (archived ++ restored)
      → advance_boundary anchor spec ≡ some next
      → IsCheckpoint (archived ++ restored) (archived ++ live) next
  unfolding advance_boundary
  advanced-IsCheckpoint anchor restored spec next c size_is head_is g =
      elim (Bool-cases (ltb anchor.length spec.archived_length)) [
        | inl back ↦ cc (rw back at g)
        | inr on ↦ elim (Bool-cases (ltb spec.length anchor.length)) [
          | inl past ↦ cc (rw (on, past) at g)
          | inr within ↦
              let moved_to : record spec {
                archived_length = anchor.length;
                archived_head = anchor.head;
                archive_location = anchor.location;
              }
                  ≡ next =
                cc (rw (on, within) at g) in
              subst (IsCheckpoint (archived ++ restored) (archived ++ live)) moved_to (record {
                boundary = omega (arith, size_is, length-append archived restored);
                anchored = λ _. head_is;
                within = ground arith;
                last = c.last;
                named = c.named;
                hashed = c.hashed;
              })
        ]
      ]

  advanced-Forward :
      (anchor : Anchor) (p q : AuditCheckpoint)
      → advance_boundary anchor p.spec ≡ some q.spec
      → Forward (some p) (some q)
  unfolding advance_boundary
  advanced-Forward anchor p q g = elim (Bool-cases (ltb anchor.length p.spec.archived_length)) [
    | inl back ↦ cc (rw back at g)
    | inr on ↦ elim (Bool-cases (ltb p.spec.length anchor.length)) [
      | inl past ↦ cc (rw (on, past) at g)
      | inr within ↦
          let moved_to : record p.spec {
            archived_length = anchor.length;
            archived_head = anchor.head;
            archive_location = anchor.location;
          }
              ≡ q.spec =
            cc (rw (on, within) at g) in
          subst
            (λ (spec : AuditCheckpointSpec).
              (p.spec.length ≤ spec.length) × (p.spec.archived_length ≤ spec.archived_length))
            moved_to (omega arith, ground arith)
    ]
  ]

  advanced-Ran :
      (anchor : Anchor) (first : ℕ) (restored : List Record) (p : AuditCheckpoint)
      (spec : Option AuditCheckpointSpec)
      → s.published ≡ some p
      → advance_boundary anchor p.spec ≡ spec
      → TaskOk (length gone) archived pending live (moving anchor first restored)
      → Ran gone archived pending live s
          (moving anchor first restored)
          (record s {
            published = (on_advance p (numbers first (suc anchor.length - first)) spec).0;
          })
          (on_advance p (numbers first (suc anchor.length - first)) spec).1
  unfolding on_advance
  advanced-Ran anchor first restored p none e g h = stayed (rw (← e) refl) refl tt
  advanced-Ran anchor first restored p (some spec) e g h =
      let empty = ap length h.0 in
      let from : first ≡ suc (length gone) = omega (arith, h.4, archived-length) in
      let count : suc anchor.length - first ≡ length restored = omega (arith, h.2, h.4) in
      advanced restored h.1.0 (record { version = suc p.version; spec = spec }) h.0 h.1.1 h.1.2 refl
        refl
        (advanced-IsCheckpoint anchor restored p.spec spec
          (subst (PublishedOk archived (archived ++ live)) e checkpoint) h.2 h.3 g)
        (λ old o.
          let same : old ≡ p = cc in
          subst (λ (q : AuditCheckpoint). q.version < suc p.version) (sym same) (omega arith))
        (rw e (advanced-Forward anchor p (record { version = suc p.version; spec = spec }) g))
        (rw (count, from) refl)

  pub moving-Ran :
      (anchor : Anchor) (first : ℕ) (restored : List Record) (published : Option AuditCheckpoint)
      → s.published ≡ published
      → TaskOk (length gone) archived pending live (moving anchor first restored)
      → Ran gone archived pending live s
          (moving anchor first restored)
          (record s {
            published = (advance anchor (numbers first (suc anchor.length - first)) published).0;
          })
          (advance anchor (numbers first (suc anchor.length - first)) published).1
  unfolding advance
  moving-Ran anchor first restored none e h = stayed (rw (← e) refl) refl tt
  moving-Ran anchor first restored (some p) e h =
      advanced-Ran anchor first restored p (advance_boundary anchor p.spec) e refl h
