-- ===== src/Audit/System/Invariant/Publishing.antt =====
-- Publishing the checkpoint of a record keeps what holds of the log and the checkpoint.
use cupel.Base.{
  ℕ, suc, ◌+◌, ◌≤◌, ◌<◌, ◌^◌, ◌≡◌, inl, inr, refl, sym, subst, Option, none, some, List, [], ◌∷◌,
  ◌++◌, length, arith, ltb, ◌==◌, if◌then◌else◌, Bool-cases,
}
use cupel.Audit.Record.{Record, Encoding, genesis_hash, seal}
use cupel.Audit.Chain.Links.{Linked}
use cupel.Audit.Chain.Growth.{last?}
use cupel.Audit.Store.{
  AuditCheckpointSpec, AuditCheckpoint, Store, merge_spec, spec_from_checkpoint, spec_of_archived,
}
use cupel.Audit.Recorder.{
  Writer, creating, publishing_first, publishing, appended, spec_of_record, on_merge, on_existing,
  first_checkpoint, update_checkpoint,
}
use cupel.Audit.System.Positions.{At}
use cupel.Audit.System.Invariant.{IsCheckpoint, Forward, PublishedOk, IsCurrent, WriterOk}

-- The update that a record asks for keeps the boundary.
abbrev extended : AuditCheckpointSpec → Record → AuditCheckpointSpec
extended p r = record p { length = r.seq; head = r.hash; time = r.time }

merge_spec-spec_of_record :
    (p : AuditCheckpointSpec) (r : Record)
    → merge_spec p (spec_of_record r) ≡ (if ltb r.seq p.length then none else some (extended p r))
unfolding merge_spec spec_of_record spec_from_checkpoint spec_of_archived
merge_spec-spec_of_record p r = elim (Bool-cases (ltb r.seq p.length)) [
  | inl back ↦ rw back refl
  | inr on ↦ elim (Bool-cases (ltb 0 p.archived_length)) [
    | inl some_archived ↦ rw (on, some_archived) refl
    | inr none_archived ↦ rw (on, none_archived) refl
  ]
]

-- What one request of a writer does.
pub data Wrote (enc : Encoding) (gone archived live : List Record) (s : Store) (v : Writer)
    (t : Store) (w : Writer) : Type 0 where
  kept :
      t ≡ s
      → WriterOk (length gone) (archived ++ live) s.published w
      → Wrote enc gone archived live s v t w
  grown :
      (r e : Record) (k : ℕ) (prev : Option Record)
      → v ≡ creating e k prev
      → r ≡ seal enc e (last? (archived ++ live))
      → t ≡ record s { records = s.records ++ r ∷ [] }
      → Linked enc 0 genesis_hash ((archived ++ live) ++ r ∷ [])
      → WriterOk (length gone) ((archived ++ live) ++ r ∷ []) s.published w
      → Wrote enc gone archived live s v t w
  republished :
      (p : AuditCheckpoint)
      → t ≡ record s { published = some p }
      → IsCheckpoint archived (archived ++ live) p.spec
      → ((old : AuditCheckpoint) → s.published ≡ some old → old.version < p.version)
      → Forward s.published (some p)
      → WriterOk (length gone) (archived ++ live) (some p) w
      → Wrote enc gone archived live s v t w

module _ (enc : Encoding) (gone pending archived live : List Record) (s : Store)
    (stored : s.records ≡ pending ++ live) (archive : archived ≡ gone ++ pending)
    (linked : Linked enc 0 genesis_hash (archived ++ live))
    (fits : length (archived ++ live) + 1 < 2 ^ 64) (room : 0 < length archived → 0 < length live)
    (checkpoint : PublishedOk archived (archived ++ live) s.published) where
  abbrev log : List Record
  log = archived ++ live

  merge-IsCheckpoint :
      (p : AuditCheckpoint) (r : Record) (spec : AuditCheckpointSpec)
      → IsCheckpoint archived log p.spec
      → At 0 log r.seq r
      → merge_spec p.spec (spec_of_record r) ≡ some spec
      → IsCheckpoint archived log spec
  merge-IsCheckpoint p r spec c a h =
      let merged = merge_spec-spec_of_record p.spec r in
      elim (Bool-cases (ltb r.seq p.spec.length)) [
        | inl back ↦ cc (rw back at merged)
        | inr on ↦
            let same : extended p.spec r ≡ spec = cc (rw on at merged) in
            subst (IsCheckpoint archived log) same (record {
              boundary = c.boundary;
              anchored = c.anchored;
              within = ground (arith, c.within);
              last = r;
              named = a;
              hashed = refl;
            })
      ]

  merged-Forward :
      (p q : AuditCheckpoint) (r : Record)
      → merge_spec p.spec (spec_of_record r) ≡ some q.spec
      → Forward (some p) (some q)
  merged-Forward p q r h =
      let merged = merge_spec-spec_of_record p.spec r in
      elim (Bool-cases (ltb r.seq p.spec.length)) [
        | inl back ↦ cc (rw back at merged)
        | inr on ↦
            let same : extended p.spec r ≡ q.spec = cc (rw on at merged) in
            subst
              (λ (spec : AuditCheckpointSpec).
                (p.spec.length ≤ spec.length) × (p.spec.archived_length ≤ spec.archived_length))
              same (ground arith, omega arith)
      ]

  pub update-Wrote :
      (r : Record) (version : ℕ) (spec : AuditCheckpointSpec) (published : Option AuditCheckpoint)
      → s.published ≡ published
      → At 0 log r.seq r
      → IsCurrent published version spec r
      → Wrote enc gone archived live s
          (publishing r version spec)
          (record s { published = update_checkpoint version spec published })
          (appended r)
  unfolding update_checkpoint
  update-Wrote r version spec none e a c = absurd c
  update-Wrote r version spec (some p) e a c = elim (Bool-cases (p.version == version)) [
    | inr stale ↦ rw stale (kept (rw (← e) refl) a)
    | inl current ↦ rw current (
        republished (record { version = suc p.version; spec = spec }) refl
          (merge-IsCheckpoint p r spec (subst (PublishedOk archived log) e checkpoint) a
            (c.1 (ground arith)))
          (λ old h.
            let same : old ≡ p = cc in
            subst (λ (q : AuditCheckpoint). q.version < suc p.version) (sym same) (omega arith))
          (rw e (
            merged-Forward p (record { version = suc p.version; spec = spec }) r
              (c.1 (ground arith))))
          a)
  ]

  merged-Ok :
      (r : Record) (p : AuditCheckpoint) (merged : Option AuditCheckpointSpec)
      → merge_spec p.spec (spec_of_record r) ≡ merged
      → At 0 log r.seq r
      → WriterOk (length gone) log (some p) (on_merge r p.version merged)
  unfolding on_merge
  merged-Ok r p none h a = a
  merged-Ok r p (some spec) h a = (a, (omega arith, λ _. h))

  pub first-Wrote :
      (r : Record) (published : Option AuditCheckpoint)
      → s.published ≡ published
      → At 0 log r.seq r
      → Wrote enc gone archived live s
          (publishing_first r)
          (record s { published = first_checkpoint (spec_of_record r) published })
          (appended r)
  unfolding first_checkpoint spec_of_record spec_from_checkpoint spec_of_archived
  first-Wrote r none e a =
      let unarchived = subst (PublishedOk archived log) e checkpoint in
      republished (record { version = 0; spec = spec_of_record r }) refl
        (record {
          boundary = sym unarchived;
          anchored = λ h. absurd (omega (arith, unarchived));
          within = omega arith;
          last = r;
          named = a;
          hashed = refl;
        })
        (λ old h. cc) (rw e tt) a
  first-Wrote r (some p) e a = kept (rw (← e) refl) a

  pub existing-Ok :
      (r : Record) (published : Option AuditCheckpoint)
      → At 0 log r.seq r
      → WriterOk (length gone) log published (on_existing r published)
  unfolding on_existing on_merge
  existing-Ok r none a = a
  existing-Ok r (some p) a = merged-Ok r p (merge_spec p.spec (spec_of_record r)) refl a
