-- ===== src/Audit/System/Invariant/Writing.antt =====
-- A request of a writer keeps what holds of the log, the checkpoint and the writer.
use cupel.Base.{
  ℕ, zero, suc, ◌+◌, ◌≤◌, ◌<◌, ◌^◌, ◌≡◌, ◌⊎◌, inl, inr, refl, sym, ap, subst, ◌∙◌, Option, none,
  some, List, [], ◌∷◌, ◌++◌, append_assoc, length, length-append, arith, ltb, ◌==◌, if◌then◌else◌,
  Bool-cases,
}
use cupel.Audit.Record.{Record, Encoding, u64, genesis_hash, seal}
use cupel.Audit.Chain.Links.{Linked}
use cupel.Audit.Chain.Growth.{last?, Linked-seal}
use cupel.Audit.Chain.Segments.{Linked-append}
use cupel.Audit.Store.{AuditCheckpoint, Store, find_record, record_at, load}
use cupel.Audit.Recorder.{
  Answer, ok, refused, Writer, idle, seeking, listing, at_checkpoint, catching_up, creating,
  recorded, publishing_first, publishing, appended, failed, on_checkpoint, on_next, retry,
  on_create, create_checkpoint, writer_step,
}
use cupel.Audit.System.Positions.{
  length-nil, Ascends, Linked-Ascends, At, At-front, At-le, At-last?, find_record-none,
  find_record-At, last?-At, last?-none, last?-snoc, load-Ascends,
}
use cupel.Audit.System.Invariant.Publishing.{
  Wrote, kept, grown, first-Wrote, existing-Ok, update-Wrote,
}
use cupel.Audit.System.Invariant.Stable.{WriterOk-refused}
use cupel.Audit.System.Invariant.{PublishedOk, HeldOk, WriterOk}

record_at-suc : (n : ℕ) (rs : List Record) → record_at (suc n) rs ≡ find_record (suc n) rs
unfolding record_at
record_at-suc n rs = ground arith

module _ (enc : Encoding) (gone pending archived live : List Record) (s : Store)
    (stored : s.records ≡ pending ++ live) (archive : archived ≡ gone ++ pending)
    (linked : Linked enc 0 genesis_hash (archived ++ live))
    (fits : length (archived ++ live) + 1 < 2 ^ 64) (room : 0 < length archived → 0 < length live)
    (checkpoint : PublishedOk archived (archived ++ live) s.published) where
  abbrev log : List Record
  log = archived ++ live

  whole : archived ++ live ≡ gone ++ s.records
  whole = rw (archive, stored) (append_assoc gone pending live)

  log-length : length log ≡ length gone + length s.records
  log-length = ap length whole ∙ length-append gone s.records

  log-Ascends : Ascends 0 log
  log-Ascends = Linked-Ascends enc 0 genesis_hash log (omega arith) linked

  stored-Ascends : Ascends (length gone) s.records
  stored-Ascends =
      let l = subst (λ (xs : List Record). Linked enc 0 genesis_hash xs) whole linked in
      Linked-Ascends enc (length gone) _ s.records (omega (arith, log-length))
        ((Linked-append enc 0 (length gone) genesis_hash gone s.records (omega arith)).0 l).1

  -- A stored record has its place in the log.
  in_log : {m : ℕ} {r : Record} → At (length gone) s.records m r → At 0 log m r
  in_log {m} {r} a = subst (λ (xs : List Record). At 0 xs m r) (sym whole) (At-front gone a)

  -- Records are stored unless the log is empty.
  nonempty : (0 < length gone) → length gone < length log
  nonempty h = omega (
    arith,
    log-length,
    ap length archive,
    length-append gone pending,
    ap length stored,
    length-append pending live,
    room (omega (arith, ap length archive, length-append gone pending)),
  )

  -- No record is stored under a number only if it is deleted or past the end.
  not_stored : (n : ℕ) → find_record n s.records ≡ none → (n ≤ length gone) ⊎ (length log < n)
  not_stored n h = elim (find_record-none n (length gone) s.records stored-Ascends h) [
    | inl old ↦ inl old
    | inr new ↦ inr (omega (arith, log-length))
  ]

  next-Wrote :
      (e : Record) (k from rounds : ℕ) (prev : Option Record)
      → length gone ≤ from + rounds
      → from + rounds ≤ length log
      → HeldOk (length gone) log (from + rounds) rounds prev
      → (next : Option Record) → find_record (suc (from + rounds)) s.records ≡ next
      → WriterOk (length gone) log s.published (on_next e k from rounds prev next)
  unfolding on_next
  next-Wrote e k from rounds prev g w held (some r) h =
      let a =
        in_log (find_record-At (suc (from + rounds)) (length gone) s.records r stored-Ascends h) in
      let place : suc (from + rounds) ≡ from + suc rounds = omega arith in
      (omega arith, omega (arith, At-le a), subst (λ (m : ℕ). At 0 log m r) place a)
  next-Wrote e k from rounds none g w held none h = elim (not_stored (suc (from + rounds)) h) [
    | inl old ↦ absurd (omega (arith, held.0))
    | inr new ↦ ground (arith, nonempty)
  ]
  next-Wrote e k from rounds (some r) g w held none h =
      (omega (arith, held.number), subst (λ (m : ℕ). At 0 log m r) (sym held.number) held)

  -- The head that a list of all records shows.
  listed-Wrote :
      (e : Record) (k : ℕ) (prev : Option Record)
      → last? (load s.records) ≡ prev
      → WriterOk (length gone) log s.published (creating e k prev)
  listed-Wrote e k none h =
      let empty : s.records ≡ [] =
        last?-none s.records (rw (← load-Ascends (length gone) s.records stored-Ascends) h) in
      ground (arith, nonempty, log-length, ap length empty)
  listed-Wrote e k (some r) h =
      let a =
        last?-At (length gone) s.records r stored-Ascends
          (rw (← load-Ascends (length gone) s.records stored-Ascends) h) in
      (omega (arith, At-le a), in_log a)

  found-Wrote :
      (from : ℕ) (prev : Option Record)
      → length gone ≤ from
      → from ≤ length log
      → record_at from s.records ≡ prev
      → HeldOk (length gone) log (from + 0) 0 prev
  found-Wrote zero none g w h = (omega arith, refl)
  found-Wrote zero (some r) g w h = unfold record_at in cc
  found-Wrote (suc n) none g w h = elim (not_stored (suc n) (sym (record_at-suc n s.records) ∙ h)) [
    | inl old ↦ (omega arith, refl)
    | inr new ↦ absurd (omega arith)
  ]
  found-Wrote (suc n) (some r) g w h =
      let a = in_log (
        find_record-At (suc n) (length gone) s.records r stored-Ascends
          (sym (record_at-suc n s.records) ∙ h)) in
      let place : suc n ≡ suc n + 0 = omega arith in subst (λ (m : ℕ). At 0 log m r) place a

  -- The head that a writer holds is the last record, if the next position is free.
  held_last :
      (e : Record) (k : ℕ) (prev : Option Record)
      → WriterOk (length gone) log s.published (creating e k prev)
      → find_record (seal enc e prev).seq s.records ≡ none
      → last? log ≡ prev
  unfolding seal last?
  held_last e k none w h = elim (not_stored 1 h) [
    | inl old ↦ absurd (omega arith)
    | inr new ↦ ap last? (length-nil log (omega arith))
  ]
  held_last e k (some r) w h =
      let bound = At-le w.1 in
      elim (not_stored (u64 (r.seq + 1)) h) [
        | inl old ↦ absurd (omega arith)
        | inr new ↦ At-last? w.1 (omega arith)
      ]

  sealed-At :
      (e : Record)
      → At 0
          (log ++ seal enc e (last? log) ∷ [])
          (seal enc e (last? log)).seq
          (seal enc e (last? log))
  sealed-At e =
      let grown = Linked-seal enc e log linked in
      let numbered =
        Linked-Ascends enc 0 genesis_hash (log ++ seal enc e (last? log) ∷ [])
          (omega (arith, length-append {0} log (seal enc e (last? log) ∷ []))) grown in
      last?-At 0 _ _ numbered (last?-snoc log _)

  create-Wrote :
      (e : Record) (k : ℕ) (prev found : Option Record)
      → WriterOk (length gone) log s.published (creating e k prev)
      → find_record (seal enc e prev).seq s.records ≡ found
      → Wrote enc gone archived live s
          (creating e k prev)
          (on_create e k (seal enc e prev) s found).0
          (on_create e k (seal enc e prev) s found).1
  unfolding on_create retry
  create-Wrote e k prev (some taken) w h =
      kept refl (elim (Bool-cases (suc k == 4096)) [ inl t ↦ rw t tt | inr t ↦ rw t tt ])
  create-Wrote e k prev none w h =
      let last = held_last e k prev w h in
      grown (seal enc e prev) e k prev refl (rw last refl) refl
        (rw (← last) (Linked-seal enc e log linked)) (rw (← last) (sealed-At e))

  checkpoint-Ok :
      (e : Record) (k : ℕ) (published : Option AuditCheckpoint)
      → PublishedOk archived log published
      → WriterOk (length gone) log published (on_checkpoint e k published)
  unfolding on_checkpoint
  checkpoint-Ok e k none c = tt
  checkpoint-Ok e k (some p) c = (
    omega (arith, c.boundary, c.within, ap length archive, length-append gone pending),
    omega (arith, At-le c.named),
  )

  -- After some rounds a head is held.
  caught_up-Ok :
      (e : Record) (k place rounds : ℕ) (prev : Option Record)
      → length gone ≤ place
      → HeldOk (length gone) log place (suc rounds) prev
      → WriterOk (length gone) log s.published (creating e k prev)
  caught_up-Ok e k place rounds none g held = absurd (omega (arith, held.1))
  caught_up-Ok e k place rounds (some r) g held =
      (omega (arith, held.number), subst (λ (m : ℕ). At 0 log m r) (sym held.number) held)

  caught-Wrote :
      (e : Record) (k from rounds : ℕ) (prev : Option Record)
      → WriterOk (length gone) log s.published (catching_up e k from rounds prev)
      → WriterOk (length gone) log s.published (
          if ltb rounds 1000
          then on_next e k from rounds prev (record_at (suc (from + rounds)) s.records)
          else creating e k prev)
  caught-Wrote e k from zero prev h =
      next-Wrote e k from 0 prev h.0 h.1 h.2 (record_at (suc (from + 0)) s.records)
        (sym (record_at-suc (from + 0) s.records))
  caught-Wrote e k from (suc rounds) prev h = elim (Bool-cases (ltb (suc rounds) 1000)) [
    | inl more ↦ rw more (
        next-Wrote e k from (suc rounds) prev h.0 h.1 h.2
          (record_at (suc (from + suc rounds)) s.records)
          (sym (record_at-suc (from + suc rounds) s.records)))
    | inr enough ↦ rw enough (caught_up-Ok e k (from + suc rounds) rounds prev h.0 h.2)
  ]

  refused-store : (w : Writer) → (writer_step enc refused s w).0 ≡ s
  unfolding writer_step
  refused-store (at_checkpoint e k from) = refl
  refused-store (catching_up e k from rounds prev) = refl
  refused-store (creating e k prev) = refl
  refused-store (recorded r) = refl
  refused-store (publishing_first r) = refl
  refused-store (publishing r version spec) = refl
  refused-store (appended r) = refl
  refused-store idle = refl
  refused-store (seeking e k) = refl
  refused-store (listing e k) = refl
  refused-store failed = refl

  pub writer_step-Wrote :
      (answer : Answer) (w : Writer)
      → WriterOk (length gone) log s.published w
      → Wrote enc gone archived live s w
          (writer_step enc answer s w).0
          (writer_step enc answer s w).1
  unfolding writer_step create_checkpoint
  writer_step-Wrote ok (seeking e k) h = kept refl (checkpoint-Ok e k s.published checkpoint)
  writer_step-Wrote ok (listing e k) h = kept refl (listed-Wrote e k (last? (load s.records)) refl)
  writer_step-Wrote ok (at_checkpoint e k from) h = kept refl (
    omega (arith, h.0),
    omega (arith, h.1),
    found-Wrote from (record_at from s.records) h.0 h.1 refl,
  )
  writer_step-Wrote ok (catching_up e k from rounds prev) h =
      kept refl (caught-Wrote e k from rounds prev h)
  writer_step-Wrote ok (creating e k prev) h =
      create-Wrote e k prev (find_record (seal enc e prev).seq s.records) h refl
  writer_step-Wrote ok (recorded r) h = kept refl (
      existing-Ok enc gone pending archived live s stored archive linked fits room checkpoint r
        s.published h)
  writer_step-Wrote ok (publishing_first r) h =
      first-Wrote enc gone pending archived live s stored archive linked fits room checkpoint r
        s.published refl h
  writer_step-Wrote ok (publishing r version spec) h =
      update-Wrote enc gone pending archived live s stored archive linked fits room checkpoint r
        version spec s.published refl h.0 h.1
  writer_step-Wrote ok (appended r) h = kept refl h
  writer_step-Wrote ok idle h = kept refl tt
  writer_step-Wrote ok failed h = kept refl tt
  writer_step-Wrote refused w h =
      kept (refused-store w) (WriterOk-refused enc (length gone) log s s.published s.published w h)
