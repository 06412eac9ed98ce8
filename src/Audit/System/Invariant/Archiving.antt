-- ===== src/Audit/System/Invariant/Archiving.antt =====
-- A request of the archiver keeps what holds of the log, the archive and the checkpoint.
use cupel.Base.{
  ℕ, suc, ◌+◌, ◌<◌, ◌^◌, ◌≡◌, inl, inr, refl, sym, ap, subst, ◌∙◌, true, false, Option, none, some,
  List, [], ◌∷◌, ◌++◌, append_assoc, append-nil, length, length-append, arith, ltb, leb, ◌==◌,
  Bool-cases,
}
use cupel.Audit.Record.{Record, Encoding, genesis_hash}
use cupel.Audit.Chain.Links.{Linked}
use cupel.Audit.Chain.Segments.{Linked-append}
use cupel.Audit.Store.{
  Store, find_record, load, chain, size, published_anchor, published_checkpoint, retained_after,
}
use cupel.Audit.Recorder.{Answer, ok, refused}
use cupel.Audit.Archive.{
  Codec, Sink, Archiver, threshold_of, Task, resting, starting, probing, listing_covered, sweeping,
  measuring, collecting, selecting, moving, dropping, on_boundary, on_last, covered, select_segment,
  delete_record, archiver_step,
}
use cupel.Audit.System.{published_by}
use cupel.Audit.System.Positions.{
  length-nil, Ascends, Linked-Ascends, find_record-none, load-Ascends, delete_record-first,
  covered-append, select-past,
}
use cupel.Audit.System.Invariant.{PublishedOk, IsFront, TaskOk}
use cupel.Audit.System.Invariant.Segments.{
  ReadOk, unarchived, archived_to, published_anchor-ReadOk, RoundTrips, numbers-nil, IsNumbered,
  numbers-IsNumbered,
}
use cupel.Audit.System.Invariant.Moving.{Ran, stayed, deleted, moving-Ran}
use cupel.Audit.System.Invariant.Selecting.{retained_after-listed, selected-Ok}

module _ (enc : Encoding) (gone pending archived live : List Record) (s : Store)
    (stored : s.records ≡ pending ++ live) (archive : archived ≡ gone ++ pending)
    (linked : Linked enc 0 genesis_hash (archived ++ live))
    (fits : length (archived ++ live) < 2 ^ 64)
    (checkpoint : PublishedOk archived (archived ++ live) s.published) where
  archived-length : length archived ≡ length gone + length pending
  archived-length = ap length archive ∙ length-append gone pending

  stored-Ascends : Ascends (length gone) (pending ++ live)
  stored-Ascends =
      let whole : archived ++ live ≡ gone ++ (pending ++ live) =
        rw archive (append_assoc gone pending live) in
      let l = subst (λ (xs : List Record). Linked enc 0 genesis_hash xs) whole linked in
      Linked-Ascends enc (length gone) _ (pending ++ live)
        (omega (arith, fits, ap length whole, length-append gone (pending ++ live)))
        ((Linked-append enc 0 (length gone) genesis_hash gone (pending ++ live) (omega arith)).0
          l).1

  loaded : load s.records ≡ pending ++ live
  loaded = rw stored (load-Ascends (length gone) (pending ++ live) stored-Ascends)

  starting-Ran :
      ReadOk archived (published_anchor s.published)
      → Ran gone archived pending live s starting s (on_boundary (published_anchor s.published))
  unfolding on_boundary
  starting-Ran (unarchived e h) =
      rw e (stayed refl refl (length-nil pending (omega (arith, archived-length))))
  starting-Ran (archived_to a e h pos front) =
      let test : (a.length == 0) ≡ false = ground arith in rw (e, test) (stayed refl refl h)

  probing-Ran :
      (b : ℕ)
      → b ≡ length archived
      → (found : Option Record) → find_record b s.records ≡ found
      → Ran gone archived pending live s (probing b) s (on_last b found)
  unfolding on_last
  probing-Ran b h (some r) e = stayed refl refl h
  probing-Ran b h none e =
      stayed refl refl
        (elim (find_record-none b (length gone) (pending ++ live) stored-Ascends
          (rw (← stored) e)) [
            | inl old ↦ length-nil pending (omega (arith, archived-length))
            | inr new ↦ absurd (omega (arith, archived-length, length-append pending live))
          ])

  listing-Ran :
      (b : ℕ)
      → b ≡ length archived
      → Ran gone archived pending live s
          (listing_covered b)
          s
          (sweeping (covered b (load s.records)))
  listing-Ran b h = stayed refl refl (
      rw loaded (
        covered-append b (length gone) pending live (omega (arith, archived-length))
          stored-Ascends))

  -- `Chain` returns the live records.
  pub chain-live : (chain (load s.records) s.published).0 ≡ live
  unfolding chain retained_after
  chain-live = elim (published_anchor-ReadOk archived (archived ++ live) s.published checkpoint) [
    | unarchived e h ↦
        rw (e, loaded)
          (ap (λ (xs : List Record). xs ++ live)
            (length-nil pending (omega (arith, archived-length))))
    | archived_to a e h pos front_hash ↦
        let test : ltb 0 a.length ≡ true = ground arith in
        rw (e, test, h, loaded)
          (select-past (length archived) (length gone) pending live archived-length stored-Ascends)
  ]

  -- The first of the records that are about to be deleted is the first one stored.
  delete_record-pending :
      (n : ℕ) (todo : List ℕ) (front : IsNumbered n todo (suc (length gone)) pending)
      → delete_record n s.records ≡ front.rest ++ live
  delete_record-pending n todo front =
      rw (front.here, stored, front.split)
        (delete_record-first (length gone) front.r (front.rest ++ live) (
          subst (λ (xs : List Record). Ascends (length gone) (xs ++ live)) front.split
            stored-Ascends))

  sweeping-Ran :
      (n : ℕ) (todo : List ℕ) (front : IsNumbered n todo (suc (length gone)) pending)
      → Ran gone archived pending live s
          (sweeping (n ∷ todo))
          (record s { records = delete_record n s.records })
          (sweeping todo)
  sweeping-Ran n todo front =
      deleted front.r front.rest front.split (rw (delete_record-pending n todo front) refl)
        (rw front.here refl) refl front.later

  dropping-Ran :
      (n : ℕ) (todo : List ℕ) (front : IsNumbered n todo (suc (length gone)) pending)
      → Ran gone archived pending live s
          (dropping (n ∷ todo))
          (record s { records = delete_record n s.records })
          (dropping todo)
  dropping-Ran n todo front =
      deleted front.r front.rest front.split (rw (delete_record-pending n todo front) refl)
        (rw front.here refl) refl front.later

  collecting-Ran :
      pending ≡ [] → Ran gone archived pending live s collecting s (selecting (load s.records))
  collecting-Ran e = stayed refl refl (
    e,
    record {
      more = [];
      split =
          ap (λ (xs : List Record). xs ++ live) (sym e)
          ∙ (sym loaded ∙ sym (append-nil (load s.records)));
    },
  )

  selecting-Ran :
      (a : Archiver) (codec : Codec) (sink : Sink) (listed : List Record)
      → RoundTrips codec
      → (pending ≡ []) × IsFront listed live
      → Ran gone archived pending live s
          (selecting listed)
          s
          (select_segment a enc codec sink (chain listed s.published))
  unfolding chain
  selecting-Ran a codec sink listed trips h =
      rw
        (retained_after-listed enc gone pending archived live s stored archive linked fits
          checkpoint listed h.1)
        (stayed refl refl (
          selected-Ok enc gone pending archived live s stored archive linked fits checkpoint a codec
            sink listed (published_checkpoint s.published) trips h.0 h.1))

  pub archiver_step-Ran :
      (a : Archiver) (codec : Codec) (sink : Sink) (answer : Answer) (task : Task)
      → RoundTrips codec
      → TaskOk (length gone) archived pending live task
      → Ran gone archived pending live s task
          (archiver_step a enc codec sink answer s task).0
          (archiver_step a enc codec sink answer s task).1
  unfolding archiver_step
  archiver_step-Ran a codec sink ok resting trips h = stayed refl refl tt
  archiver_step-Ran a codec sink ok starting trips h =
      starting-Ran (published_anchor-ReadOk archived (archived ++ live) s.published checkpoint)
  archiver_step-Ran a codec sink ok (probing b) trips h =
      probing-Ran b h (find_record b s.records) refl
  archiver_step-Ran a codec sink ok (listing_covered b) trips h = listing-Ran b h
  archiver_step-Ran a codec sink ok (sweeping []) trips h =
      stayed refl refl (numbers-nil (suc (length gone)) pending h)
  archiver_step-Ran a codec sink ok (sweeping (n ∷ todo)) trips h =
      sweeping-Ran n todo (numbers-IsNumbered n (suc (length gone)) todo pending h)
  archiver_step-Ran a codec sink ok measuring trips h =
      elim (Bool-cases (leb (size s).1 (threshold_of a))) [
        | inl small ↦ rw small (stayed refl refl tt)
        | inr large ↦ rw large (stayed refl refl h)
      ]
  archiver_step-Ran a codec sink ok collecting trips h = collecting-Ran h
  archiver_step-Ran a codec sink ok (selecting listed) trips h =
      selecting-Ran a codec sink listed trips h
  archiver_step-Ran a codec sink ok (moving anchor first restored) trips h =
      moving-Ran enc gone pending archived live s stored archive linked fits checkpoint anchor first
        restored s.published refl h
  archiver_step-Ran a codec sink ok (dropping []) trips h = stayed refl refl tt
  archiver_step-Ran a codec sink ok (dropping (n ∷ todo)) trips h =
      dropping-Ran n todo (numbers-IsNumbered n (suc (length gone)) todo pending h)
  archiver_step-Ran a codec sink refused task trips h = stayed refl (unpublished task) tt
    where
      unpublished : (t : Task) → published_by t resting ≡ []
      unpublished resting = refl
      unpublished starting = refl
      unpublished (probing b) = refl
      unpublished (listing_covered b) = refl
      unpublished (sweeping todo) = refl
      unpublished measuring = refl
      unpublished collecting = refl
      unpublished (selecting listed) = refl
      unpublished (moving anchor first restored) = refl
      unpublished (dropping todo) = refl
