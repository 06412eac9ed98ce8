-- ===== src/Audit/System/Reachable.antt =====
-- What every run of the writers and the archiver keeps, whatever is interleaved or fails.
use cupel.Base.{
  ℕ, ◌+◌, ◌≤◌, ◌<◌, ◌^◌, ◌≡◌, refl, sym, Bool-cases, inl, inr, ap, subst, ◌∙◌, true, false, Option,
  none, some, List, String, [], ◌∷◌, ◌++◌, length, length-append, arith,
}
use cupel.Audit.Record.{Record, Encoding, genesis_hash}
use cupel.Audit.Chain.{Anchor, Checkpoint, verify, verify_from, head_hash}
use cupel.Audit.Chain.Links.{Linked}
use cupel.Audit.Chain.Segments.{head_hash-append, verify-append, anchor_after, Linked-append}
use cupel.Audit.Chain.Verdict.{valid-iff-Linked, Meets, total}
use cupel.Audit.Store.{
  AuditCheckpoint, load, chain, published_anchor, published_checkpoint, checkpoint_from_api,
  verify_store,
}
use cupel.Audit.Recorder.{ok}
use cupel.Audit.Archive.{Codec, Archiver, resting}
use cupel.Audit.System.{
  System, Step, append, write, write_unseen, begin, run, run_unseen, Reach, start, here, next,
}
use cupel.Audit.System.Positions.{length-nil, At, At-le}
use cupel.Audit.System.Invariant.{Forward, PublishedOk, Inv}
use cupel.Audit.System.Invariant.Segments.{
  RoundTrips, ReadOk, unarchived, archived_to, published_anchor-ReadOk,
}
use cupel.Audit.System.Invariant.Archiving.{chain-live}
use cupel.Audit.System.Written.{Goes, Grows, Goes-append, Goes-write, Goes-write_unseen}
use cupel.Audit.System.Moved.{Goes-begin, Goes-run, Goes-task}

-- The archived records and those that `Chain` returns.
unfoldable pub logged : System → List Record
logged s = s.archived ++ (chain (load s.store.records) s.store.published).0

At-head_hash :
    {k m : ℕ} {rs : List Record} {r : Record} (p : String)
    → At k rs m r
    → k + length rs ≤ m
    → head_hash p rs ≡ r.hash
At-head_hash {k} {m} {rs} {r} p a h =
    let last = length-append a.before (r ∷ a.later) in
    rw a.split (
      head_hash-append p a.before (r ∷ a.later)
      ∙ ap (head_hash r.hash)
          (length-nil a.later (omega (arith, last, ap length a.split, a.place))))

module _ (enc : Encoding) (a : Archiver) (codec : Codec) (trips : RoundTrips codec) where
  Goes-Step : (s t : System) (inv : Inv enc s) → Step enc a codec s t → Goes enc s inv t
  Goes-Step s t inv (append i e free same) =
      subst (Goes enc s inv) (sym same) (Goes-append enc s i e inv)
  Goes-Step s t inv (write i answer fits same) =
      subst (Goes enc s inv) (sym same) (Goes-write enc s i answer fits inv)
  Goes-Step s t inv (write_unseen i fits same) =
      subst (Goes enc s inv) (sym same) (Goes-write_unseen enc s i fits inv)
  Goes-Step s t inv (begin same idle) = subst (Goes enc s inv) (sym same) (Goes-begin enc s inv)
  Goes-Step s t inv (run sink answer timely same) =
      subst (Goes enc s inv) (sym same) (Goes-run enc a codec s sink answer trips timely inv)
  Goes-Step s t inv (run_unseen sink timely same) = subst (Goes enc s inv) (sym same) (
      Goes-task enc s _ resting inv (λ _ _ _ _. tt)
        (Goes-run enc a codec s sink ok trips timely inv))

  start-Inv : Inv enc (start enc a codec)
  start-Inv = record {
    gone = [];
    pending = [];
    live = [];
    stored = refl;
    archive = refl;
    fits = omega arith;
    linked = tt;
    room = λ h. absurd (omega arith);
    checkpoint = refl;
    writer = λ i. tt;
    task = tt;
  }

  pub Reach-Inv : (s : System) → Reach enc a codec s → Inv enc s
  Reach-Inv s here = start-Inv
  Reach-Inv t (next {s} r step) = (Goes-Step s t (Reach-Inv s r) step).after

  store_chain :
      (s : System) (inv : Inv enc s) → (chain (load s.store.records) s.store.published).0 ≡ inv.live
  store_chain s inv =
      chain-live enc inv.gone inv.pending s.archived inv.live s.store inv.stored inv.archive
        inv.linked inv.fits inv.checkpoint

  pub logged-live : (s : System) (inv : Inv enc s) → logged s ≡ s.archived ++ inv.live
  unfolding logged
  logged-live s inv = ap (λ (xs : List Record). s.archived ++ xs) (store_chain s inv)

  -- Every step of the writers and the archiver leaves the log as it is, or appends to it the sealed
  -- event of a writer that is about to create a record. An encoded segment decodes to itself.
  pub Step-Grows :
      (s t : System)
      → Reach enc a codec s
      → Step enc a codec s t
      → Grows enc s (logged s) (logged t)
  Step-Grows s t r step =
      let inv = Reach-Inv s r in
      let goes = Goes-Step s t inv step in
      subst (λ (xs : List Record). Grows enc s xs (logged t)) (sym (logged-live s inv))
        (subst (λ (xs : List Record). Grows enc s (s.archived ++ inv.live) xs)
          (sym (logged-live t goes.after)) goes.grows)

  verify_from-anchored :
      (archived live : List Record) (anchor : Option Anchor) (cp : Option Checkpoint)
      → ReadOk archived anchor
      → length (archived ++ live) < 2 ^ 64
      → (verify_from enc (archived ++ live) none cp).valid ≡ true
      → (verify_from enc live anchor cp).valid ≡ true
  verify_from-anchored archived live anchor cp (unarchived e h) fits whole = rw e (
      subst (λ (xs : List Record). (verify_from enc (xs ++ live) none cp).valid ≡ true)
        (length-nil archived h) whole)
  verify_from-anchored archived live anchor cp (archived_to an e h pos front) fits whole =
      let left : anchor_after none archived an.location ≡ an =
        rw (← front) (ap (λ (n : ℕ). record an { length = n }) (omega (arith, h))) in
      rw (e, ← left)
        ((verify-append enc archived live none cp an.location (omega (arith, fits))).0 whole).1

  -- The records behind an archive do not begin a chain.
  not_from_start :
      (archived live : List Record)
      → length (archived ++ live) < 2 ^ 64
      → 0 < length archived
      → 0 < length live
      → Linked enc 0 genesis_hash (archived ++ live)
      → Linked enc 0 genesis_hash live
      → ⊥
  not_from_start archived [] fits pos some_live l m = absurd (omega arith)
  not_from_start archived (r ∷ rs) fits pos some_live l m =
      let later =
        ((Linked-append enc 0 (length archived) genesis_hash archived (r ∷ rs) (omega arith)).0
          l).1 in
      omega (arith, later.0, m.0, fits, length-append archived (r ∷ rs))

  -- No step takes the published checkpoint back: neither its length nor its archive boundary decreases.
  -- An encoded segment decodes to itself.
  pub Step-Forward :
      (s t : System)
      → Reach enc a codec s
      → Step enc a codec s t
      → Forward s.store.published t.store.published
  Step-Forward s t r step = (Goes-Step s t (Reach-Inv s r) step).forward

  Meets-published :
      (archived log : List Record) (published : Option AuditCheckpoint)
      → PublishedOk archived log published
      → Meets (published_checkpoint published) (length log) (head_hash genesis_hash log)
  unfolding published_checkpoint checkpoint_from_api
  Meets-published archived log none c = tt
  Meets-published archived log (some p) c = (
    omega (arith, At-le c.named),
    λ e. At-head_hash genesis_hash c.named (omega (arith, e)) ∙ c.hashed,
  )

  -- In every state that is reached the archived records and those that `Chain` returns are together a
  -- chain that verifies from the beginning against the published checkpoint. An encoded segment decodes
  -- to itself.
  pub logged-verify :
      (s : System)
      → Reach enc a codec s
      → (verify enc (logged s) (published_checkpoint s.store.published)).valid ≡ true
  unfolding verify
  logged-verify s r =
      let inv = Reach-Inv s r in
      let small : total none (s.archived ++ inv.live) ≡ length (s.archived ++ inv.live) =
        omega (arith, inv.fits) in
      rw (logged-live s inv) (
        (valid-iff-Linked enc (s.archived ++ inv.live) none
            (published_checkpoint s.store.published)).1
          (
            inv.linked,
            rw small (
                Meets-published s.archived (s.archived ++ inv.live) s.store.published
                  inv.checkpoint),
          ))

  -- In every state that is reached the records that `Chain` returns verify from the published boundary
  -- against the published checkpoint. An encoded segment decodes to itself.
  pub chain-verify_from :
      (s : System)
      → Reach enc a codec s
      → (verify_from enc
          (chain (load s.store.records) s.store.published).0
          (published_anchor s.store.published)
          (chain (load s.store.records) s.store.published).1).valid
        ≡ true
  unfolding chain
  chain-verify_from s r =
      let inv = Reach-Inv s r in
      let whole : (verify_from enc (s.archived ++ inv.live) none
            (published_checkpoint s.store.published)).valid
          ≡ true =
        subst
          (λ (xs : List Record).
            (verify_from enc xs none (published_checkpoint s.store.published)).valid ≡ true)
          (logged-live s inv) (unfold verify in logged-verify s r) in
      subst
        (λ (rs : List Record).
          (verify_from enc rs (published_anchor s.store.published)
            (published_checkpoint s.store.published)).valid
          ≡ true)
        (sym (store_chain s inv))
        (verify_from-anchored s.archived inv.live _ (published_checkpoint s.store.published)
          (published_anchor-ReadOk s.archived (s.archived ++ inv.live) s.store.published
            inv.checkpoint)
          inv.fits whole)

  -- `Verify` of the recorder starts at the beginning of the chain: in every state that is reached with a
  -- record archived it reports the chain as invalid. An encoded segment decodes to itself.
  pub verify_store-archived :
      (s : System)
      → Reach enc a codec s
      → 0 < length s.archived
      → (verify_store enc s.store).valid ≡ false
  unfolding verify_store verify chain
  verify_store-archived s r some_archived =
      let inv = Reach-Inv s r in
      elim (Bool-cases
        (verify_from enc inv.live none (published_checkpoint s.store.published)).valid) [
          | inr invalid ↦ rw (store_chain s inv) invalid
          | inl valid ↦ absurd (
              not_from_start s.archived inv.live inv.fits some_archived (inv.room some_archived)
                inv.linked
                ((valid-iff-Linked enc inv.live none (published_checkpoint s.store.published)).0
                  valid).0)
        ]
