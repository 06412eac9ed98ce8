-- ===== src/Audit/System/Invariant/Selecting.antt =====
-- The segment that a run of the archiver selects, encodes and reads back.
use cupel.Base.{
  ℕ, ◌-◌, ◌<◌, ◌^◌, ◌≡◌, inl, inr, refl, sym, ap, subst, ◌∙◌, true, not, ◌||◌, Option, none, some,
  List, [], ◌++◌, String, append_assoc, length, length-append, arith, ltb, leb, Bool-cases, take,
  drop, take-append-drop,
}
use cupel.Audit.Record.{Record, Encoding, genesis_hash}
use cupel.Audit.Chain.{Anchor, Checkpoint, head_hash, anchor_of, verify_from}
use cupel.Audit.Chain.Links.{Linked}
use cupel.Audit.Chain.Segments.{Linked-append, head_hash-append}
use cupel.Audit.Store.{Store, published_anchor, retained_after}
use cupel.Audit.Archive.{
  Codec, Sink, Archiver, threshold_of, retain_of, moved, on_put, on_encoded, select_segment,
}
use cupel.Audit.System.Positions.{Ascends, Linked-Ascends, select-past}
use cupel.Audit.System.Invariant.{PublishedOk, IsFront, TaskOk}
use cupel.Audit.System.Invariant.Segments.{
  unarchived, archived_to, published_anchor-ReadOk, RoundTrips, Ascends-front, length-drop-pos,
  length-take-pos, last_seq-Ascends, first_seq-Ascends, head_hash-nonempty, restored_of-Same,
  retain_of-pos,
}

module _ (enc : Encoding) (gone pending archived live : List Record) (s : Store)
    (stored : s.records ≡ pending ++ live) (archive : archived ≡ gone ++ pending)
    (linked : Linked enc 0 genesis_hash (archived ++ live))
    (fits : length (archived ++ live) < 2 ^ 64)
    (checkpoint : PublishedOk archived (archived ++ live) s.published) where
  live-Ascends : Ascends (length archived) live
  live-Ascends =
      Linked-Ascends enc (length archived) _ live (omega (arith, fits, length-append archived live))
        ((Linked-append enc 0 (length archived) genesis_hash archived live (omega arith)).0
          linked).1

  listed-Ascends : (listed : List Record) → IsFront listed live → Ascends (length archived) listed
  listed-Ascends listed front =
      Ascends-front (length archived) listed front.more
        (subst (λ (xs : List Record). Ascends (length archived) xs) front.split live-Ascends)

  pub retained_after-listed :
      (listed : List Record)
      → IsFront listed live
      → retained_after (published_anchor s.published) listed ≡ listed
  unfolding retained_after
  retained_after-listed listed front =
      elim (published_anchor-ReadOk archived (archived ++ live) s.published checkpoint) [
        | unarchived e h ↦ rw e refl
        | archived_to a e h pos front_hash ↦
            let test : ltb 0 a.length ≡ true = ground arith in
            rw (e, test, h)
              (select-past (length archived) (length archived) [] listed (omega arith)
                (listed-Ascends listed front))
      ]

  moved-Ok :
      (segment : List Record) (location : String) (restored : Option (List Record))
      → pending ≡ []
      → ((more : List Record) × (live ≡ segment ++ more) × (0 < length more))
      → 0 < length segment
      → ((rs : List Record) → restored ≡ some rs → rs ≡ segment)
      → TaskOk (length gone) archived pending live (moved segment location restored)
  unfolding moved
  moved-Ok segment location none p split pos same = tt
  moved-Ok segment location (some rs) p split pos same =
      let is_segment = same rs refl in
      let ascends = listed-Ascends segment (record { more = split.0; split = split.1 }) in
      (
        p,
        rw is_segment split,
        rw is_segment (last_seq-Ascends (length archived) 0 segment ascends pos),
        rw (is_segment, head_hash-append genesis_hash archived segment)
            (head_hash-nonempty genesis_hash (head_hash genesis_hash archived) segment pos),
        first_seq-Ascends (length archived) segment ascends pos,
      )

  put-Ok :
      (anchor : Option Anchor) (codec : Codec) (sink : Sink) (segment : List Record)
      (written : List ℕ) (location : Option String)
      → RoundTrips codec
      → codec.encode segment ≡ some written
      → pending ≡ []
      → ((more : List Record) × (live ≡ segment ++ more) × (0 < length more))
      → 0 < length segment
      → TaskOk
          (length gone)
          archived
          pending
          live
          (on_put enc anchor codec sink segment written location)
  unfolding on_put
  put-Ok anchor codec sink segment written none trips e p split pos = tt
  put-Ok anchor codec sink segment written (some location) trips e p split pos =
      moved-Ok segment location _ p split pos
        (λ rs. restored_of-Same enc anchor codec segment rs sink.get written trips e)

  encoded-Ok :
      (anchor : Option Anchor) (codec : Codec) (sink : Sink) (segment : List Record)
      (encoded : Option (List ℕ))
      → RoundTrips codec
      → codec.encode segment ≡ encoded
      → pending ≡ []
      → ((more : List Record) × (live ≡ segment ++ more) × (0 < length more))
      → 0 < length segment
      → TaskOk
          (length gone)
          archived
          pending
          live
          (on_encoded enc anchor codec sink segment encoded)
  unfolding on_encoded
  encoded-Ok anchor codec sink segment none trips e p split pos = tt
  encoded-Ok anchor codec sink segment (some written) trips e p split pos =
      put-Ok anchor codec sink segment written sink.put trips e p split pos

  pub selected-Ok :
      (a : Archiver) (codec : Codec) (sink : Sink) (listed : List Record) (cp : Option Checkpoint)
      → RoundTrips codec
      → pending ≡ []
      → IsFront listed live
      → TaskOk (length gone) archived pending live (select_segment a enc codec sink (listed, cp))
  unfolding select_segment
  selected-Ok a codec sink listed cp trips p front =
      let n = length listed - retain_of a in
      let some_retained = retain_of-pos a in
      elim (Bool-cases
        (leb (length listed) (threshold_of a) || leb (length listed) (retain_of a))) [
          | inl small ↦ rw small tt
          | inr large ↦
              let cut : (0 < n) × (n < length listed) = ground arith in
              elim (Bool-cases (not (verify_from enc (take n listed) (anchor_of cp) none).valid)) [
                | inl broken ↦ rw (large, broken) tt
                | inr sound ↦
                    rw (large, sound)
                      (encoded-Ok (anchor_of cp) codec sink (take n listed)
                        (codec.encode (take n listed)) trips refl p
                        (
                          drop n listed ++ front.more,
                          front.split
                              ∙ (ap (λ (xs : List Record). xs ++ front.more)
                                    (sym (take-append-drop n listed))
                                  ∙ append_assoc (take n listed) (drop n listed) front.more),
                          omega (
                            arith,
                            length-drop-pos n listed cut.1,
                            length-append (drop n listed) front.more,
                          ),
                        )
                        (length-take-pos n listed cut.0 (omega (arith, cut))))
              ]
        ]
