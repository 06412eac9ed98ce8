-- ===== src/Audit/System/Tests.antt =====
-- One writer of internal/audit/recorder.go that appends two events, and a run of the archiver that moves
-- the first record: the theorems applied, and tests by evaluation.
use cupel.Base.{
  ℕ, ◌+◌, ◌%◌, ◌<◌, ◌^◌, ◌≡◌, refl, sym, ap, Bool, true, false, ◌&&◌, Option, none, some, List, [],
  ◌∷◌, ◌++◌, arith, String, eq_iff, str_eq, ◌==◌, length, codes_eq, if◌then◌else◌, Bool-cases, inl,
  inr,
}
use cupel.Audit.Decimal.{format_uint}
use cupel.Audit.Record.{Record, Encoding, genesis_hash, seal, canonical, compute_hash}
use cupel.Audit.Chain.{anchor_of, verify, verify_from}
use cupel.Audit.Chain.Growth.{last?}
use cupel.Audit.Store.{
  spec_from_checkpoint, merge_spec, checkpoint_from_api, retained_after, advance_boundary,
  find_record, record_at, size, load, chain, published_anchor, published_checkpoint, verify_store,
}
use cupel.Audit.Recorder.{ok, seeking, appended, writer_step}
use cupel.Audit.Archive.{
  select_segment, threshold_of, retain_of, advance, on_encoded, Codec, Sink, Archiver, resting,
  starting, archiver_step,
}
use cupel.Audit.System.{
  System, IsFree, deletes, update, published_by, append, write, begin, run, Reach, start, here,
  next,
}
use cupel.Audit.System.Invariant.Segments.{RoundTrips}
use cupel.Audit.System.Positions.{At}
use cupel.Audit.System.Invariant.{Forward}
use cupel.Audit.System.Written.{Grows}
use cupel.Audit.System.Reachable.{
  logged, logged-verify, chain-verify_from, Step-Grows, Step-Forward, verify_store-archived,
}
use cupel.Audit.System.Acknowledged.{Steps, none_yet, and_then, appended-At}

abbrev toy : Encoding
toy = record {
  sha256_hex = λ x. if length x % 2 == 0 then "even" else "odd";
  rfc3339 = format_uint;
}

abbrev event : Record
event = record {
  seq = 0;
  time = 5000000000;
  type = "ScanCompleted";
  subject = "fraud/3";
  actor = "system";
  detail = [];
  prev_hash = "";
  hash = "";
}

abbrev first : Record
first = record event { seq = 1; prev_hash = genesis_hash; hash = "odd" }

is_empty : List (String × String) → Bool
is_empty [] = true
is_empty (d ∷ ds) = false

empty_is : (ds : List (String × String)) → is_empty ds ≡ true → ds ≡ []
unfolding is_empty
empty_is [] h = refl
empty_is (d ∷ ds) h = cc

is_first : Record → Bool
is_first r =
    r.seq == 1
    && r.time == 5000000000
    && str_eq r.type first.type
    && str_eq r.subject first.subject
    && str_eq r.actor first.actor
    && is_empty r.detail
    && str_eq r.prev_hash first.prev_hash
    && str_eq r.hash first.hash

first_is : (r : Record) → is_first r ≡ true → r ≡ first
unfolding is_first
first_is r h = λ i. record {
  seq = number i;
  time = at_time i;
  type = of_type i;
  subject = about i;
  actor = by i;
  detail = plain i;
  prev_hash = behind i;
  hash = hashed i;
}
  where
    number : r.seq ≡ 1
    number = ground (arith, h)

    at_time : r.time ≡ 5000000000
    at_time = ground (arith, h)

    of_type : r.type ≡ first.type
    of_type = ground (arith, h, eq_iff r.type first.type)

    about : r.subject ≡ first.subject
    about = ground (arith, h, eq_iff r.subject first.subject)

    by : r.actor ≡ first.actor
    by = ground (arith, h, eq_iff r.actor first.actor)

    plain : r.detail ≡ []
    plain = empty_is r.detail (ground (arith, h))

    behind : r.prev_hash ≡ first.prev_hash
    behind = ground (arith, h, eq_iff r.prev_hash first.prev_hash)

    hashed : r.hash ≡ first.hash
    hashed = ground (arith, h, eq_iff r.hash first.hash)

seal_test : seal toy event none ≡ first
unfolding seal compute_hash canonical
seal_test = refl

-- The codec knows one segment.
encode_first : List Record → Option (List ℕ)
encode_first (r ∷ []) = if is_first r then some (7 ∷ []) else none
encode_first _ = none

abbrev codec : Codec
codec = record { encode = encode_first; decode = λ _. some (first ∷ []) }

codec-RoundTrips : RoundTrips codec
unfolding encode_first
codec-RoundTrips [] written h = cc
codec-RoundTrips (r ∷ []) written h = elim (Bool-cases (is_first r)) [
  | inl same ↦ ap (λ (x : Record). some (x ∷ [])) (sym (first_is r same))
  | inr other ↦ cc (rw other at h)
]
codec-RoundTrips (r ∷ q ∷ rs) written h = cc

abbrev small : Archiver
small = record { threshold = 1; retain = 1 }

abbrev disk : Sink
disk = record { put = some "file:///audit"; get = some (7 ∷ []) }

abbrev calls : System → System
calls s = record s { writers = update s.writers 0 (seeking event 0) }

abbrev writes : System → System
writes s = record s {
  store = (writer_step toy ok s.store (s.writers 0)).0;
  writers = update s.writers 0 (writer_step toy ok s.store (s.writers 0)).1;
}

abbrev runs : System → System
runs s = record s {
  store = (archiver_step small toy codec disk ok s.store s.task).0;
  task = (archiver_step small toy codec disk ok s.store s.task).1;
  archived =
      s.archived ++ published_by s.task (archiver_step small toy codec disk ok s.store s.task).1;
}

abbrev begins : System → System
begins s = record s { task = starting }

abbrev Reached : System → Type 0
Reached = Reach toy small codec

after_call : (s : System) → IsFree (s.writers 0) → Reached s → Reached (calls s)
after_call s free r = next r (append 0 event free refl)

after_write :
    (s : System)
    → length s.archived + length s.store.records + 1 < 2 ^ 64
    → Reached s
    → Reached (writes s)
after_write s fits r = next r (write 0 ok fits refl)

after_run : (s : System) → deletes s.task ≡ none → Reached s → Reached (runs s)
after_run s quiet r = next r (run disk ok (λ i n h. cc) refl)

after_begin : (s : System) → s.task ≡ resting → Reached s → Reached (begins s)
after_begin s idle r = next r (begin refl idle)

-- One event is appended.
abbrev one : System
one = writes (writes (writes (writes (writes (calls (start toy small codec))))))

one-Reached : Reached one
unfolding writer_step seal compute_hash canonical find_record
one-Reached = after_write _ (omega arith) (
    after_write _ (omega arith) (
      after_write _ (omega arith)
        (after_write _ (omega arith) (after_write _ (omega arith) (after_call _ tt here)))))

one_test : one.writers 0 ≡ appended first
unfolding writer_step seal compute_hash canonical find_record last? load
one_test = refl

-- The step in which the first record is created.
abbrev about_to_create : System
about_to_create = writes (writes (calls (start toy small codec)))

about_to_create-Reached : Reached about_to_create
unfolding writer_step
about_to_create-Reached =
    after_write _ (omega arith) (after_write _ (omega arith) (after_call _ tt here))

-- A second event is appended, and a run of the archiver moves the first one and publishes the boundary.
abbrev two : System
two = writes (writes (writes (writes (writes (writes (calls one))))))

abbrev moved_one : System
moved_one = runs (runs (runs (runs (runs (begins two)))))

two-Reached : Reached two
unfolding writer_step seal compute_hash canonical find_record record_at last? load
    spec_from_checkpoint
two-Reached = after_write _ (omega arith) (
    after_write _ (omega arith) (
      after_write _ (omega arith) (
        after_write _ (omega arith) (
          after_write _ (omega arith)
            (after_write _ (omega arith) (after_call one tt one-Reached))))))

one-Steps : Steps toy small codec codec-RoundTrips one (writes (calls one))
unfolding writer_step seal compute_hash canonical find_record last? load
one-Steps = and_then (and_then none_yet (append 0 event tt refl)) (write 0 ok (omega arith) refl)

two_test : two.task ≡ resting
two_test = refl

moved_one-Reached : Reached moved_one
unfolding writer_step archiver_step seal compute_hash canonical find_record last? load record_at
    size chain select_segment threshold_of retain_of advance verify_from encode_first is_first
    is_empty on_encoded published_anchor spec_from_checkpoint merge_spec checkpoint_from_api
    retained_after anchor_of codes_eq advance_boundary
moved_one-Reached = after_run _ refl (
    after_run _ refl
      (after_run _ refl (after_run _ refl (after_run _ refl (after_begin two refl two-Reached)))))

moved_one_test : moved_one.archived ≡ first ∷ []
unfolding writer_step archiver_step seal compute_hash canonical find_record last? load record_at
    size chain select_segment threshold_of retain_of advance verify_from encode_first is_first
    is_empty on_encoded published_anchor spec_from_checkpoint merge_spec checkpoint_from_api
    retained_after anchor_of codes_eq advance_boundary
moved_one_test = refl

moved_one-IsArchived : 0 < length moved_one.archived
moved_one-IsArchived = rw moved_one_test (omega arith)

logged-verify_example :
    (verify toy (logged moved_one) (published_checkpoint moved_one.store.published)).valid ≡ true
logged-verify_example = logged-verify toy small codec codec-RoundTrips moved_one moved_one-Reached

chain-verify_from_example :
    (verify_from toy
      (chain (load moved_one.store.records) moved_one.store.published).0
      (published_anchor moved_one.store.published)
      (chain (load moved_one.store.records) moved_one.store.published).1).valid
    ≡ true
chain-verify_from_example =
    chain-verify_from toy small codec codec-RoundTrips moved_one moved_one-Reached

verify_store-archived_example : (verify_store toy moved_one.store).valid ≡ false
verify_store-archived_example =
    verify_store-archived toy small codec codec-RoundTrips moved_one moved_one-Reached
      moved_one-IsArchived

appended-At_example : At 0 (logged (writes (calls one))) first.seq first
appended-At_example =
    appended-At toy small codec codec-RoundTrips one (writes (calls one)) 0 first one-Reached
      (one-Steps) one_test

Step-Grows_example :
    Grows toy about_to_create (logged about_to_create) (logged (writes about_to_create))
unfolding writer_step
Step-Grows_example =
    Step-Grows toy small codec codec-RoundTrips about_to_create (writes about_to_create)
      about_to_create-Reached (write 0 ok (omega arith) refl)

Step-Forward_example : Forward two.store.published (runs two).store.published
Step-Forward_example =
    Step-Forward toy small codec codec-RoundTrips two (runs two) two-Reached
      (run disk ok (λ i n h. cc) refl)
