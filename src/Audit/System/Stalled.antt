-- ===== src/Audit/System/Stalled.antt =====
-- A writer of internal/audit/recorder.go that read the checkpoint, and stood still while the archiver
-- deleted the record it is to continue from: tests by evaluation.
use cupel.Base.{◌≡◌, refl, some, [], ◌∷◌, ◌%◌, ◌==◌, length, if◌then◌else◌}
use cupel.Audit.Decimal.{format_uint}
use cupel.Audit.Record.{Record, Encoding, genesis_hash, seal, canonical, compute_hash}
use cupel.Audit.Store.{
  Store, chain, load, checkpoint_from_api, retained_after, find_record, record_at, merge_spec,
  spec_from_checkpoint, published_anchor,
}
use cupel.Audit.Recorder.{ok, Writer, at_checkpoint, appended, writer_step}

abbrev toy : Encoding
toy = record {
  sha256_hex = λ x. if length x % 2 == 0 then "even" else "odd";
  rfc3339 = format_uint;
}

abbrev event : Record
event = record {
  seq = 0;
  time = 5000000000;
  type = "ScanCompleted";
  subject = "fraud/3";
  actor = "system";
  detail = [];
  prev_hash = "";
  hash = "";
}

abbrev fifth : Record
fifth = record event { seq = 5; prev_hash = "even"; hash = "odd" }

-- Four records are archived, and one is retained.
abbrev moved_on : Store
moved_on = record {
  records = fifth ∷ [];
  published = some (record {
    version = 3;
    spec = record {
      length = 5;
      head = "odd";
      time = 6000000000;
      archived_length = 4;
      archived_head = "even";
      archive_location = "file:///audit";
    };
  });
}

-- The state after each request of the writer, which succeeds.
abbrev step : Store × Writer → Store × Writer
step s = writer_step toy ok s.0 s.1

-- The writer found the checkpoint at the second record, when there were two.
abbrev ended : Store × Writer
ended = step (step (step (step (step (moved_on, at_checkpoint event 0 2)))))

-- It reports a first record as appended.
restarts : ended.1 ≡ appended (record event { seq = 1; prev_hash = genesis_hash; hash = "odd" })
unfolding writer_step seal compute_hash canonical find_record record_at merge_spec
    spec_from_checkpoint
restarts = refl

-- `Chain` does not return that record.
is_hidden : (chain (load ended.0.records) ended.0.published).0 ≡ fifth ∷ []
unfolding writer_step seal compute_hash canonical find_record record_at merge_spec chain load
    checkpoint_from_api retained_after published_anchor spec_from_checkpoint
is_hidden = refl
