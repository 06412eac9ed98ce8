-- ===== src/Maintenance/Tests.antt =====
-- The pruner run on concrete scans: the theorems applied, and a test by evaluation.
use cupel.Base.{◌≡◌, refl, false, none, some, List, [], ◌∷◌, All}
use cupel.Api.{ModelSecurityReport}
use cupel.Maintenance.{
  Pruner, limited, ArtifactScan, Deletion, deleted, max_age_of, in_scope, is_in_use, is_due, prune,
  run,
}
use cupel.Maintenance.Spared.{IsPrunable, removed-IsPrunable}

abbrev pruner : Pruner
pruner = record { namespace = "ml"; max_age = limited 100; now = 1000 }

abbrev report : ModelSecurityReport
report = record {
  namespace = "ml";
  name = "fraud";
  model_name = "fraud";
  model_version = "3";
  artifact = record { uri = ""; digest = ""; media_type = ""; format = ""; size_bytes = none };
  scan_ref = "in-use";
  verdict = "Approved";
  risk_score = 0;
  malware = "Clean";
  unexamined = record { critical = 0; high = 0; medium = 0; low = 0; unknown = 0 };
  last_scan_time = some 50;
  approved_environments = [];
}

abbrev old_scan : ArtifactScan
old_scan = record { namespace = "ml"; name = "old"; completion_time = some 10 }

abbrev scans : List ArtifactScan
scans =
    old_scan
    ∷ record { namespace = "ml"; name = "in-use"; completion_time = some 10 }
    ∷ record { namespace = "ml"; name = "running"; completion_time = none }
    ∷ record { namespace = "ml"; name = "recent"; completion_time = some 950 }
    ∷ record { namespace = "other"; name = "old"; completion_time = some 10 }
    ∷ []

accept : ArtifactScan → Deletion
accept s = deleted

only_old :
    run pruner (some (report ∷ [])) (some scans) accept
    ≡ record { removed = old_scan ∷ []; failed = false }
unfolding run max_age_of in_scope is_in_use is_due prune accept
only_old = refl

removed-IsPrunable_example :
    All
      (IsPrunable pruner (report ∷ []))
      (run pruner (some (report ∷ [])) (some scans) accept).removed
removed-IsPrunable_example = removed-IsPrunable pruner (report ∷ []) (some scans) accept
