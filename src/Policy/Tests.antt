-- ===== src/Policy/Tests.antt =====
-- Exceptions of two models: the theorems of internal/policy applied.
use cupel.Base.{◌≡◌, ◌≢◌, ◌↔◌, refl, none, some, [], ◌∷◌}
use cupel.Api.{ExceptionSpec}
use cupel.Policy.{exceptions_for}
use cupel.Policy.Scoped.{IsAmong, exceptions_for-iff-named}

abbrev waiver : ExceptionSpec
waiver = record {
  model_name = "fraud";
  model_version = "3";
  finding_ids = [];
  rules = "BlockSecrets" ∷ [];
  reason = "test key";
  scanned_digest = "";
  approved_by = "alice";
  approved_by_groups = [];
  approved_at = some 5;
  expires_at = none;
}

abbrev other : ExceptionSpec
other = record waiver { model_name = "credit" }

scoped_test : exceptions_for (waiver ∷ other ∷ []) "fraud" "3" ≡ waiver ∷ []
unfolding exceptions_for
scoped_test = refl

exceptions_for-iff-named_example :
    IsAmong other (exceptions_for (waiver ∷ other ∷ []) "fraud" "3") ↔ (
      IsAmong other (waiver ∷ other ∷ [])
      × (other.model_name ≡ "fraud")
      × (other.model_version ≡ "3")
      × (waiver.model_name ≢ "")
      × (waiver.model_version ≢ ""))
exceptions_for-iff-named_example = exceptions_for-iff-named (waiver ∷ other ∷ []) "fraud" "3" other
