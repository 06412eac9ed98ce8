-- ===== src/Webhook/Exception/Tests.antt =====
-- Exceptions signed and updated: the theorems applied, and tests by evaluation.
use cupel.Base.{◌≡◌, refl, none, some, [], ◌∷◌, arith, eq_iff, trim_space, is_blank, codes_eq}
use cupel.Api.{ExceptionSpec}
use cupel.Webhook.Gate.{update}
use cupel.Webhook.Exception.{
  Raw, decoded, check_update, check_signed, is_empty, SignRequest, widened, refuse, signed, subset,
  check_submission, sign, sign_exception,
}
use cupel.Webhook.Exception.Signature.{
  IsComplete, IsNarrowing, signature_is_the_users, update_only_narrows, update_moves_signature,
}

abbrev stored : ExceptionSpec
stored = record {
  model_name = "fraud";
  model_version = "3";
  finding_ids = [];
  rules = "BlockSecrets" ∷ "RequireSBOM" ∷ [];
  reason = "test key only";
  scanned_digest = "sha256:ab";
  approved_by = "alice";
  approved_by_groups = "sec" ∷ [];
  approved_at = some 100;
  expires_at = some 900;
}

-- Another model, digest and expiry, under the rules and the reason that Alice signed.
abbrev moved : ExceptionSpec
moved = record stored { model_name = "triage"; scanned_digest = ""; expires_at = none }

abbrev by_bob : SignRequest ExceptionSpec
by_bob = record {
  operation = update;
  username = "bob";
  groups = "dev" ∷ [];
  object = decoded moved;
  old_object = decoded stored;
  now = 500;
}

moved_complete : check_submission moved ≡ none
unfolding check_submission is_empty is_blank
moved_complete = refl

abbrev moved_by_bob : ExceptionSpec
moved_by_bob = record moved { approved_by = "bob"; approved_by_groups = "dev" ∷ [] }

bob_signs : sign_exception by_bob ≡ signed moved_by_bob
unfolding sign_exception sign check_submission check_update check_signed subset is_empty is_blank
    trim_space codes_eq
bob_signs = refl

widening_refused :
    sign_exception
      (record by_bob { object = decoded (record stored { rules = "BlockMalware" ∷ [] }) })
    ≡ refuse widened
unfolding sign_exception sign check_submission check_update check_signed subset is_empty is_blank
    trim_space codes_eq
widening_refused = refl

moved-IsNarrowing : IsNarrowing stored moved
unfolding subset trim_space codes_eq
moved-IsNarrowing = record {
  same_approver = refl;
  rules = refl;
  findings = refl;
  same_reason = refl;
}

signature_is_the_users_example :
    (ex : ExceptionSpec) × (◌≡◌ {A = Raw ExceptionSpec} (decoded moved) (decoded ex))
    × IsComplete ex
    × (moved_by_bob.approved_by ≡ "bob")
    × (moved_by_bob.approved_by_groups ≡ "dev" ∷ [])
    × (record moved_by_bob {
      approved_by = ex.approved_by;
      approved_by_groups = ex.approved_by_groups;
      approved_at = ex.approved_at;
    }
        ≡ ex)
signature_is_the_users_example = signature_is_the_users by_bob moved_by_bob bob_signs

update_only_narrows_example :
    (ex : ExceptionSpec) × (◌≡◌ {A = Raw ExceptionSpec} (decoded moved) (decoded ex))
    × IsNarrowing stored ex
update_only_narrows_example =
    update_only_narrows by_bob stored moved_by_bob refl refl (ground (arith, eq_iff "alice" ""))
      bob_signs

update_moves_signature_example : sign_exception by_bob ≡ signed moved_by_bob
update_moves_signature_example =
    update_moves_signature by_bob stored moved refl refl refl moved_complete moved-IsNarrowing
      (λ e. cc)
