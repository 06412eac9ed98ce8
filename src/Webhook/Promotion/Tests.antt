-- ===== src/Webhook/Promotion/Tests.antt =====
-- Promotion requests signed and updated: the theorems applied, and tests by evaluation.
use cupel.Base.{◌≡◌, refl, some, [], ◌∷◌, is_blank}
use cupel.Api.{PromotionSpec}
use cupel.Webhook.Gate.{update}
use cupel.Webhook.Exception.{decoded, SignRequest, refuse, signed}
use cupel.Webhook.Promotion.{
  no_promotion, decision_changed, stored_of, check, decided, sign, sign_decision, requestor_of,
  sign_promotion,
}
use cupel.Webhook.Promotion.Decision.{IsAttributed, decision-IsAttributed}

abbrev approved : PromotionSpec
approved = record no_promotion {
  model_name = "fraud";
  model_version = "3";
  target_environment = "prod";
  requestor = "dana";
  decision = "Approve";
  decided_by = "alice";
  decided_by_groups = "sec" ∷ [];
  decided_at = some 100;
}

-- Mallory names another model in the request that Alice approved.
abbrev by_mallory : SignRequest PromotionSpec
by_mallory = record {
  operation = update;
  username = "mallory";
  groups = [];
  object = decoded (record approved { model_name = "triage"; model_version = "9" });
  old_object = decoded approved;
  now = 500;
}

moved :
    sign_promotion by_mallory
    ≡ signed (record approved { model_name = "triage"; model_version = "9" })
unfolding sign_promotion stored_of check decided sign sign_decision requestor_of
moved = refl

reversal_refused :
    sign_promotion (record by_mallory {
      object = decoded (record approved { decision = "Reject"; decision_reason = "no" });
    })
    ≡ refuse decision_changed
unfolding sign_promotion stored_of check decided sign sign_decision requestor_of is_blank
reversal_refused = refl

decision-IsAttributed_example :
    IsAttributed by_mallory (record approved { model_name = "triage"; model_version = "9" })
decision-IsAttributed_example =
    decision-IsAttributed by_mallory
      (record approved { model_name = "triage"; model_version = "9" }) moved
