-- ===== src/Webhook/Promotion.antt =====
-- internal/webhook/promotion.go: who asks for a promotion and who decides it. The stored object is
-- the submitted specification as patched, and a refusal is a value for its message.
pub mod Decision
pub mod Moved
mod Tests
use cupel.Base.{
  ℕ, Bool, true, false, not, ◌||◌, ◌&&◌, Option, none, some, List, [], ◌∷◌, String, if◌then◌else◌,
  str_eq, is_blank,
}
use cupel.Api.{PromotionSpec, decision_reject}
use cupel.Webhook.Gate.{Operation, create, update, delete, connect}
use cupel.Webhook.Exception.{
  Raw, absent, undecodable, decoded, SignRequest, Signed, allow, bad_request, refuse, signed,
}

pub data Refusal : Type 0 where
  model_required environment_required unexplained_rejection decision_changed environment_changed :
      Refusal

abbrev pub no_promotion : PromotionSpec
no_promotion = record {
  model_name = "";
  model_version = "";
  target_environment = "";
  requestor = "";
  justification = "";
  decision = "";
  decision_reason = "";
  decided_by = "";
  decided_by_groups = [];
  decided_at = none;
}

-- `hasOld` and `old`: the stored object of an update, where it decodes.
pub stored_of : Operation → Raw PromotionSpec → Option PromotionSpec
stored_of update (decoded old) = some old
stored_of _ _ = none

-- The stored object, if it bears a decision.
pub decided : Option PromotionSpec → Option PromotionSpec
decided none = none
decided (some old) = if str_eq old.decision "" then none else some old

-- The checks against a decision that is already signed.
check_decided : Option PromotionSpec → PromotionSpec → Option Refusal
check_decided none pr = none
check_decided (some old) pr =
    if not (str_eq pr.decision old.decision)
    then some decision_changed
    else if not (str_eq pr.target_environment old.target_environment)
    then some environment_changed
    else none

pub check : Option PromotionSpec → PromotionSpec → Option Refusal
unfolding check_decided
check old pr =
    if str_eq pr.model_name "" || str_eq pr.model_version ""
    then some model_required
    else if str_eq pr.target_environment ""
    then some environment_required
    else if str_eq pr.decision decision_reject && is_blank pr.decision_reason
    then some unexplained_rejection
    else check_decided (decided old) pr

-- The requestor: the user who creates, and after that the one who is stored.
pub requestor_of : Operation → String → Option PromotionSpec → String
requestor_of create username old = username
requestor_of _ username none = ""
requestor_of _ username (some old) = old.requestor

-- The signature of the decision.
pub sign_decision : SignRequest PromotionSpec → Option PromotionSpec → PromotionSpec → PromotionSpec
sign_decision req signed_before pr =
    if str_eq pr.decision ""
    then record pr { decided_by = ""; decided_by_groups = []; decided_at = none }
    else elim signed_before [
      | some old ↦ record pr {
        decided_by = old.decided_by;
        decided_by_groups = old.decided_by_groups;
        decided_at = old.decided_at;
      }
      | none ↦ record pr {
        decided_by = req.username;
        decided_by_groups = req.groups;
        decided_at = some req.now;
      }
    ]

pub sign : SignRequest PromotionSpec → Option PromotionSpec → PromotionSpec → PromotionSpec
sign req old pr =
    sign_decision req (decided old)
      (record pr { requestor = requestor_of req.operation req.username old })

pub finish :
    SignRequest PromotionSpec
    → Option PromotionSpec
    → PromotionSpec
    → Option Refusal
    → Signed Refusal PromotionSpec
finish req old pr (some why) = refuse why
finish req old pr none = signed (sign req old pr)

pub handle_decoded : SignRequest PromotionSpec → Raw PromotionSpec → Signed Refusal PromotionSpec
handle_decoded req (decoded pr) =
    let old = stored_of req.operation req.old_object in finish req old pr (check old pr)
handle_decoded req absent = bad_request
handle_decoded req undecodable = bad_request

pub handle_operation : Operation → SignRequest PromotionSpec → Signed Refusal PromotionSpec
handle_operation delete req = allow
handle_operation _ req = handle_decoded req req.object

-- `PromotionSigner.Handle`
pub sign_promotion : SignRequest PromotionSpec → Signed Refusal PromotionSpec
unfolding handle_operation handle_decoded finish
sign_promotion req = handle_operation req.operation req
