-- ===== src/Webhook/Promotion/Moved.antt =====
-- What a signed decision of internal/webhook/promotion.go does not hold on to.
use mathlib.Core.Path.{subst₂}
use cupel.Base.{◌≡◌, ◌≢◌, refl, sym, ap, ◌∙◌, none, some, String, arith, eq_iff}
use cupel.Api.{PromotionSpec}
use cupel.Webhook.Gate.{update}
use cupel.Webhook.Exception.{decoded, SignRequest, signed}
use cupel.Webhook.Promotion.{
  stored_of, decided, check, check_decided, requestor_of, sign_decision, sign, finish,
  handle_decoded, handle_operation, sign_promotion,
}

-- A signed decision moves to another model: an update that keeps the decision and the environment
-- is stored with the old reviewer and the old time for any model and version that it names. The
-- stored decision is an approval for a named environment, and the new model and version are named.
pub decision_moves_to_any_model :
    (req : SignRequest PromotionSpec) (old pr : PromotionSpec) (model version : String)
    → req.operation ≡ update
    → req.object ≡ decoded (record pr { model_name = model; model_version = version })
    → req.old_object ≡ decoded old
    → old.decision ≡ "Approve"
    → pr.decision ≡ old.decision
    → pr.target_environment ≡ old.target_environment
    → old.target_environment ≢ ""
    → model ≢ ""
    → version ≢ ""
    → sign_promotion req
      ≡ signed (record pr {
        model_name = model;
        model_version = version;
        requestor = old.requestor;
        decided_by = old.decided_by;
        decided_by_groups = old.decided_by_groups;
        decided_at = old.decided_at;
      })
unfolding sign_promotion
decision_moves_to_any_model req old pr model version updates submits was approved kept same
      environment m v =
    ap (λ op. handle_operation op req) updates
    ∙ ap (handle_decoded req) submits
    ∙ (λ i. finish req (old_is i) moved (check (old_is i) moved))
    ∙ ap (finish req (some old) moved) passes
    ∙ ap signed signs
  where
    moved : PromotionSpec
    moved = record pr { model_name = model; model_version = version }

    old_is : stored_of req.operation req.old_object ≡ some old
    old_is =
        subst₂ (λ op raw. stored_of op raw ≡ some old) (sym updates) (sym was)
          (unfold stored_of in refl)

    was_decided : decided (some old) ≡ some old
    was_decided = unfold decided in ground (arith, eq_iff old.decision "", eq_iff "Approve" "")

    passes : check (some old) moved ≡ none
    passes =
        unfold check check_decided in
        ground (
          arith,
          eq_iff model "",
          eq_iff version "",
          eq_iff pr.target_environment "",
          eq_iff pr.decision "Reject",
          eq_iff "Approve" "Reject",
          eq_iff pr.decision old.decision,
          eq_iff pr.target_environment old.target_environment,
          was_decided,
        )

    signs : sign req (some old) moved ≡ record moved {
      requestor = old.requestor;
      decided_by = old.decided_by;
      decided_by_groups = old.decided_by_groups;
      decided_at = old.decided_at;
    }
    signs =
        unfold sign sign_decision requestor_of in
        ground (arith, eq_iff pr.decision "", eq_iff "Approve" "", was_decided, updates)
