-- ===== src/Webhook/Promotion/Decision.antt =====
-- What a signed promotion of internal/webhook/promotion.go attests.
use mathlib.Core.Path.{subst₂}
use cupel.Base.{◌≡◌, ◌≢◌, refl, sym, ap, subst, ◌∙◌, Option, none, some, [], arith, eq_iff}
use cupel.Api.{PromotionSpec}
use cupel.Webhook.Gate.{Operation, create, update, delete, connect}
use cupel.Webhook.Exception.{Raw, absent, undecodable, decoded, SignRequest, signed}
use cupel.Webhook.Promotion.{
  Refusal, stored_of, decided, check, check_decided, requestor_of, sign_decision, sign, finish,
  handle_decoded, handle_operation, sign_promotion,
}

pub record IsSigning (req : SignRequest PromotionSpec) (pr s : PromotionSpec) : Type 0 where
  pub submitted : req.object ≡ decoded pr
  pub permitted : check (stored_of req.operation req.old_object) pr ≡ none
  pub stored : s ≡ sign req (stored_of req.operation req.old_object) pr

finish_signed :
    (req : SignRequest PromotionSpec) (old : Option PromotionSpec) (pr s : PromotionSpec)
    (why : Option Refusal)
    → finish req old pr why ≡ signed s
    → (why ≡ none) × (s ≡ sign req old pr)
unfolding finish
finish_signed req old pr s none h = (refl, cc)
finish_signed req old pr s (some why) h = cc

handle_decoded_signed :
    (req : SignRequest PromotionSpec) (raw : Raw PromotionSpec) (s : PromotionSpec)
    → req.object ≡ raw
    → handle_decoded req raw ≡ signed s
    → (pr : PromotionSpec) × IsSigning req pr s
unfolding handle_decoded
handle_decoded_signed req absent s e h = cc
handle_decoded_signed req undecodable s e h = cc
handle_decoded_signed req (decoded pr) s e h =
    let (fine, same) = finish_signed req (stored_of req.operation req.old_object) pr s _ h in
    (pr, record { submitted = e; permitted = fine; stored = same })

sign_promotion_signed :
    (req : SignRequest PromotionSpec) (s : PromotionSpec)
    → sign_promotion req ≡ signed s
    → (pr : PromotionSpec) × IsSigning req pr s
unfolding sign_promotion
sign_promotion_signed req s h = go req.operation h
  where
    go :
        (op : Operation)
        → handle_operation op req ≡ signed s
        → (pr : PromotionSpec) × IsSigning req pr s
    go delete e = cc
    go create e = handle_decoded_signed req req.object s refl e
    go update e = handle_decoded_signed req req.object s refl e
    go connect e = handle_decoded_signed req req.object s refl e

-- Who asked and who decided, by the request and the object that it replaces.
pub record IsAttributed (req : SignRequest PromotionSpec) (s : PromotionSpec) : Type 0 where
  pub created : req.operation ≡ create → s.requestor ≡ req.username
  pub updated :
      (before : PromotionSpec)
      → req.operation ≡ update
      → req.old_object ≡ decoded before
      → s.requestor ≡ before.requestor
  pub undecided :
      s.decision ≡ "" → (s.decided_by ≡ "") × (s.decided_by_groups ≡ []) × (s.decided_at ≡ none)
  pub new_decision :
      s.decision ≢ ""
      → ((before : PromotionSpec)
          → req.operation ≡ update
          → req.old_object ≡ decoded before
          → before.decision ≡ "")
      → (s.decided_by ≡ req.username)
        × (s.decided_by_groups ≡ req.groups)
        × (s.decided_at ≡ some req.now)
  pub old_decision :
      (before : PromotionSpec)
      → req.operation ≡ update
      → req.old_object ≡ decoded before
      → before.decision ≢ ""
      → (s.decision ≡ before.decision)
        × (s.target_environment ≡ before.target_environment)
        × (s.decided_by ≡ before.decided_by)
        × (s.decided_by_groups ≡ before.decided_by_groups)
        × (s.decided_at ≡ before.decided_at)

sign-requestor :
    (req : SignRequest PromotionSpec) (old : Option PromotionSpec) (pr : PromotionSpec)
    → (sign req old pr).requestor ≡ requestor_of req.operation req.username old
unfolding sign sign_decision
sign-requestor req old pr = ground arith

stored_of_updated :
    (req : SignRequest PromotionSpec) (before : PromotionSpec)
    → req.operation ≡ update
    → req.old_object ≡ decoded before
    → stored_of req.operation req.old_object ≡ some before
unfolding stored_of
stored_of_updated req before updates was =
    subst₂ (λ op raw. stored_of op raw ≡ some before) (sym updates) (sym was) refl

sign_created :
    (req : SignRequest PromotionSpec) (old : Option PromotionSpec) (pr : PromotionSpec)
    → req.operation ≡ create
    → (sign req old pr).requestor ≡ req.username
unfolding requestor_of
sign_created req old pr creates =
    sign-requestor req old pr ∙ ap (λ op. requestor_of op req.username old) creates

sign_updated :
    (req : SignRequest PromotionSpec) (old : Option PromotionSpec) (pr before : PromotionSpec)
    → req.operation ≡ update
    → old ≡ some before
    → (sign req old pr).requestor ≡ before.requestor
unfolding requestor_of
sign_updated req old pr before updates was =
    sign-requestor req old pr ∙ (λ i. requestor_of (updates i) req.username (was i))

-- A stored object without a decision was not decided.
undecided_before :
    (op : Operation) (raw : Raw PromotionSpec)
    → ((before : PromotionSpec) → op ≡ update → raw ≡ decoded before → before.decision ≡ "")
    → decided (stored_of op raw) ≡ none
unfolding decided stored_of
undecided_before update (decoded old) h = rw (h old refl refl) refl
undecided_before update absent h = refl
undecided_before update undecodable h = refl
undecided_before create raw h = refl
undecided_before delete raw h = refl
undecided_before connect raw h = refl

decided_before :
    (before : PromotionSpec) → before.decision ≢ "" → decided (some before) ≡ some before
unfolding decided
decided_before before n = ground (arith, n, eq_iff before.decision "")

sign-decision :
    (req : SignRequest PromotionSpec) (old : Option PromotionSpec) (pr : PromotionSpec)
    → ((sign req old pr).decision ≡ pr.decision)
      × ((sign req old pr).target_environment ≡ pr.target_environment)
unfolding sign sign_decision
sign-decision req old pr = ground arith

check_decided_none :
    (old : Option PromotionSpec) (pr before : PromotionSpec)
    → check old pr ≡ none
    → decided old ≡ some before
    → (pr.decision ≡ before.decision) × (pr.target_environment ≡ before.target_environment)
unfolding check
check_decided_none old pr before h e =
    let passed : check_decided (decided old) pr ≡ none = ground arith in go (rw e at passed)
  where
    go :
        check_decided (some before) pr ≡ none
        → (pr.decision ≡ before.decision) × (pr.target_environment ≡ before.target_environment)
    go k =
        unfold check_decided in
        ground (
          arith,
          eq_iff pr.decision before.decision,
          eq_iff pr.target_environment before.target_environment,
          k,
        )

sign_undecided :
    (req : SignRequest PromotionSpec) (old : Option PromotionSpec) (pr : PromotionSpec)
    → pr.decision ≡ ""
    → ((sign req old pr).decided_by ≡ "")
      × ((sign req old pr).decided_by_groups ≡ [])
      × ((sign req old pr).decided_at ≡ none)
unfolding sign sign_decision
sign_undecided req old pr h = ground (arith, eq_iff pr.decision "")

sign_new :
    (req : SignRequest PromotionSpec) (old : Option PromotionSpec) (pr : PromotionSpec)
    → pr.decision ≢ ""
    → decided old ≡ none
    → ((sign req old pr).decided_by ≡ req.username)
      × ((sign req old pr).decided_by_groups ≡ req.groups)
      × ((sign req old pr).decided_at ≡ some req.now)
unfolding sign sign_decision
sign_new req old pr n h = ground (arith, eq_iff pr.decision "")

sign_old :
    (req : SignRequest PromotionSpec) (old : Option PromotionSpec) (pr before : PromotionSpec)
    → pr.decision ≢ ""
    → decided old ≡ some before
    → ((sign req old pr).decided_by ≡ before.decided_by)
      × ((sign req old pr).decided_by_groups ≡ before.decided_by_groups)
      × ((sign req old pr).decided_at ≡ before.decided_at)
unfolding sign sign_decision
sign_old req old pr before n h = ground (arith, eq_iff pr.decision "")

-- Whatever the payload says of who acted, a promotion request is stored with these identities: on a
-- create its requestor is the authenticated user, and on an update of a stored object that decodes
-- the one stored there; without a decision nobody decided; a decision where none was stored is the
-- authenticated user's, at the time of the request; and a decision that was stored before keeps its
-- value, its environment, its reviewer and its time.
pub decision-IsAttributed :
    (req : SignRequest PromotionSpec) (s : PromotionSpec)
    → sign_promotion req ≡ signed s
    → IsAttributed req s
decision-IsAttributed req s h = attributed (sign_promotion_signed req s h)
  where
    old : Option PromotionSpec
    old = stored_of req.operation req.old_object

    attributed : ((pr : PromotionSpec) × IsSigning req pr s) → IsAttributed req s
    attributed (pr, signing) =
        let same = sign-decision req old pr in
        subst (IsAttributed req) (sym signing.stored) (record {
          created = sign_created req old pr;
          updated = λ before updates was.
              sign_updated req old pr before updates (stored_of_updated req before updates was);
          undecided = λ e. sign_undecided req old pr (sym same.0 ∙ e);
          new_decision = λ n fresh.
              sign_new req old pr (λ d. n (same.0 ∙ d))
                (undecided_before req.operation req.old_object fresh);
          old_decision = λ before updates was n.
              let e : decided old ≡ some before =
                ap decided (stored_of_updated req before updates was) ∙ decided_before before n in
              let (decision, environment) = check_decided_none old pr before signing.permitted e in
              let (who, groups, when) = sign_old req old pr before (λ d. n (sym decision ∙ d)) e in
              (same.0 ∙ decision, same.1 ∙ environment, who, groups, when);
        })
