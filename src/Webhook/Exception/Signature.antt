-- ===== src/Webhook/Exception/Signature.antt =====
-- What a signed exception of internal/webhook/exception.go attests.
use mathlib.Core.Path.{subst₂}
use cupel.Base.{
  ℕ, ◌≡◌, ◌≢◌, ◌⊎◌, inl, inr, refl, sym, ap, ◌∙◌, true, false, ◌&&◌, Option, none, some, List, [],
  ◌∷◌, String, arith, eq_iff, is_blank, trim_space, codes_eq,
}
use cupel.Api.{ExceptionSpec}
use cupel.Webhook.Gate.{Operation, create, update, delete, connect}
use cupel.Webhook.Exception.{
  Raw, absent, undecodable, decoded, SignRequest, Refusal, signed, subset, check_submission,
  check_signed, check_update, sign, finish, first_refusal, handle_decoded, handle_operation,
  is_empty, sign_exception, approval_time,
}

finish_signed :
    (req : SignRequest ExceptionSpec) (ex s : ExceptionSpec) (why : Option Refusal)
    → finish req ex why ≡ signed s
    → (why ≡ none) × (s ≡ sign req ex)
unfolding finish
finish_signed req ex s none h = (refl, cc)
finish_signed req ex s (some why) h = cc

first_refusal-none : (a b : Option Refusal) → first_refusal a b ≡ none → (a ≡ none) × (b ≡ none)
unfolding first_refusal
first_refusal-none a b h = ground arith

-- What is signed was submitted, passed both checks, and bears the signature of the request.
pub record IsSigning (req : SignRequest ExceptionSpec) (ex s : ExceptionSpec) : Type 0 where
  pub submitted : req.object ≡ decoded ex
  pub complete : check_submission ex ≡ none
  pub permitted : check_update req.operation req.old_object ex ≡ none
  pub stored : s ≡ sign req ex

handle_decoded_signed :
    (req : SignRequest ExceptionSpec) (raw : Raw ExceptionSpec) (s : ExceptionSpec)
    → req.object ≡ raw
    → handle_decoded req raw ≡ signed s
    → (ex : ExceptionSpec) × IsSigning req ex s
unfolding handle_decoded
handle_decoded_signed req absent s e h = cc
handle_decoded_signed req undecodable s e h = cc
handle_decoded_signed req (decoded ex) s e h =
    let (fine, same) = finish_signed req ex s _ h in
    let (complete, permitted) =
      first_refusal-none (check_submission ex) (check_update req.operation req.old_object ex)
        fine in
    (ex, record { submitted = e; complete = complete; permitted = permitted; stored = same })

sign_exception_signed :
    (req : SignRequest ExceptionSpec) (s : ExceptionSpec)
    → sign_exception req ≡ signed s
    → (ex : ExceptionSpec) × IsSigning req ex s
unfolding sign_exception
sign_exception_signed req s h = go req.operation h
  where
    go :
        (op : Operation)
        → handle_operation op req ≡ signed s
        → (ex : ExceptionSpec) × IsSigning req ex s
    go delete e = cc
    go create e = handle_decoded_signed req req.object s refl e
    go update e = handle_decoded_signed req req.object s refl e
    go connect e = handle_decoded_signed req req.object s refl e

-- An exception is stored only with a reason, a model and a version, and something that it waives.
pub record IsComplete (ex : ExceptionSpec) : Type 0 where
  pub explained : is_blank ex.reason ≡ false
  pub names_model : ex.model_name ≢ ""
  pub names_version : ex.model_version ≢ ""
  pub waives : (ex.rules ≢ []) ⊎ (ex.finding_ids ≢ [])

nonempty_one : (xs ys : List String) → (is_empty xs && is_empty ys) ≡ false → (xs ≢ []) ⊎ (ys ≢ [])
unfolding is_empty
nonempty_one [] [] h = cc
nonempty_one [] (y ∷ ys) h = inr (λ e. cc)
nonempty_one (x ∷ xs) ys h = inl (λ e. cc)

check_submission-IsComplete : (ex : ExceptionSpec) → check_submission ex ≡ none → IsComplete ex
unfolding check_submission
check_submission-IsComplete ex h = record {
  explained = ground arith;
  names_model = ground (arith, eq_iff ex.model_name "");
  names_version = ground (arith, eq_iff ex.model_version "");
  waives = nonempty_one ex.rules ex.finding_ids (ground arith);
}

-- Every exception that is stored is complete and names the authenticated user and their groups as
-- its approver, whatever the payload says; all but the approval is as submitted.
pub signature_is_the_users :
    (req : SignRequest ExceptionSpec) (s : ExceptionSpec)
    → sign_exception req ≡ signed s
    → (ex : ExceptionSpec) × (req.object ≡ decoded ex)
      × IsComplete ex
      × (s.approved_by ≡ req.username)
      × (s.approved_by_groups ≡ req.groups)
      × (record s {
        approved_by = ex.approved_by;
        approved_by_groups = ex.approved_by_groups;
        approved_at = ex.approved_at;
      }
          ≡ ex)
unfolding sign
signature_is_the_users req s h =
    let (ex, signing) = sign_exception_signed req s h in
    (
      ex,
      signing.submitted,
      check_submission-IsComplete ex signing.complete,
      ap (λ (t : ExceptionSpec). t.approved_by) signing.stored,
      ap (λ (t : ExceptionSpec). t.approved_by_groups) signing.stored,
      ap
          (λ (t : ExceptionSpec). record t {
            approved_by = ex.approved_by;
            approved_by_groups = ex.approved_by_groups;
            approved_at = ex.approved_at;
          })
          signing.stored,
    )

pub record IsNarrowing (old ex : ExceptionSpec) : Type 0 where
  pub same_approver : ex.approved_by ≡ old.approved_by
  pub rules : subset ex.rules old.rules ≡ true
  pub findings : subset ex.finding_ids old.finding_ids ≡ true
  pub same_reason : codes_eq (trim_space ex.reason) (trim_space old.reason) ≡ true

check_signed-IsNarrowing :
    (old ex : ExceptionSpec)
    → old.approved_by ≢ ""
    → check_signed old ex ≡ none
    → IsNarrowing old ex
unfolding check_signed
check_signed-IsNarrowing old ex n h = record {
  same_approver = ground (arith, eq_iff old.approved_by "", eq_iff ex.approved_by old.approved_by);
  rules = ground (arith, eq_iff old.approved_by "");
  findings = ground (arith, eq_iff old.approved_by "");
  same_reason = ground (arith, eq_iff old.approved_by "");
}

-- An update of a signed exception is stored only if it submits the approver that is stored, waives
-- no rule and no finding that the stored one does not, and gives the same reason.
pub update_only_narrows :
    (req : SignRequest ExceptionSpec) (old s : ExceptionSpec)
    → req.operation ≡ update
    → req.old_object ≡ decoded old
    → old.approved_by ≢ ""
    → sign_exception req ≡ signed s
    → (ex : ExceptionSpec) × (req.object ≡ decoded ex) × IsNarrowing old ex
unfolding check_update
update_only_narrows req old s updates was n h =
    let (ex, signing) = sign_exception_signed req s h in
    (
      ex,
      signing.submitted,
      check_signed-IsNarrowing old ex n
          (subst₂ (λ op raw. check_update op raw ex ≡ none) updates was signing.permitted),
    )

IsNarrowing-passes :
    (old ex : ExceptionSpec) → IsNarrowing old ex → check_update update (decoded old) ex ≡ none
unfolding check_update check_signed
IsNarrowing-passes old ex narrow = ground (arith, eq_iff ex.approved_by old.approved_by)

both_pass : {a b : Option Refusal} → a ≡ none → b ≡ none → first_refusal a b ≡ none
unfolding first_refusal
both_pass {a} {b} p q = rw (p, q, first_refusal)

signed_again :
    (req : SignRequest ExceptionSpec) (ex : ExceptionSpec)
    → req.operation ≡ update
    → ex.approved_at ≢ none
    → sign req ex ≡ record ex { approved_by = req.username; approved_by_groups = req.groups }
unfolding sign approval_time
signed_again req ex updates timed = go ex.approved_at refl
  where
    go :
        (at : Option ℕ)
        → ex.approved_at ≡ at
        → sign req ex ≡ record ex { approved_by = req.username; approved_by_groups = req.groups }
    go none e = absurd (timed e)
    go (some t) e = rw (updates, e) refl

-- The signature moves: an update of a signed exception that keeps its rules, findings and reason,
-- and submits the approver that is stored, is stored as submitted, but with the name and the groups
-- of whoever updates it as its approver, for any model, version, scanned digest, expiry and approval
-- time that it submits. The submission has an approval time and passes the checks on its own.
pub update_moves_signature :
    (req : SignRequest ExceptionSpec) (old ex : ExceptionSpec)
    → req.operation ≡ update
    → req.object ≡ decoded ex
    → req.old_object ≡ decoded old
    → check_submission ex ≡ none
    → IsNarrowing old ex
    → ex.approved_at ≢ none
    → sign_exception req
      ≡ signed (record ex { approved_by = req.username; approved_by_groups = req.groups })
unfolding sign_exception
update_moves_signature req old ex updates submits was complete narrow timed =
    ap (λ op. handle_operation op req) updates
    ∙ ap (handle_decoded req) submits
    ∙ ap (finish req ex) (
        both_pass complete (
          subst₂ (λ op raw. check_update op raw ex ≡ none) (sym updates) (sym was)
            (IsNarrowing-passes old ex narrow)))
    ∙ ap signed (signed_again req ex updates timed)
