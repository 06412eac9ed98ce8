-- ===== src/Webhook/Exception.antt =====
-- internal/webhook/exception.go: who signs an accepted risk. The stored object is the submitted
-- specification as patched, and a refusal is a value for its message.
pub mod Signature
mod Tests
use cupel.Base.{
  ℕ, Bool, true, false, not, ◌||◌, ◌&&◌, Option, none, some, List, [], ◌∷◌, ◌++◌, String,
  if◌then◌else◌, str_eq, any, all, is_member, is_blank, trim_space, codes_eq,
}
use cupel.Api.{ExceptionSpec}
use cupel.Webhook.Gate.{Operation, create, update, delete, connect}

-- A raw object of the request: missing, not decodable, or decoded.
pub data Raw {ℓ} (A : Type ℓ) : Type ℓ where
  absent : Raw A
  undecodable : Raw A
  decoded : A → Raw A

-- The admission request as the API server authenticated it.
pub record SignRequest (A : Type 0) : Type 0 where
  pub operation : Operation
  pub username : String
  pub groups : List String
  pub object : Raw A
  pub old_object : Raw A
  pub now : ℕ

pub data Refusal : Type 0 where
  reason_required model_required waives_nothing reassigned widened reason_rewritten : Refusal

-- `allow` answers a deletion; `signed` holds the patched object.
pub data Signed {ℓ} (W A : Type ℓ) : Type ℓ where
  allow : Signed W A
  bad_request : Signed W A
  refuse : W → Signed W A
  signed : A → Signed W A

unfoldable pub subset : List String → List String → Bool
unfolding is_member
subset xs ys = all (λ x. is_member x ys) xs

pub is_empty : List String → Bool
is_empty [] = true
is_empty (x ∷ xs) = false

-- The checks of a submission on its own.
pub check_submission : ExceptionSpec → Option Refusal
unfolding is_empty
check_submission ex =
    if is_blank ex.reason
    then some reason_required
    else if str_eq ex.model_name "" || str_eq ex.model_version ""
    then some model_required
    else if is_empty ex.rules && is_empty ex.finding_ids
    then some waives_nothing
    else none

-- The checks of an update against the object that is stored.
pub check_signed : ExceptionSpec → ExceptionSpec → Option Refusal
check_signed old ex =
    if str_eq old.approved_by ""
    then none
    else if not (str_eq ex.approved_by old.approved_by)
    then some reassigned
    else if not (subset ex.rules old.rules) || not (subset ex.finding_ids old.finding_ids)
    then some widened
    else if not (codes_eq (trim_space ex.reason) (trim_space old.reason))
    then some reason_rewritten
    else none

pub check_update : Operation → Raw ExceptionSpec → ExceptionSpec → Option Refusal
check_update update (decoded old) ex = check_signed old ex
check_update _ _ ex = none

pub approval_time : Operation → Option ℕ → ℕ → Option ℕ
approval_time create submitted now = some now
approval_time _ none now = some now
approval_time _ (some t) now = some t

-- The signature, from the request.
pub sign : SignRequest ExceptionSpec → ExceptionSpec → ExceptionSpec
unfolding approval_time
sign req ex = record ex {
  approved_by = req.username;
  approved_by_groups = req.groups;
  approved_at = approval_time req.operation ex.approved_at req.now;
}

pub finish :
    SignRequest ExceptionSpec → ExceptionSpec → Option Refusal → Signed Refusal ExceptionSpec
finish req ex (some why) = refuse why
finish req ex none = signed (sign req ex)

pub first_refusal : Option Refusal → Option Refusal → Option Refusal
first_refusal (some why) later = some why
first_refusal none later = later

pub handle_decoded : SignRequest ExceptionSpec → Raw ExceptionSpec → Signed Refusal ExceptionSpec
handle_decoded req (decoded ex) =
    finish req ex
      (first_refusal (check_submission ex) (check_update req.operation req.old_object ex))
handle_decoded req absent = bad_request
handle_decoded req undecodable = bad_request

pub handle_operation : Operation → SignRequest ExceptionSpec → Signed Refusal ExceptionSpec
unfolding handle_decoded
handle_operation delete req = allow
handle_operation _ req = handle_decoded req req.object

-- `ExceptionSigner.Handle`
pub sign_exception : SignRequest ExceptionSpec → Signed Refusal ExceptionSpec
unfolding handle_operation finish first_refusal
sign_exception req = handle_operation req.operation req

-- `record`: what is appended to the audit chain, if there is a recorder.
pub recorded_exception : Bool → Operation → ExceptionSpec → Option ExceptionSpec
recorded_exception true create ex = some ex
recorded_exception _ _ ex = none
