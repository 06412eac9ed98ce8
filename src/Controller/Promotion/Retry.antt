-- ===== src/Controller/Promotion/Retry.antt =====
-- What a retry of the reconciler in internal/controller/promotion_controller.go ends in.
use cupel.Base.{◌≡◌, true, false, Option, if◌then◌else◌}
use cupel.Api.{ModelSecurityReport, PromotionSpec}
use cupel.Controller.Promotion.{
  PromotionStatus, Status-discrete, World, Faults, Result, done, is_terminal, promoted_environments,
  is_unchanged, act,
}

-- Every update is accepted.
abbrev pub no_faults : Faults
no_faults = record {
  chain_fails = false;
  report_update_fails = false;
  report_reply_lost = false;
  status_update_fails = false;
  status_reply_lost = false;
}

pub is_unchanged-Path : (a b : PromotionStatus) → is_unchanged a b ≡ true → a ≡ b
unfolding is_unchanged
is_unchanged-Path a b h =
    elim (Status-discrete a b) as (λ d. (elim d [ yes e ↦ true | no n ↦ false ]) ≡ true → a ≡ b) [
      | yes e ↦ λ _. e
      | no n ↦ λ p. cc
    ]
      h

-- The world once the environments of the report are written.
abbrev pub promoted_world : PromotionSpec → Option ModelSecurityReport → World → World
promoted_world pr report w = record w {
  environments = promoted_environments pr report w.environments;
}

-- The rest of `Reconcile` for a request that may have become final.
resume : PromotionSpec → Option ModelSecurityReport → World → Result
resume pr report w = if is_terminal w.status.phase then done w else act no_faults pr report w
