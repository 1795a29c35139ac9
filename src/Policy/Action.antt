-- ===== src/Policy/Action.antt =====
-- When `evaluate_action` lets an action through.
use k2s.Prelude.{
  ℕ, ◌≤◌, ◌<◌, String, ◌≡◌, refl, ap, ◌∙◌, ◌↔◌, ◌≢◌, ◌⊎◌, true, false, Option, none, some, List, [],
  ◌∷◌, eq_iff, contains, is_subset, arith,
}
use k2s.Types.{ActionEnvelope, AuthorityGrant, active_at}
use k2s.Policy.Defs.{impact_order, action_reasons, action_answer, evaluate_action}

-- What an authority grant must say for an action to run at `now`.
pub record Authorizes (action : ActionEnvelope) (grant : AuthorityGrant) (now : ℕ) : Type 0 where
  pub is_active : active_at grant.window now ≡ true
  pub issued : action.issued_at ≤ now
  pub unexpired : now < action.expires_at
  pub principal : grant.principal_id ≡ action.principal_id
  pub actor : grant.actor_identity_id ≡ action.actor_identity_id
  pub purpose : contains action.purpose grant.purposes ≡ true
  pub capabilities : is_subset action.requested_capabilities grant.capabilities ≡ true
  pub impact : impact_order 100 action.impact ≤ impact_order 0 grant.maximum_impact
  pub reversible : (grant.require_reversible ≡ false) ⊎ (action.reversible ≡ true)
  pub evidence : action.evidence_ids ≢ []

module _ (action : ActionEnvelope) (grant : AuthorityGrant) (now : ℕ) where
  reasons-Authorizes : action_reasons action grant now ≡ [] → Authorizes action grant now
  unfolding action_reasons
  reasons-Authorizes h = ground (
    arith,
    eq_iff grant.principal_id action.principal_id,
    eq_iff grant.actor_identity_id action.actor_identity_id,
  )

  Authorizes-reasons : Authorizes action grant now → action_reasons action grant now ≡ []
  unfolding action_reasons
  Authorizes-reasons h = ground (
    arith,
    eq_iff grant.principal_id action.principal_id,
    eq_iff grant.actor_identity_id action.actor_identity_id,
  )

some_inj : (g x : AuthorityGrant) → some g ≡ some x → g ≡ x
some_inj g x e = cc

answer_iff : (rs : List String) → ((action_answer rs).0 ≡ true) ↔ (rs ≡ [])
answer_iff [] = (λ h. refl, λ h. refl)
answer_iff (r ∷ rs) = (λ h. absurd (ground arith), λ h. absurd (ground arith))

answer_reasons : (rs : List String) → (action_answer rs).1 ≢ []
answer_reasons [] = λ e. ground arith
answer_reasons (r ∷ rs) = λ e. ground arith

-- An action is allowed exactly when there is a grant that authorises it, and every answer has a
-- reason.
pub evaluate_action_iff :
    (action : ActionEnvelope) (grant : Option AuthorityGrant) (now : ℕ)
    → let (allowed, reasons) = evaluate_action action grant now in
      ((allowed ≡ true) ↔ ((g : AuthorityGrant) × (grant ≡ some g) × Authorizes action g now))
      × (reasons ≢ [])
unfolding evaluate_action
evaluate_action_iff action none now =
    ((λ h. absurd (ground arith), λ (x, e, a). absurd (ground arith)), λ e. ground arith)
evaluate_action_iff action (some g) now = (
  (
    λ h. (g, refl, reasons-Authorizes action g now ((answer_iff _).0 h)),
    λ (x, e, a). (answer_iff _).1 (
        ap (λ y. action_reasons action y now) (some_inj g x e) ∙ Authorizes-reasons action x now a),
  ),
  answer_reasons (action_reasons action g now),
)
