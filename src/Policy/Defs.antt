-- ===== src/Policy/Defs.antt =====
-- argo_dt/policy.py. `utc_now()` is the argument `now`.
use k2s.Prelude.{
  ℕ, String, Bool, true, false, not, ◌&&◌, ◌||◌, Option, none, some, List, [], ◌∷◌, ◌==◌, ltb, leb,
  contains, is_subset, intersection, if◌then◌else◌,
}
use k2s.Types.{ConsentGrant, ProjectionRequest, ActionEnvelope, AuthorityGrant, rank, active_at}

-- if test: reasons.append(text)
abbrev pub reason_if : Bool → String → List String → List String
reason_if true text rest = text ∷ rest
reason_if false text rest = rest

abbrev pub is_empty : List String → Bool
is_empty [] = true
is_empty (x ∷ xs) = false

-- The reasons against a projection under a grant, in the order of the code.
unfoldable pub projection_reasons : ProjectionRequest → ConsentGrant → List String → ℕ → List String
projection_reasons request consent available now =
    reason_if (not (active_at consent.window now)) "consent_inactive" (
      reason_if (not (consent.subject_id == request.subject_id)) "subject_mismatch" (
        reason_if (not (consent.recipient_id == request.recipient_id)) "recipient_mismatch" (
          reason_if (not (contains request.purpose consent.purposes)) "purpose_not_granted" (
            reason_if (ltb (rank consent.max_sensitivity) (rank request.maximum_sensitivity))
              "sensitivity_exceeds_grant"
              (reason_if (not (is_subset request.requested_fields available))
                "unsupported_field_request"
                (reason_if (not (is_subset request.requested_fields consent.allowed_fields))
                  "field_not_granted" []))))))

-- The answer once the grant raised `reasons`: allow, the reasons, and the fields.
abbrev pub projection_answer : List String → List String → Bool × List String × List String
projection_answer (r ∷ rs) fields = (false, r ∷ rs, [])
projection_answer [] [] = (false, "empty_projection" ∷ [], [])
projection_answer [] (f ∷ fs) = (true, "consent_and_policy_satisfied" ∷ [], f ∷ fs)

unfoldable pub evaluate_projection :
    ProjectionRequest → Option ConsentGrant → List String → ℕ → Bool × List String × List String
evaluate_projection request none available now = (false, "no_active_consent" ∷ [], [])
evaluate_projection request (some consent) available now =
    projection_answer (projection_reasons request consent available now)
      (intersection (intersection request.requested_fields consent.allowed_fields) available)

-- _IMPACT_ORDER.get(impact), with one added so that -1 is 0.
unfoldable pub impact_order : ℕ → String → ℕ
impact_order missing impact =
    if impact == "none"
    then 1
    else if impact == "low"
    then 2
    else if impact == "moderate"
    then 3
    else if impact == "high"
    then 4
    else if impact == "critical"
    then 5
    else missing

-- The reasons against an action under a grant.
unfoldable pub action_reasons : ActionEnvelope → AuthorityGrant → ℕ → List String
action_reasons action grant now =
    reason_if (not (active_at grant.window now)) "authority_inactive" (
      reason_if (leb action.expires_at now || ltb now action.issued_at) "action_envelope_inactive" (
        reason_if (not (grant.principal_id == action.principal_id)) "principal_mismatch" (
          reason_if (not (grant.actor_identity_id == action.actor_identity_id)) "actor_mismatch" (
            reason_if (not (contains action.purpose grant.purposes)) "purpose_not_authorized" (
              reason_if (not (is_subset action.requested_capabilities grant.capabilities))
                "capability_not_authorized"
                (reason_if
                  (ltb (impact_order 0 grant.maximum_impact) (impact_order 100 action.impact))
                  "impact_exceeds_grant"
                  (reason_if (grant.require_reversible && not action.reversible)
                    "irreversible_action_denied"
                    (reason_if (is_empty action.evidence_ids) "action_has_no_evidence" []))))))))

abbrev pub action_answer : List String → Bool × List String
action_answer [] = (true, "authority_and_constraints_satisfied" ∷ [])
action_answer (r ∷ rs) = (false, r ∷ rs)

unfoldable pub evaluate_action : ActionEnvelope → Option AuthorityGrant → ℕ → Bool × List String
evaluate_action action none now = (false, "no_authority_grant" ∷ [])
evaluate_action action (some grant) now = action_answer (action_reasons action grant now)
